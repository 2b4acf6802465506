-- ===== src/Health/Sets.antt =====
-- Which limits hold for a target, and what it usually answers (agent/internal/agent/thresholds.go).
-- The clock is read once.
use infracheck_appliance.Base.{
  ◌-◌, ◌*◌, ◌%◌, ◌^◌, String, ◌&&◌, not, Option, none, some, List, [], ◌∷◌, map, keep,
  if◌then◌else◌, str_eq, ltb, length, ◌==◌,
}
use infracheck_appliance.Base.Int.{ℤ, pos, pos_part, ltb_ℤ, eq_ℤ, add_ℤ}
use infracheck_appliance.Base.Text.{trim_space}
use infracheck_appliance.Base.Dict.{Dict, lookup, values}
use infracheck_appliance.Base.Float.{Floats}
use infracheck_appliance.Config.{ThresholdSet, ThresholdsConfig}
use infracheck_appliance.Config.Interval.{second, int64}
use infracheck_appliance.Verdict.{
  PingResult, DnsResult, HttpResult, latest_in, ping_key, dns_key, http_key,
}

module _ (fl : Floats) where
  open fl use {F, of_int, ratio, add, mul, div, lt, le, eq, max}

  abbrev pub zero_float : F
  zero_float = ratio 0 1

  abbrev over : F → F → F
  over new old = if eq new zero_float then old else new

  abbrev over_int : ℤ → ℤ → ℤ
  over_int new old = if eq_ℤ new (pos 0) then old else new

  -- The three limits of the speed stay the base's.
  unfoldable pub merge_threshold : ThresholdSet F → ThresholdSet F → ThresholdSet F
  merge_threshold base o = record base {
    packet_loss_warning_percent =
        over o.packet_loss_warning_percent base.packet_loss_warning_percent;
    packet_loss_critical_percent =
        over o.packet_loss_critical_percent base.packet_loss_critical_percent;
    latency_warning_ms = over o.latency_warning_ms base.latency_warning_ms;
    latency_critical_ms = over o.latency_critical_ms base.latency_critical_ms;
    latency_relative_warning_percent =
        over o.latency_relative_warning_percent base.latency_relative_warning_percent;
    latency_relative_window_days =
        over_int o.latency_relative_window_days base.latency_relative_window_days;
    dns_duration_warning_ms = over o.dns_duration_warning_ms base.dns_duration_warning_ms;
    dns_duration_critical_ms = over o.dns_duration_critical_ms base.dns_duration_critical_ms;
    http_duration_warning_ms = over o.http_duration_warning_ms base.http_duration_warning_ms;
    http_duration_critical_ms = over o.http_duration_critical_ms base.http_duration_critical_ms;
    http_relative_warning_percent =
        over o.http_relative_warning_percent base.http_relative_warning_percent;
    http_relative_window_days = over_int o.http_relative_window_days base.http_relative_window_days;
    tls_expiry_warning_days = over_int o.tls_expiry_warning_days base.tls_expiry_warning_days;
    tls_expiry_critical_days = over_int o.tls_expiry_critical_days base.tls_expiry_critical_days;
  }

  abbrev overrides_of : Option (Dict (ThresholdSet F)) → Dict (ThresholdSet F)
  overrides_of none = []
  overrides_of (some d) = d

  abbrev merged_or : ThresholdSet F → Option (ThresholdSet F) → ThresholdSet F → ThresholdSet F
  merged_or base none later = later
  merged_or base (some o) later = merge_threshold base o

  -- The first key that is not empty and has an override decides.
  unfoldable pub threshold_for : ThresholdsConfig F → List String → ThresholdSet F
  threshold_for t [] = t.global
  threshold_for t (key ∷ keys) =
      let later = threshold_for t keys in
      if str_eq key ""
      then later
      else merged_or t.global (lookup key (overrides_of t.per_target)) later

  abbrev sum_floats : F → List F → F
  sum_floats sum [] = sum
  sum_floats sum (v ∷ vs) = sum_floats (add sum v) vs

  unfoldable pub average_float : List F → F
  average_float vs = div (sum_floats zero_float vs) (max (of_int (pos (length vs))) (ratio 1 1))

  unfoldable pub trimmed_average : List F → Option F
  trimmed_average vs =
      let kept = keep (λ v. le v (mul (average_float vs) (ratio 3 1))) vs in
      if ltb (length vs) 5
      then none
      else (if length kept == 0
          then none
          else some (div (sum_floats zero_float kept) (of_int (pos (length kept)))))

  -- `now.Add(-time.Duration(days) * 24 * time.Hour)`
  abbrev pub window_start : ℤ → ℤ → ℤ
  window_start now days = add_ℤ now (int64 (2 ^ 64 - (pos_part days * (86400 * second)) % 2 ^ 64))

  unfoldable pub ping_baseline : ℤ → PingResult F → List (PingResult F) → ℤ → Option F
  ping_baseline now current rows days =
      let usable = (λ (r : PingResult F).
        str_eq r.target_name current.target_name
        && str_eq r.target_host current.target_host
        && r.up
        && not (le r.latency_ms zero_float)
        && not (ltb_ℤ r.timestamp (window_start now days))
        && not (eq_ℤ r.id current.id)) in
      trimmed_average (map (λ (r : PingResult F). r.latency_ms) (keep usable rows))

  unfoldable pub http_baseline : ℤ → HttpResult F → List (HttpResult F) → ℤ → Option F
  http_baseline now current rows days =
      let usable = (λ (r : HttpResult F).
        str_eq r.name current.name
        && str_eq r.url current.url
        && r.up
        && not (le r.duration_ms zero_float)
        && not (ltb_ℤ r.timestamp (window_start now days))
        && not (eq_ℤ r.id current.id)) in
      trimmed_average (map (λ (r : HttpResult F). r.duration_ms) (keep usable rows))

module _ {F : Type 0} where
  unfoldable pub latest_ping_per_target : List (PingResult F) → List (PingResult F)
  latest_ping_per_target rs = values (
      latest_in ping_key (λ r. r.timestamp) []
        (keep (λ r. not (str_eq (trim_space r.target_host) "")) rs))

  unfoldable pub latest_dns_per_target : List (DnsResult F) → List (DnsResult F)
  latest_dns_per_target rs = values (latest_in dns_key (λ r. r.timestamp) [] rs)

  unfoldable pub latest_http_of_target : List (HttpResult F) → List (HttpResult F)
  latest_http_of_target rs = values (latest_in http_key (λ r. r.timestamp) [] rs)
