-- ===== src/Health/Limits.antt =====
-- The verdicts on targets that pass their limits (agent/internal/agent/thresholds.go).
use infracheck_appliance.Base.{
  String, Bool, ◌&&◌, not, Option, none, some, List, [], ◌∷◌, ◌++◌, if◌then◌else◌,
}
use infracheck_appliance.Base.Int.{ℤ, pos, ltb_ℤ}
use infracheck_appliance.Base.Text.{◌<>◌, first_non_empty}
use infracheck_appliance.Base.Decimal.{itoa}
use infracheck_appliance.Base.Float.{Floats}
use infracheck_appliance.Config.{ThresholdSet, ThresholdsConfig}
use infracheck_appliance.Verdict.{PingResult, DnsResult, dns_key}
use infracheck_appliance.Verdict.Rules.{Verdict, Metrics}
use infracheck_appliance.Health.Sets.{threshold_for, ping_baseline, zero_float}

module _ (fl : Floats) where
  open fl use {F, ratio, add, mul, div, lt, le, fixed}

  abbrev pub no_metrics : Metrics F
  no_metrics = record {
    gateway_up = none;
    gateway_latency_ms = none;
    gateway_loss_percent = none;
    internet_up_ratio = none;
    internet_max_loss = none;
    system_dns_success = none;
    public_dns_success = none;
    http_up_ratio = none;
    http_max_duration_ms = none;
    min_tls_days = none;
  }

  abbrev pub threshold_verdict :
      ℤ → String → String → String → String → String → List String → String → Verdict F
  threshold_verdict now severity category code title summary evidence recommendation = record {
    severity = severity;
    category = category;
    code = code;
    title = title;
    summary = summary;
    evidence = evidence;
    recommendation = recommendation;
    timestamp = now;
    metrics = no_metrics;
  }

  abbrev ping_name : PingResult F → String
  ping_name r = first_non_empty (r.target_name ∷ r.target_type ∷ "ping target" ∷ [])

  abbrev ping_host : PingResult F → String
  ping_host r = first_non_empty (r.target_host ∷ "unknown host" ∷ [])

  abbrev ping_threshold_verdict : ℤ → String → PingResult F → String → String → Verdict F
  ping_threshold_verdict now severity r title evidence =
      threshold_verdict now severity "wan" "ping_threshold" ("Ping " <> title)
        (ping_name r <> " (" <> ping_host r <> "): " <> evidence <> ".")
        (("target: " <> ping_name r) ∷ ("host: " <> ping_host r) ∷ evidence ∷ [])
        "Compare gateway and internet targets to separate LAN, firewall, and ISP causes."

  abbrev dns_threshold_verdict : ℤ → String → DnsResult F → String → Verdict F
  dns_threshold_verdict now severity r evidence =
      threshold_verdict now severity "dns" "dns_threshold" "DNS response slow"
        (r.resolver_name <> " resolving " <> r.domain <> " " <> r.record_type <> ": " <> evidence
          <> ".")
        (("resolver: " <> r.resolver_name)
          ∷ ("domain: " <> r.domain)
          ∷ ("record: " <> r.record_type)
          ∷ evidence
          ∷ [])
        "Check resolver health, WAN latency, firewall DNS handling, and local DNS server load."

  -- `limit > 0 && value >= limit`
  abbrev pub passes : F → F → Bool
  passes limit value = lt (zero_float fl) limit && le limit value

  -- The verdict of the critical limit, or else of the warning one.
  abbrev pub graded : Bool → Bool → Verdict F → Verdict F → List (Verdict F)
  graded critical warning c w = if critical then c ∷ [] else (if warning then w ∷ [] else [])

  -- `baseline * (1 + percent / 100)`
  abbrev pub relative_limit : F → F → F
  relative_limit baseline percent = mul baseline (add (ratio 1 1) (div percent (ratio 100 1)))

  abbrev ping_above_baseline : ℤ → PingResult F → ThresholdSet F → Option F → List (Verdict F)
  ping_above_baseline now r set none = []
  ping_above_baseline now r set (some baseline) =
      let limit = relative_limit baseline set.latency_relative_warning_percent in
      if lt limit r.latency_ms
      then ping_threshold_verdict now "warning" r "latency above baseline" (
          "latency "
          <> fixed 1 r.latency_ms
          <> " ms is above "
          <> fixed 1 limit
          <> " ms baseline limit (average "
          <> fixed 1 baseline
          <> " ms over "
          <> itoa set.latency_relative_window_days
          <> " days, "
          <> fixed 0 set.latency_relative_warning_percent
          <> "% relative warning)")
        ∷ []
      else []

  abbrev ping_down : ℤ → PingResult F → Verdict F
  ping_down now r =
      threshold_verdict now "critical" "wan" "ping_target_down" "Ping target down"
        (ping_name r <> " (" <> ping_host r <> ") is unreachable")
        (("target: " <> ping_name r)
          ∷ ("host: " <> ping_host r)
          ∷ ("type: " <> r.target_type)
          ∷ ("error: " <> r.error)
          ∷ [])
        "Check routing, firewall ICMP policy, upstream reachability, and whether this target is still valid."

  unfoldable pub ping_verdicts_of :
      ℤ → ThresholdSet F → PingResult F → List (PingResult F) → List (Verdict F)
  ping_verdicts_of now set r rows =
      if not r.up
      then ping_down now r ∷ []
      else graded (passes set.packet_loss_critical_percent r.loss_percent)
          (passes set.packet_loss_warning_percent r.loss_percent)
          (ping_threshold_verdict now "critical" r "packet loss critical" (
            "packet loss "
            <> fixed 2 r.loss_percent
            <> "% is above the critical limit "
            <> fixed 2 set.packet_loss_critical_percent
            <> "%"))
          (ping_threshold_verdict now "warning" r "packet loss warning" (
            "packet loss "
            <> fixed 2 r.loss_percent
            <> "% is above the warning limit "
            <> fixed 2 set.packet_loss_warning_percent
            <> "%"))
        ++ graded (passes set.latency_critical_ms r.latency_ms)
            (passes set.latency_warning_ms r.latency_ms)
            (ping_threshold_verdict now "critical" r "latency critical" (
              "latency "
              <> fixed 1 r.latency_ms
              <> " ms is above the critical limit "
              <> fixed 1 set.latency_critical_ms
              <> " ms"))
            (ping_threshold_verdict now "warning" r "latency warning" (
              "latency "
              <> fixed 1 r.latency_ms
              <> " ms is above the warning limit "
              <> fixed 1 set.latency_warning_ms
              <> " ms"))
        ++ (if lt (zero_float fl) set.latency_relative_warning_percent
              && ltb_ℤ (pos 0) set.latency_relative_window_days
            then ping_above_baseline now r set
                (ping_baseline fl now r rows set.latency_relative_window_days)
            else [])

  unfoldable pub threshold_ping_verdicts :
      ℤ → ThresholdsConfig F → List (PingResult F) → List (PingResult F) → List (Verdict F)
  threshold_ping_verdicts now t [] rows = []
  threshold_ping_verdicts now t (r ∷ latest) rows =
      ping_verdicts_of now (threshold_for fl t (r.target_name ∷ r.target_host ∷ [])) r rows
      ++ threshold_ping_verdicts now t latest rows

  abbrev dns_failed : ℤ → DnsResult F → Verdict F
  dns_failed now r =
      threshold_verdict now "warning" "dns" "dns_lookup_failed" "DNS lookup failed"
        (r.resolver_name <> " failed for " <> r.domain <> " " <> r.record_type)
        (("resolver: " <> r.resolver_name)
          ∷ ("domain: " <> r.domain)
          ∷ ("record: " <> r.record_type)
          ∷ ("error: " <> r.error)
          ∷ [])
        "Check resolver reachability, DNS server health, firewall UDP/TCP 53 policy, and domain correctness."

  unfoldable pub dns_verdicts_of : ℤ → ThresholdSet F → DnsResult F → List (Verdict F)
  dns_verdicts_of now set r =
      if not r.success
      then dns_failed now r ∷ []
      else graded (passes set.dns_duration_critical_ms r.duration_ms)
          (passes set.dns_duration_warning_ms r.duration_ms)
          (dns_threshold_verdict now "critical" r (
            "lookup took "
            <> fixed 0 r.duration_ms
            <> " ms, above the critical limit "
            <> fixed 0 set.dns_duration_critical_ms
            <> " ms"))
          (dns_threshold_verdict now "warning" r (
            "lookup took "
            <> fixed 0 r.duration_ms
            <> " ms, above the warning limit "
            <> fixed 0 set.dns_duration_warning_ms
            <> " ms"))

  unfoldable pub threshold_dns_verdicts :
      ℤ → ThresholdsConfig F → List (DnsResult F) → List (Verdict F)
  threshold_dns_verdicts now t [] = []
  threshold_dns_verdicts now t (r ∷ latest) =
      dns_verdicts_of now
        (threshold_for fl t (dns_key r ∷ r.resolver_name ∷ r.resolver_address ∷ r.domain ∷ [])) r
      ++ threshold_dns_verdicts now t latest
