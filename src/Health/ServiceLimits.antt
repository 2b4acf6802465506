-- ===== src/Health/ServiceLimits.antt =====
-- The verdicts on services that pass their limits (agent/internal/agent/thresholds.go).
use infracheck_appliance.Base.{
  String, Bool, ◌&&◌, Option, none, some, List, [], ◌∷◌, ◌++◌, if◌then◌else◌, str_eq,
}
use infracheck_appliance.Base.Int.{ℤ, pos, ltb_ℤ, leb_ℤ}
use infracheck_appliance.Base.Text.{◌<>◌, join}
use infracheck_appliance.Base.Decimal.{itoa}
use infracheck_appliance.Base.Float.{Floats}
use infracheck_appliance.Config.{ThresholdSet, ThresholdsConfig}
use infracheck_appliance.Verdict.{HttpResult}
use infracheck_appliance.Verdict.Rules.{Verdict}
use infracheck_appliance.Health.Sets.{threshold_for, http_baseline, zero_float}
use infracheck_appliance.Health.Limits.{threshold_verdict, passes, graded, relative_limit}

module _ (fl : Floats) where
  open fl use {F, ratio, add, mul, div, lt, le, fixed}

  abbrev http_threshold_verdict : ℤ → String → HttpResult F → String → Verdict F
  http_threshold_verdict now severity r evidence =
      threshold_verdict fl now severity "service" "http_threshold" "HTTP response slow"
        (r.name <> " (" <> r.url <> "): " <> evidence <> ".")
        (("service: " <> r.name) ∷ ("url: " <> r.url) ∷ evidence ∷ [])
        "Compare with WAN latency, DNS timing, proxy path, and upstream service performance."

  abbrev tls_threshold_verdict : ℤ → String → HttpResult F → ℤ → Verdict F
  tls_threshold_verdict now severity r threshold =
      threshold_verdict fl now severity "service" "tls_expiry_threshold"
        "TLS certificate expiry threshold"
        (r.name
          <> " certificate expires in "
          <> itoa r.tls_days_until_expiry
          <> " days, below the configured limit of "
          <> itoa threshold
          <> " days.")
        (("service: " <> r.name)
          ∷ ("url: " <> r.url)
          ∷ ("days until expiry: " <> itoa r.tls_days_until_expiry)
          ∷ ("threshold days: " <> itoa threshold)
          ∷ [])
        "Renew or replace the certificate and verify the served chain after deployment."

  -- The severity, empty where there is none yet, with the reasons.
  abbrev pub by_duration : ThresholdSet F → HttpResult F → String × List String
  by_duration set r =
      if passes fl set.http_duration_critical_ms r.duration_ms
      then (
        "critical",
        ("response took "
              <> fixed 0 r.duration_ms
              <> " ms, above the critical limit "
              <> fixed 0 set.http_duration_critical_ms
              <> " ms")
            ∷ [],
      )
      else (if passes fl set.http_duration_warning_ms r.duration_ms
          then (
            "warning",
            ("response took "
                  <> fixed 0 r.duration_ms
                  <> " ms, above the warning limit "
                  <> fixed 0 set.http_duration_warning_ms
                  <> " ms")
                ∷ [],
          )
          else ("", []))

  abbrev pub by_baseline :
      ThresholdSet F → HttpResult F → Option F → String × List String → String × List String
  by_baseline set r none reasons = reasons
  by_baseline set r (some baseline) (severity, reasons) =
      let limit = relative_limit fl baseline set.http_relative_warning_percent in
      let average =
        fixed 0 limit
        <> " ms baseline limit (average "
        <> fixed 0 baseline
        <> " ms over "
        <> itoa set.http_relative_window_days
        <> " days, "
        <> fixed 0 set.http_relative_warning_percent
        <> "% relative warning)" in
      if lt limit r.duration_ms
      then (
        if str_eq severity "" then "warning" else severity,
        reasons
            ++ (elim reasons [
              | [] ↦ "response took " <> fixed 0 r.duration_ms <> " ms, above " <> average
              | _ ↦ "also above " <> average
            ])
              ∷ [],
      )
      else (severity, reasons)

  abbrev pub slow_verdict : ℤ → HttpResult F → String × List String → List (Verdict F)
  slow_verdict now r (severity, []) = []
  slow_verdict now r (severity, reason ∷ reasons) =
      http_threshold_verdict now severity r (join (reason ∷ reasons) "; ") ∷ []

  -- `limit > 0 && days <= limit`
  abbrev expires : ℤ → ℤ → Bool
  expires limit days = ltb_ℤ (pos 0) limit && leb_ℤ days limit

  -- The part on the duration, and the part on the certificate.
  unfoldable pub slow_verdicts_of :
      ℤ → ThresholdSet F → HttpResult F → List (HttpResult F) → List (Verdict F)
  slow_verdicts_of now set r rows = slow_verdict now r (
      if lt (zero_float fl) set.http_relative_warning_percent
        && ltb_ℤ (pos 0) set.http_relative_window_days
      then by_baseline set r (http_baseline fl now r rows set.http_relative_window_days)
          (by_duration set r)
      else by_duration set r)

  unfoldable pub tls_verdicts_of : ℤ → ThresholdSet F → HttpResult F → List (Verdict F)
  tls_verdicts_of now set r =
      if r.tls_valid && ltb_ℤ (pos 0) r.tls_days_until_expiry
      then graded fl (expires set.tls_expiry_critical_days r.tls_days_until_expiry)
          (expires set.tls_expiry_warning_days r.tls_days_until_expiry)
          (tls_threshold_verdict now "critical" r set.tls_expiry_critical_days)
          (tls_threshold_verdict now "warning" r set.tls_expiry_warning_days)
      else []

  unfoldable pub http_verdicts_of :
      ℤ → ThresholdSet F → HttpResult F → List (HttpResult F) → List (Verdict F)
  http_verdicts_of now set r rows = slow_verdicts_of now set r rows ++ tls_verdicts_of now set r

  unfoldable pub threshold_http_verdicts :
      ℤ → ThresholdsConfig F → List (HttpResult F) → List (HttpResult F) → List (Verdict F)
  threshold_http_verdicts now t [] rows = []
  threshold_http_verdicts now t (r ∷ latest) rows =
      http_verdicts_of now (threshold_for fl t (r.name ∷ r.url ∷ [])) r rows
      ++ threshold_http_verdicts now t latest rows
