-- ===== src/Health/Exceeded.antt =====
-- Which results pass a critical limit (agent/internal/agent/thresholds.go).
use infracheck_appliance.Base.{
  Bool, true, false, ◌&&◌, ◌||◌, not, List, [], ◌∷◌, ◌≡◌, inl, inr, refl, ◌∙◌, arith, any,
  any-append, Bool-cases,
}
use infracheck_appliance.Base.Int.{ℤ, pos, ltb_ℤ, leb_ℤ}
use infracheck_appliance.Base.Float.{Floats}
use infracheck_appliance.Base.Result.{Result, ok, err}
use infracheck_appliance.Config.{ThresholdsConfig}
use infracheck_appliance.Verdict.{PingResult, DnsResult, HttpResult, dns_key}
use infracheck_appliance.Verdict.Rules.{Verdict}
use infracheck_appliance.Verdict.Status.{is_severity}
use infracheck_appliance.Health.Sets.{
  threshold_for, zero_float, latest_ping_per_target, latest_dns_per_target, latest_http_of_target,
}
use infracheck_appliance.Health.Limits.{
  threshold_ping_verdicts, ping_verdicts_of, threshold_dns_verdicts, dns_verdicts_of,
}
use infracheck_appliance.Health.Overlay.{Queries}

module _ (fl : Floats) (t : ThresholdsConfig fl.F) where
  open fl use {F, lt, le}

  -- The limit is set, and the value is at least the limit.
  abbrev pub reaches : F → F → Bool
  reaches limit value = lt (zero_float fl) limit && le limit value

  -- The target is down, or its packet loss or its latency reaches the critical limit of its thresholds.
  abbrev pub ping_exceeds : PingResult F → Bool
  ping_exceeds r =
      let set = threshold_for fl t (r.target_name ∷ r.target_host ∷ []) in
      not r.up
      || reaches set.packet_loss_critical_percent r.loss_percent
      || reaches set.latency_critical_ms r.latency_ms

  -- The look-up succeeded, and its duration reaches the critical limit.
  abbrev pub dns_exceeds : DnsResult F → Bool
  dns_exceeds r =
      let set =
        threshold_for fl t (dns_key r ∷ r.resolver_name ∷ r.resolver_address ∷ r.domain ∷ []) in
      r.success && reaches set.dns_duration_critical_ms r.duration_ms

  -- The duration reaches the critical limit, or the certificate is valid and expires in some days, but no
  -- more than its critical limit.
  abbrev pub http_exceeds : HttpResult F → Bool
  http_exceeds r =
      let set = threshold_for fl t (r.name ∷ r.url ∷ []) in
      reaches set.http_duration_critical_ms r.duration_ms
      || (r.tls_valid
          && ltb_ℤ (pos 0) r.tls_days_until_expiry
          && ltb_ℤ (pos 0) set.tls_expiry_critical_days
          && leb_ℤ r.tls_days_until_expiry set.tls_expiry_critical_days)

  abbrev pub answers {ℓ} : {A : Type ℓ} → (A → Bool) → Result A → Bool
  answers p (ok rows) = p rows
  answers p (err e) = false

  -- Some latest result of a target does.
  abbrev pub some_exceeds : Queries F → Bool
  some_exceeds q =
      answers (λ rows. any ping_exceeds (latest_ping_per_target rows)) q.latest_ping
      || answers (λ rows. any dns_exceeds (latest_dns_per_target rows)) q.all_dns
      || answers (λ rows. any http_exceeds (latest_http_of_target rows)) q.all_http

  module _ (now : ℤ) where
    abbrev pub critical : List (Verdict F) → Bool
    critical = any (is_severity fl "critical")

    ping-critical :
        (r : PingResult F) (rows : List (PingResult F))
        → ping_exceeds r ≡ true
        → critical (
            ping_verdicts_of fl now
              (threshold_for fl t (r.target_name ∷ r.target_host ∷ []))
              r
              rows)
          ≡ true
    unfolding ping_verdicts_of
    ping-critical r rows h = ground (arith, h)

    pub pings-critical :
        (latest rows : List (PingResult F))
        → any ping_exceeds latest ≡ true
        → critical (threshold_ping_verdicts fl now t latest rows) ≡ true
    unfolding threshold_ping_verdicts
    pings-critical [] rows h = h
    pings-critical (r ∷ latest) rows h =
        any-append (is_severity fl "critical")
          (ping_verdicts_of fl now (threshold_for fl t (r.target_name ∷ r.target_host ∷ [])) r rows)
          (threshold_ping_verdicts fl now t latest rows)
        ∙ elim (Bool-cases (ping_exceeds r)) [
          | inl over ↦ rw (ping-critical r rows over) refl
          | inr under ↦ ground (arith, pings-critical latest rows (ground (arith, h, under)))
        ]

    dns-critical :
        (r : DnsResult F)
        → dns_exceeds r ≡ true
        → critical (
            dns_verdicts_of fl now
              (threshold_for fl t
                (dns_key r ∷ r.resolver_name ∷ r.resolver_address ∷ r.domain ∷ []))
              r)
          ≡ true
    unfolding dns_verdicts_of
    dns-critical r h = ground (arith, h)

    pub dnses-critical :
        (latest : List (DnsResult F))
        → any dns_exceeds latest ≡ true
        → critical (threshold_dns_verdicts fl now t latest) ≡ true
    unfolding threshold_dns_verdicts
    dnses-critical [] h = h
    dnses-critical (r ∷ latest) h =
        any-append (is_severity fl "critical")
          (dns_verdicts_of fl now
            (threshold_for fl t (dns_key r ∷ r.resolver_name ∷ r.resolver_address ∷ r.domain ∷ []))
            r)
          (threshold_dns_verdicts fl now t latest)
        ∙ elim (Bool-cases (dns_exceeds r)) [
          | inl over ↦ rw (dns-critical r over) refl
          | inr under ↦ ground (arith, dnses-critical latest (ground (arith, h, under)))
        ]
