-- ===== src/Health/ServicesExceeded.antt =====
-- Which services pass a critical limit (agent/internal/agent/thresholds.go).
use infracheck_appliance.Base.{
  String, Bool, true, ◌&&◌, ◌||◌, Option, none, some, List, [], ◌∷◌, ◌++◌, ◌≡◌, inl, inr, refl, ap,
  ◌∙◌, arith, any, any-append, Bool-cases, either, if◌then◌else◌,
}
use infracheck_appliance.Base.Int.{ℤ, pos, ltb_ℤ}
use infracheck_appliance.Base.Float.{Floats}
use infracheck_appliance.Base.Result.{Result, ok, err}
use infracheck_appliance.Config.{ThresholdSet, ThresholdsConfig}
use infracheck_appliance.Verdict.{HttpResult}
use infracheck_appliance.Verdict.Rules.{Verdict}
use infracheck_appliance.Verdict.Status.{is_severity}
use infracheck_appliance.Health.Sets.{
  threshold_for, zero_float, latest_ping_per_target, latest_dns_per_target, latest_http_of_target,
  http_baseline,
}
use infracheck_appliance.Health.Limits.{
  relative_limit, threshold_ping_verdicts, threshold_dns_verdicts,
}
use infracheck_appliance.Health.ServiceLimits.{
  threshold_http_verdicts, http_verdicts_of, slow_verdicts_of, tls_verdicts_of, by_duration,
  by_baseline, slow_verdict,
}
use infracheck_appliance.Health.Overlay.{Queries, answered, threshold_additions}
use infracheck_appliance.Health.Exceeded.{
  reaches, ping_exceeds, dns_exceeds, http_exceeds, answers, some_exceeds, critical, pings-critical,
  dnses-critical,
}

one_of :
    (a b c x y z : Bool)
    → (a ≡ true → x ≡ true)
    → (b ≡ true → y ≡ true)
    → (c ≡ true → z ≡ true)
    → (a || b || c) ≡ true
    → (x || y || z) ≡ true
one_of a b c x y z f g k h = elim (Bool-cases a) [
  | inl one ↦ rw (f one) refl
  | inr not_first ↦ elim (Bool-cases b) [
    | inl two ↦ rw (g two) (ground arith)
    | inr none_yet ↦ rw (k (ground (arith, h, not_first, none_yet))) (ground arith)
  ]
]

module _ (fl : Floats) (t : ThresholdsConfig fl.F) (now : ℤ) where
  open fl use {F, lt, le}

  -- A critical fl t now severity with a reason.
  abbrev IsSlow : String × List String → Type 0
  IsSlow (severity, []) = ⊥
  IsSlow (severity, reason ∷ reasons) = severity ≡ "critical"

  slow-critical :
      (r : HttpResult F) (state : String × List String)
      → IsSlow state
      → critical fl t now (slow_verdict fl now r state) ≡ true
  slow-critical r (severity, []) h = absurd h
  slow-critical r (severity, reason ∷ reasons) h = rw h refl

  by_baseline-IsSlow :
      (set : ThresholdSet F) (r : HttpResult F) (baseline : Option F) (state : String × List String)
      → IsSlow state
      → IsSlow (by_baseline fl set r baseline state)
  by_baseline-IsSlow set r none state h = h
  by_baseline-IsSlow set r (some b) (severity, []) h = absurd h
  by_baseline-IsSlow set r (some b) (severity, reason ∷ reasons) h =
      elim (Bool-cases (lt (relative_limit fl b set.http_relative_warning_percent) r.duration_ms)) [
        | inl above ↦ rw (above, h) refl
        | inr below ↦ rw below h
      ]

  by_duration-IsSlow :
      (set : ThresholdSet F) (r : HttpResult F)
      → reaches fl t set.http_duration_critical_ms r.duration_ms ≡ true
      → IsSlow (by_duration fl set r)
  by_duration-IsSlow set r h = rw h refl

  slow_verdicts-critical :
      (set : ThresholdSet F) (r : HttpResult F) (rows : List (HttpResult F))
      → reaches fl t set.http_duration_critical_ms r.duration_ms ≡ true
      → critical fl t now (slow_verdicts_of fl now set r rows) ≡ true
  unfolding slow_verdicts_of
  slow_verdicts-critical set r rows h =
      let relative =
        lt (zero_float fl) set.http_relative_warning_percent
        && ltb_ℤ (pos 0) set.http_relative_window_days in
      let base = by_duration fl set r in
      let slow = by_duration-IsSlow set r h in
      let baseline = http_baseline fl now r rows set.http_relative_window_days in
      slow-critical r (if relative then by_baseline fl set r baseline base else base) (
        either IsSlow relative (by_baseline fl set r baseline base) base
          (by_baseline-IsSlow set r baseline base slow) slow)

  http-critical :
      (r : HttpResult F) (rows : List (HttpResult F))
      → http_exceeds fl t r ≡ true
      → critical fl t now
          (http_verdicts_of fl now (threshold_for fl t (r.name ∷ r.url ∷ [])) r rows)
        ≡ true
  unfolding http_verdicts_of tls_verdicts_of
  http-critical r rows h =
      let set = threshold_for fl t (r.name ∷ r.url ∷ []) in
      any-append (is_severity fl "critical") (slow_verdicts_of fl now set r rows)
        (tls_verdicts_of fl now set r)
      ∙ elim (Bool-cases (reaches fl t set.http_duration_critical_ms r.duration_ms)) [
        | inl slow ↦ rw (slow_verdicts-critical set r rows slow) refl
        | inr fast ↦ ground (arith, h, fast)
      ]

  https-critical :
      (latest rows : List (HttpResult F))
      → any (http_exceeds fl t) latest ≡ true
      → critical fl t now (threshold_http_verdicts fl now t latest rows) ≡ true
  unfolding threshold_http_verdicts
  https-critical [] rows h = h
  https-critical (r ∷ latest) rows h =
      any-append (is_severity fl "critical")
        (http_verdicts_of fl now (threshold_for fl t (r.name ∷ r.url ∷ [])) r rows)
        (threshold_http_verdicts fl now t latest rows)
      ∙ elim (Bool-cases (http_exceeds fl t r)) [
        | inl over ↦ rw (http-critical r rows over) refl
        | inr under ↦ ground (arith, https-critical latest rows (ground (arith, h, under)))
      ]

  -- What holds of the rows holds of what a query answers fl t.
  answered-critical :
      {A : Type 0} (p : List A → Bool) (f : List A → List (Verdict F))
      → ((rows : List A) → p rows ≡ true → critical fl t now (f rows) ≡ true)
      → (o : Result (List A)) → answers fl t p o ≡ true
      → critical fl t now (answered fl f o) ≡ true
  answered-critical p f each (ok rows) h = each rows h
  answered-critical p f each (err e) h = h

  -- Such a result gives a critical verdict.
  pub some_exceeds-critical :
      (q : Queries F)
      → some_exceeds fl t q ≡ true
      → any (is_severity fl "critical") (threshold_additions fl now t q) ≡ true
  some_exceeds-critical q h =
      let p =
        answered fl (λ rows. threshold_ping_verdicts fl now t (latest_ping_per_target rows) rows)
          q.latest_ping in
      let d =
        answered fl (λ rows. threshold_dns_verdicts fl now t (latest_dns_per_target rows))
          q.all_dns in
      let s =
        answered fl (λ rows. threshold_http_verdicts fl now t (latest_http_of_target rows) rows)
          q.all_http in
      let by_ping =
        answered-critical (λ rows. any (ping_exceeds fl t) (latest_ping_per_target rows)) _
          (λ rows. pings-critical fl t now (latest_ping_per_target rows) rows) q.latest_ping in
      let by_dns =
        answered-critical (λ rows. any (dns_exceeds fl t) (latest_dns_per_target rows)) _
          (λ rows. dnses-critical fl t now (latest_dns_per_target rows)) q.all_dns in
      let by_http =
        answered-critical (λ rows. any (http_exceeds fl t) (latest_http_of_target rows)) _
          (λ rows. https-critical (latest_http_of_target rows) rows) q.all_http in
      any-append (is_severity fl "critical") (p ++ d) s
      ∙ ap (λ b. b || critical fl t now s) (any-append (is_severity fl "critical") p d)
      ∙ one_of
          (answers fl t (λ rows. any (ping_exceeds fl t) (latest_ping_per_target rows))
            q.latest_ping)
          (answers fl t (λ rows. any (dns_exceeds fl t) (latest_dns_per_target rows)) q.all_dns)
          (answers fl t (λ rows. any (http_exceeds fl t) (latest_http_of_target rows)) q.all_http)
          (critical fl t now p) (critical fl t now d) (critical fl t now s) by_ping by_dns by_http h
