-- ===== src/Health/Codes.antt =====
-- The codes of the verdicts (agent/internal/verdict/verdict.go and agent/internal/agent/thresholds.go).
use infracheck_appliance.Base.{
  String, Bool, false, ◌&&◌, Option, none, some, List, [], ◌∷◌, ◌++◌, ◌≡◌, refl, arith, any,
  any-append, if◌then◌else◌, str_eq,
}
use infracheck_appliance.Base.Int.{ℤ}
use infracheck_appliance.Base.Float.{Floats}
use infracheck_appliance.Base.Result.{Result, ok, err}
use infracheck_appliance.Config.{ThresholdSet, ThresholdsConfig}
use infracheck_appliance.Verdict.{
  PingResult, DnsResult, HttpResult, Summary, Input, summarize, is_empty,
}
use infracheck_appliance.Verdict.Rules.{
  Verdict, rules, problems, all_healthy, gateway_rules, internet_rules, dns_rules, service_rules,
  services_rules,
}
use infracheck_appliance.Verdict.Score.{evaluate}
use infracheck_appliance.Verdict.Status.{is_problem}
use infracheck_appliance.Health.Sets.{
  latest_ping_per_target, latest_dns_per_target, latest_http_of_target,
}
use infracheck_appliance.Health.Limits.{
  ping_verdicts_of, dns_verdicts_of, threshold_ping_verdicts, threshold_dns_verdicts,
}
use infracheck_appliance.Health.ServiceLimits.{
  http_verdicts_of, threshold_http_verdicts, slow_verdicts_of, tls_verdicts_of, slow_verdict,
}
use infracheck_appliance.Health.Overlay.{Queries, answered, threshold_additions}

module _ (fl : Floats) where
  open fl use {F}

  abbrev pub says_healthy : Verdict F → Bool
  says_healthy v = str_eq v.code "healthy"

  -- No problem has the code of the verdict that says that all is well.
  abbrev pub hides_problem : Verdict F → Bool
  hides_problem v = says_healthy v && is_problem fl v

  -- None of the verdicts says that all is well.
  pub record IsUncoded (vs : List (Verdict F)) : Type 0 where
    pub none : any says_healthy vs ≡ false

  both-false : (xs ys : List (Verdict F)) → IsUncoded xs → IsUncoded ys → IsUncoded (xs ++ ys)
  both-false xs ys h k = record {
    none = ground (arith, any-append says_healthy xs ys, h.none, k.none);
  }

  module _ (now : ℤ) (s : Summary F) where
    gateway-codes : (g : Option (PingResult F)) → IsUncoded (gateway_rules fl now s g)
    unfolding gateway_rules
    gateway-codes none = record { none = refl }
    gateway-codes (some g) = record { none = ground arith }

    service-codes : (h : HttpResult F) → IsUncoded (service_rules fl now s h)
    unfolding service_rules
    service-codes h = record { none = ground arith }

    services-codes : (hs : List (HttpResult F)) → IsUncoded (services_rules fl now s hs)
    unfolding services_rules
    services-codes [] = record { none = refl }
    services-codes (h ∷ hs) =
        both-false (service_rules fl now s h) (services_rules fl now s hs) (service-codes h)
          (services-codes hs)

    internet-codes : IsUncoded (internet_rules fl now s)
    unfolding internet_rules
    internet-codes = record { none = ground arith }

    dns-codes : IsUncoded (dns_rules fl now s)
    unfolding dns_rules
    dns-codes = record { none = ground arith }

    problems-codes : IsUncoded (problems fl now s)
    unfolding problems
    problems-codes =
        both-false _ (services_rules fl now s s.http)
          (both-false _ (dns_rules fl now s)
            (both-false (gateway_rules fl now s s.gateway) (internet_rules fl now s)
              (gateway-codes s.gateway) internet-codes)
            dns-codes)
          (services-codes s.http)

  pub coded-hidden : (vs : List (Verdict F)) → IsUncoded vs → any hides_problem vs ≡ false
  coded-hidden [] h = refl
  coded-hidden (v ∷ vs) h =
      ground (arith, h.none, coded-hidden vs (record { none = ground (arith, h.none) }))

  or_healthy-hidden :
      (v : Verdict F) (vs : List (Verdict F))
      → is_problem fl v ≡ false
      → any hides_problem vs ≡ false
      → any hides_problem (if is_empty vs then v ∷ [] else vs) ≡ false
  or_healthy-hidden v [] calm h = ground (arith, calm)
  or_healthy-hidden v (w ∷ vs) calm h = h

  pub evaluate-hidden :
      (clock : ℤ) (input : Input F) → any hides_problem (evaluate fl clock input).verdicts ≡ false
  unfolding evaluate rules all_healthy
  evaluate-hidden clock input =
      or_healthy-hidden (all_healthy fl _ (summarize fl input)) (problems fl _ (summarize fl input))
        refl
        (coded-hidden (problems fl _ (summarize fl input)) (problems-codes _ (summarize fl input)))

  ping-codes :
      (now : ℤ) (set : ThresholdSet F) (r : PingResult F) (rows : List (PingResult F))
      → IsUncoded (ping_verdicts_of fl now set r rows)
  unfolding ping_verdicts_of
  ping-codes now set r rows = record { none = ground arith }

  dns-limit-codes :
      (now : ℤ) (set : ThresholdSet F) (r : DnsResult F) → IsUncoded (dns_verdicts_of fl now set r)
  unfolding dns_verdicts_of
  dns-limit-codes now set r = record { none = ground arith }

  slow-codes :
      (now : ℤ) (r : HttpResult F) (reasons : String × List String)
      → IsUncoded (slow_verdict fl now r reasons)
  slow-codes now r (severity, []) = record { none = refl }
  slow-codes now r (severity, reason ∷ reasons) = record { none = refl }

  slow-of-codes :
      (now : ℤ) (set : ThresholdSet F) (r : HttpResult F) (rows : List (HttpResult F))
      → IsUncoded (slow_verdicts_of fl now set r rows)
  unfolding slow_verdicts_of
  slow-of-codes now set r rows = slow-codes now r (_, _)

  tls-codes :
      (now : ℤ) (set : ThresholdSet F) (r : HttpResult F) → IsUncoded (tls_verdicts_of fl now set r)
  unfolding tls_verdicts_of
  tls-codes now set r = record { none = ground arith }

  http-codes :
      (now : ℤ) (set : ThresholdSet F) (r : HttpResult F) (rows : List (HttpResult F))
      → IsUncoded (http_verdicts_of fl now set r rows)
  unfolding http_verdicts_of
  http-codes now set r rows = both-false _ _ (slow-of-codes now set r rows) (tls-codes now set r)

  all-ping-codes :
      (now : ℤ) (t : ThresholdsConfig F) (latest rows : List (PingResult F))
      → IsUncoded (threshold_ping_verdicts fl now t latest rows)
  unfolding threshold_ping_verdicts
  all-ping-codes now t [] rows = record { none = refl }
  all-ping-codes now t (r ∷ latest) rows =
      both-false _ _ (ping-codes now _ r rows) (all-ping-codes now t latest rows)

  all-dns-codes :
      (now : ℤ) (t : ThresholdsConfig F) (latest : List (DnsResult F))
      → IsUncoded (threshold_dns_verdicts fl now t latest)
  unfolding threshold_dns_verdicts
  all-dns-codes now t [] = record { none = refl }
  all-dns-codes now t (r ∷ latest) =
      both-false _ _ (dns-limit-codes now _ r) (all-dns-codes now t latest)

  all-http-codes :
      (now : ℤ) (t : ThresholdsConfig F) (latest rows : List (HttpResult F))
      → IsUncoded (threshold_http_verdicts fl now t latest rows)
  unfolding threshold_http_verdicts
  all-http-codes now t [] rows = record { none = refl }
  all-http-codes now t (r ∷ latest) rows =
      both-false _ _ (http-codes now _ r rows) (all-http-codes now t latest rows)

  answered-codes :
      {A : Type 0} (f : List A → List (Verdict F)) (found : Result (List A))
      → ((rows : List A) → IsUncoded (f rows))
      → IsUncoded (answered fl f found)
  answered-codes f (ok rows) h = h rows
  answered-codes f (err e) h = record { none = refl }

  pub threshold_additions-codes :
      (now : ℤ) (t : ThresholdsConfig F) (q : Queries F)
      → IsUncoded (threshold_additions fl now t q)
  threshold_additions-codes now t q =
      both-false _ _
        (both-false _ _
          (answered-codes _ q.latest_ping
            (λ rows. all-ping-codes now t (latest_ping_per_target rows) rows))
          (answered-codes _ q.all_dns (λ rows. all-dns-codes now t (latest_dns_per_target rows))))
        (answered-codes _ q.all_http
          (λ rows. all-http-codes now t (latest_http_of_target rows) rows))
