-- ===== src/Verdict/Status.antt =====
-- What the status says of the verdicts (agent/internal/verdict/verdict.go).
use infracheck_appliance.Base.{
  String, Bool, true, false, ◌||◌, not, Option, none, some, List, [], ◌∷◌, ◌++◌, ◌≡◌, ◌↔◌, refl,
  arith, if◌then◌else◌, str_eq, eq_iff, any, any-append, sym, ap, ◌∙◌,
}
use infracheck_appliance.Base.Int.{ℤ}
use infracheck_appliance.Base.Float.{Floats}
use infracheck_appliance.Verdict.{
  PingResult, HttpResult, Summary, Input, summarize, is_empty, head_option,
}
use infracheck_appliance.Verdict.Rules.{
  Verdict, rules, problems, all_healthy, gateway_rules, internet_rules, dns_rules, service_rules,
  services_rules,
}
use infracheck_appliance.Verdict.Score.{status_of, evaluate, gateway_score, score, now_or}

module _ (fl : Floats) where
  open fl use {F}

  abbrev pub is_severity : String → Verdict F → Bool
  is_severity s v = str_eq v.severity s

  -- The worst severity among the verdicts.
  abbrev pub worst : String → List (Verdict F) → String
  worst otherwise vs =
      if any (is_severity "critical") vs
      then "critical"
      else (if any (is_severity "warning") vs then "warning" else otherwise)

  pub status_of-worst :
      (status : String) (vs : List (Verdict F)) → status_of fl status vs ≡ worst status vs
  unfolding status_of
  status_of-worst status [] = refl
  status_of-worst status (v ∷ vs) = ground (
    arith,
    status_of-worst status vs,
    status_of-worst "warning" vs,
    eq_iff v.severity "critical",
    eq_iff v.severity "warning",
  )

  -- The status is "critical" if some verdict is critical, or else "warning" if some verdict is a
  -- warning, or else "healthy".
  pub evaluate-worst :
      (clock : ℤ) (input : Input F)
      → (evaluate fl clock input).status ≡ worst "healthy" (evaluate fl clock input).verdicts
  unfolding evaluate
  evaluate-worst clock input = status_of-worst "healthy" _

  abbrev pub is_problem : Verdict F → Bool
  is_problem v = is_severity "critical" v || is_severity "warning" v

  -- Every verdict is critical or a warning.
  abbrev all_problems : List (Verdict F) → Bool
  all_problems vs = not (any (λ v. not (is_problem v)) vs)

  abbrev no_problem : Verdict F → Bool
  no_problem v = not (is_problem v)

  none-append :
      (xs ys : List (Verdict F))
      → any no_problem xs ≡ false
      → any no_problem ys ≡ false
      → any no_problem (xs ++ ys) ≡ false
  none-append xs ys h k = ground (arith, any-append no_problem xs ys, h, k)

  module _ (now : ℤ) (s : Summary F) where
    gateway-problems :
        (g : Option (PingResult F)) → any no_problem (gateway_rules fl now s g) ≡ false
    unfolding gateway_rules
    gateway-problems none = refl
    gateway-problems (some g) = ground arith

    service-problems : (h : HttpResult F) → any no_problem (service_rules fl now s h) ≡ false
    unfolding service_rules
    service-problems h = ground arith

    services-problems :
        (hs : List (HttpResult F)) → any no_problem (services_rules fl now s hs) ≡ false
    unfolding services_rules
    services-problems [] = refl
    services-problems (h ∷ hs) = ground (
      arith,
      any-append no_problem (service_rules fl now s h) (services_rules fl now s hs),
      service-problems h,
      services-problems hs,
    )

    internet-problems : any no_problem (internet_rules fl now s) ≡ false
    unfolding internet_rules
    internet-problems = ground arith

    dns-problems : any no_problem (dns_rules fl now s) ≡ false
    unfolding dns_rules
    dns-problems = ground arith

    all-problems : any no_problem (problems fl now s) ≡ false
    unfolding problems
    all-problems =
        none-append
          (gateway_rules fl now s s.gateway ++ internet_rules fl now s ++ dns_rules fl now s)
          (services_rules fl now s s.http)
          (none-append (gateway_rules fl now s s.gateway ++ internet_rules fl now s)
            (dns_rules fl now s)
            (none-append (gateway_rules fl now s s.gateway) (internet_rules fl now s)
              (gateway-problems s.gateway) internet-problems)
            dns-problems)
          (services-problems s.http)

    gateway-critical :
        (g : PingResult F)
        → s.gateway ≡ some g
        → g.up ≡ false
        → any (is_severity "critical") (problems fl now s) ≡ true
    unfolding problems gateway_rules
    gateway-critical g is_g down = rw is_g (rw down refl)

  worst-problems :
      (vs : List (Verdict F)) → any no_problem vs ≡ false → worst "healthy" vs ≡ "healthy" → vs ≡ []
  worst-problems [] h healthy = refl
  worst-problems (v ∷ vs) h healthy =
      ground (arith, eq_iff "warning" "healthy", eq_iff "critical" "healthy")

  abbrev or_healthy : Verdict F → List (Verdict F) → List (Verdict F)
  or_healthy v vs = if is_empty vs then v ∷ [] else vs

  healthy-empty :
      (v : Verdict F) (vs : List (Verdict F))
      → is_problem v ≡ false
      → any no_problem vs ≡ false
      → (status_of fl "healthy" (or_healthy v vs) ≡ "healthy") ↔ (vs ≡ [])
  healthy-empty v [] calm h =
      ((λ healthy. refl), (λ nil. status_of-worst "healthy" (v ∷ []) ∙ ground arith))
  healthy-empty v (p ∷ vs) calm h = (
    (λ healthy. worst-problems (p ∷ vs) h (sym (status_of-worst "healthy" (p ∷ vs)) ∙ healthy)),
    (λ nil. ground arith),
  )

  critical-status :
      (v : Verdict F) (vs : List (Verdict F))
      → any (is_severity "critical") vs ≡ true
      → status_of fl "healthy" (or_healthy v vs) ≡ "critical"
  critical-status v [] h = ground arith
  critical-status v (p ∷ vs) h = status_of-worst "healthy" (p ∷ vs) ∙ ground arith

  -- The status is "healthy" exactly if no rule finds a problem.
  pub evaluate-healthy :
      (clock : ℤ) (input : Input F)
      → ((evaluate fl clock input).status ≡ "healthy")
        ↔ (problems fl (evaluate fl clock input).timestamp (summarize fl input) ≡ [])
  unfolding evaluate rules all_healthy
  evaluate-healthy clock input =
      healthy-empty (all_healthy fl (now_or fl clock input.now) (summarize fl input))
        (problems fl (now_or fl clock input.now) (summarize fl input)) refl
        (all-problems (now_or fl clock input.now) (summarize fl input))

  -- If the latest sample of the gateway says that it is down, the status is "critical" and the
  -- gateway's score is 0.
  pub evaluate-gateway_down :
      (clock : ℤ) (input : Input F) (g : PingResult F) (older : List (PingResult F))
      → input.gateway ≡ g ∷ older
      → g.up ≡ false
      → ((evaluate fl clock input).status ≡ "critical")
        × ((evaluate fl clock input).gateway_lan_score ≡ 0)
  unfolding evaluate rules score gateway_score summarize
  evaluate-gateway_down clock input g older latest down = (
    critical-status (all_healthy fl (now_or fl clock input.now) (summarize fl input))
        (problems fl (now_or fl clock input.now) (summarize fl input))
        (gateway-critical (now_or fl clock input.now) (summarize fl input) g (ap head_option latest)
          down),
    ap (λ gs. gateway_score fl (head_option gs)) latest ∙ rw down refl,
  )
