-- ===== src/Verdict/Bounds.antt =====
-- The bounds of the scores (agent/internal/verdict/verdict.go).
use infracheck_appliance.Base.{
  ℕ, ◌≤◌, Bool, true, ◌&&◌, Option, none, some, List, [], ◌∷◌, ◌≡◌, arith, str_eq, any, Bool-cases,
  inl, inr,
}
use infracheck_appliance.Base.Int.{ℤ, pos, negsuc}
use infracheck_appliance.Base.Float.{Floats}
use infracheck_appliance.Verdict.{PingResult, Summary, Input, summarize}
use infracheck_appliance.Verdict.Rules.{Verdict, rules}
use infracheck_appliance.Verdict.Score.{
  clamp, minimum, average, wan_score, gateway_score, dns_score, service_score, wan_bounded, score,
  evaluate,
}

clamp_le : (n : ℤ) → clamp n ≤ 100
unfolding clamp
clamp_le (pos n) = ground arith
clamp_le (negsuc n) = omega arith

module _ (fl : Floats) where
  open fl use {F}

  wan_score_le : (s : Summary F) → wan_score fl s ≤ 100
  unfolding wan_score
  wan_score_le s = grind (arith, clamp_le)

  gateway_score_le : (g : Option (PingResult F)) → gateway_score fl g ≤ 100
  unfolding gateway_score
  gateway_score_le none = omega arith
  gateway_score_le (some g) = grind (arith, clamp_le)

  dns_score_le : (s : Summary F) → dns_score fl s ≤ 100
  unfolding dns_score
  dns_score_le s = grind (arith, clamp_le)

  service_score_le : (s : Summary F) → service_score fl s ≤ 100
  unfolding service_score
  service_score_le s = grind (arith, clamp_le)

  abbrev pub is_wan_outage : Verdict F → Bool
  is_wan_outage v = str_eq v.severity "critical" && str_eq v.category "wan"

  wan_bounded_le : (vs : List (Verdict F)) (n bound : ℕ) → n ≤ bound → wan_bounded fl vs n ≤ bound
  unfolding wan_bounded minimum
  wan_bounded_le [] n bound h = h
  wan_bounded_le (v ∷ vs) n bound h = wan_bounded_le vs _ bound (ground arith)

  wan_bounded_outage :
      (vs : List (Verdict F)) (n : ℕ) → any is_wan_outage vs ≡ true → wan_bounded fl vs n ≤ 20
  unfolding wan_bounded minimum
  wan_bounded_outage [] n h = ground arith
  wan_bounded_outage (v ∷ vs) n h = elim (Bool-cases (is_wan_outage v)) [
    | inl outage ↦ rw outage (wan_bounded_le vs (minimum n 20) 20 (ground arith))
    | inr other ↦ rw other (wan_bounded_outage vs n (ground arith))
  ]

  pub average_le :
      (a b c d e : ℕ)
      → a ≤ 100
      → b ≤ 100
      → c ≤ 100
      → d ≤ 100
      → e ≤ 100
      → average (a ∷ b ∷ c ∷ d ∷ e ∷ []) ≤ 100
  unfolding average
  average_le a b c d e p q r s t = omega arith

  -- The overall score and each of the five scores are at most 100, whatever the floats answer.
  pub evaluate_le :
      (clock : ℤ) (input : Input F)
      → ((evaluate fl clock input).overall_health_score ≤ 100)
        × ((evaluate fl clock input).wan_score ≤ 100)
        × ((evaluate fl clock input).dns_score ≤ 100)
        × ((evaluate fl clock input).gateway_lan_score ≤ 100)
        × ((evaluate fl clock input).service_availability ≤ 100)
        × ((evaluate fl clock input).device_inventory_score ≤ 100)
  unfolding evaluate score
  evaluate_le clock input =
      let s = summarize fl input in
      let wan = wan_bounded_le (rules fl _ s) (wan_score fl s) 100 (wan_score_le s) in
      let dns = dns_score_le s in
      let gateway = gateway_score_le s.gateway in
      let service = service_score_le s in
      (
        average_le _ _ _ _ _ wan dns gateway service (omega arith),
        wan,
        dns,
        gateway,
        service,
        omega arith,
      )

  -- A critical verdict on the WAN keeps the WAN's score at 20 or less.
  pub evaluate_outage :
      (clock : ℤ) (input : Input F)
      → any is_wan_outage (evaluate fl clock input).verdicts ≡ true
      → (evaluate fl clock input).wan_score ≤ 20
  unfolding evaluate score
  evaluate_outage clock input outage = wan_bounded_outage _ _ outage
