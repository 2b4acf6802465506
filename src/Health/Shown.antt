-- ===== src/Health/Shown.antt =====
-- What the agent shows of its health, whatever the queries answer (agent/internal/agent/agent.go).
use infracheck_appliance.Base.{
  ℕ, ◌≤◌, String, ◌&&◌, not, some, List, [], ◌∷◌, ◌≡◌, refl, sym, ap, ◌∙◌, arith, either, str_eq,
  Bool-cases, inl, inr,
}
use infracheck_appliance.Base.Int.{ℤ}
use infracheck_appliance.Base.Float.{Floats}
use infracheck_appliance.Base.Result.{Result, ok, err, and_then-ok, ok-injective}
use infracheck_appliance.Config.{ThresholdsConfig, TargetsConfig}
use infracheck_appliance.Devices.{Device}
use infracheck_appliance.Verdict.{Input, is_empty}
use infracheck_appliance.Verdict.Rules.{Verdict}
use infracheck_appliance.Verdict.Score.{Health, evaluate, minimum}
use infracheck_appliance.Verdict.Status.{worst}
use infracheck_appliance.Verdict.Bounds.{average_le, evaluate_le}
use infracheck_appliance.Health.Advanced.{
  AdvancedResult, advanced_verdicts, active_advanced_checks, latest_advanced_per_target,
}
use infracheck_appliance.Health.Worst.{overlaid-worst}
use infracheck_appliance.Health.Overlay.{
  Queries, with_devices, apply_device_inventory_health, with_threshold_verdicts,
  threshold_additions, apply_threshold_health, raise_status, raise_both, with_advanced_verdicts,
  apply_advanced_health, overlaid, evaluate_health, capped, at_most,
}

minimum_le : (a b : ℕ) → minimum a b ≤ a
unfolding minimum
minimum_le a b = ground arith

le_then : {a b c : ℕ} → a ≤ b → b ≤ c → a ≤ c
le_then h k = omega (arith, h, k)

module _ (fl : Floats) where
  open fl use {F}

  pub record IsBounded (h : Health F) : Type 0 where
    pub overall : h.overall_health_score ≤ 100
    pub wan : h.wan_score ≤ 100
    pub dns : h.dns_score ≤ 100
    pub gateway : h.gateway_lan_score ≤ 100
    pub service : h.service_availability ≤ 100
    pub inventory : h.device_inventory_score ≤ 100

  at_most_le :
      (new missing : List Device) (n : ℕ)
      → n ≤ 100
      → at_most fl (not (is_empty missing)) 70 (at_most fl (not (is_empty new)) 90 n) ≤ 100
  at_most_le new missing n h = ground (arith, h)

  with_devices-IsBounded :
      (new missing : List Device) (h : Health F)
      → IsBounded h
      → IsBounded (with_devices fl new missing h)
  with_devices-IsBounded new missing h b =
      let inventory = at_most_le new missing h.device_inventory_score b.inventory in
      record {
        overall = average_le fl _ _ _ _ _ b.wan b.dns b.gateway b.service inventory;
        wan = b.wan;
        dns = b.dns;
        gateway = b.gateway;
        service = b.service;
        inventory = inventory;
      }

  lowered :
      (h : Health F) (g : Health F)
      → IsBounded h
      → g.wan_score ≡ h.wan_score
      → g.dns_score ≡ h.dns_score
      → g.gateway_lan_score ≡ h.gateway_lan_score
      → g.service_availability ≡ h.service_availability
      → g.device_inventory_score ≡ h.device_inventory_score
      → g.overall_health_score ≤ h.overall_health_score
      → IsBounded g
  lowered h g b p q r s t le = record {
    overall = omega (arith, b.overall, le);
    wan = omega (arith, b.wan, p);
    dns = omega (arith, b.dns, q);
    gateway = omega (arith, b.gateway, r);
    service = omega (arith, b.service, s);
    inventory = omega (arith, b.inventory, t);
  }

  capped_le : (status : String) (n : ℕ) → capped fl status n ≤ n
  unfolding minimum
  capped_le status n = ground arith

  raise_both_le :
      (state : String × ℕ) (vs : List (Verdict F)) → (raise_both fl state vs).1 ≤ state.1
  unfolding raise_both minimum
  raise_both_le (status, n) [] = omega arith
  raise_both_le (status, n) (v ∷ vs) = elim (Bool-cases (str_eq v.severity "critical")) [
    | inl critical ↦ rw critical (ground arith)
    | inr milder ↦
        rw milder (elim (Bool-cases (str_eq v.severity "warning" && str_eq status "healthy")) [
          | inl warning ↦
              rw warning (le_then (raise_both_le ("warning", minimum n 80) vs) (minimum_le n 80))
          | inr other ↦ rw other (raise_both_le (status, n) vs)
        ])
  ]

  -- The health that is shown is the verdict engine's on some input, with the additions.
  pub evaluate_health-from :
      (now : ℤ) (t : ThresholdsConfig F) (targets : TargetsConfig) (q : Queries F) (h : Health F)
      → evaluate_health fl now t targets q ≡ ok h
      → (input : Input F) × (overlaid fl now t targets q (evaluate fl now input) ≡ h)
  unfolding evaluate_health
  evaluate_health-from now t targets q h shown =
      let (gateway, h1) = and_then-ok q.gateway _ h shown in
      let (internet, h2) = and_then-ok q.internet _ h h1 in
      let (dns, h3) = and_then-ok q.recent_dns _ h h2 in
      let (http, h4) = and_then-ok q.recent_http _ h h3 in
      (
        record { gateway = gateway; internet = internet; dns = dns; http = http; now = some now },
        ok-injective _ h h4,
      )

  -- Whatever the queries answer, where the evaluation answers a health, its status is "critical" if
  -- some verdict that is shown is critical, or else "warning" if some is a warning, or else "healthy".
  pub evaluate_health-worst :
      (now : ℤ) (t : ThresholdsConfig F) (targets : TargetsConfig) (q : Queries F) (h : Health F)
      → evaluate_health fl now t targets q ≡ ok h
      → h.status ≡ worst fl "healthy" h.verdicts
  evaluate_health-worst now t targets q h shown =
      let (input, same) = evaluate_health-from now t targets q h shown in
      ap (λ (g : Health F). g.status) (sym same)
      ∙ overlaid-worst fl now t targets q now input
      ∙ ap (λ (g : Health F). worst fl "healthy" g.verdicts) same

  apply_device_inventory_health-IsBounded :
      (new missing : Result (List Device)) (h : Health F)
      → IsBounded h
      → IsBounded (apply_device_inventory_health fl new missing h)
  unfolding apply_device_inventory_health
  apply_device_inventory_health-IsBounded (err e) missing h b = b
  apply_device_inventory_health-IsBounded (ok new) (err e) h b = b
  apply_device_inventory_health-IsBounded (ok new) (ok missing) h b =
      either IsBounded (is_empty new && is_empty missing) h (with_devices fl new missing h) b
        (with_devices-IsBounded new missing h b)

  apply_threshold_health-IsBounded :
      (now : ℤ) (t : ThresholdsConfig F) (q : Queries F) (h : Health F)
      → IsBounded h
      → IsBounded (apply_threshold_health fl now t q h)
  unfolding apply_threshold_health
  apply_threshold_health-IsBounded now t q h b =
      let additions = threshold_additions fl now t q in
      let raised_health = with_threshold_verdicts fl additions h in
      either IsBounded (is_empty additions) h raised_health b (
        lowered h raised_health b refl refl refl refl refl
          (capped_le (raise_status fl h.status additions) h.overall_health_score))

  apply_advanced_health-IsBounded :
      (now : ℤ) (targets : TargetsConfig) (found : Result (List (AdvancedResult F))) (h : Health F)
      → IsBounded h
      → IsBounded (apply_advanced_health fl now targets found h)
  unfolding apply_advanced_health
  apply_advanced_health-IsBounded now targets (err e) h b = b
  apply_advanced_health-IsBounded now targets (ok rows) h b =
      let additions =
        advanced_verdicts fl now (active_advanced_checks targets)
          (latest_advanced_per_target rows) in
      let raised_health = with_advanced_verdicts fl additions h in
      either IsBounded (is_empty additions) h raised_health b (
        lowered h raised_health b refl refl refl refl refl
          (raise_both_le (h.status, h.overall_health_score) additions))

  evaluate-IsBounded : (clock : ℤ) (input : Input F) → IsBounded (evaluate fl clock input)
  evaluate-IsBounded clock input =
      let b = evaluate_le fl clock input in
      record { overall = b.0; wan = b.1; dns = b.2; gateway = b.3; service = b.4; inventory = b.5 }

  -- Whatever the queries answer, where the evaluation answers a health, its overall score and each of
  -- the five scores are at most 100.
  pub evaluate_health-IsBounded :
      (now : ℤ) (t : ThresholdsConfig F) (targets : TargetsConfig) (q : Queries F) (h : Health F)
      → evaluate_health fl now t targets q ≡ ok h
      → IsBounded h
  evaluate_health-IsBounded now t targets q h shown =
      let (input, same) = evaluate_health-from now t targets q h shown in
      let e = evaluate fl now input in
      let d = apply_device_inventory_health fl q.new_devices q.missing_devices e in
      let b =
        apply_advanced_health-IsBounded now targets q.latest_advanced
          (apply_threshold_health fl now t q d)
          (apply_threshold_health-IsBounded now t q d (
            apply_device_inventory_health-IsBounded q.new_devices q.missing_devices e
              (evaluate-IsBounded now input))) in
      lowered _ h b (ap (λ (g : Health F). g.wan_score) (sym same))
        (ap (λ (g : Health F). g.dns_score) (sym same))
        (ap (λ (g : Health F). g.gateway_lan_score) (sym same))
        (ap (λ (g : Health F). g.service_availability) (sym same))
        (ap (λ (g : Health F). g.device_inventory_score) (sym same))
        (omega (arith, ap (λ (g : Health F). g.overall_health_score) same))
