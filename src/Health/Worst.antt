-- ===== src/Health/Worst.antt =====
-- The status and the scores of the health that the agent shows (agent/internal/agent/agent.go,
-- agent/internal/agent/thresholds.go and agent/internal/agent/advanced_health.go).
use infracheck_appliance.Base.{
  ℕ, String, Bool, true, false, ◌&&◌, ◌||◌, not, List, [], ◌∷◌, ◌++◌, ◌≡◌, refl, sym, ◌∙◌, ap,
  arith, any, any-append, either, if◌then◌else◌, str_eq, eq_iff, Bool-cases, inl, inr,
}
use infracheck_appliance.Base.Int.{ℤ}
use infracheck_appliance.Base.Float.{Floats}
use infracheck_appliance.Base.Result.{Result, ok, err}
use infracheck_appliance.Config.{ThresholdsConfig, TargetsConfig}
use infracheck_appliance.Devices.{Device}
use infracheck_appliance.Verdict.{Input, is_empty}
use infracheck_appliance.Verdict.Rules.{Verdict}
use infracheck_appliance.Verdict.Score.{Health, evaluate, minimum}
use infracheck_appliance.Verdict.Status.{worst, is_severity, evaluate-worst}
use infracheck_appliance.Health.Inventory.{new_device_verdict, missing_device_verdict}
use infracheck_appliance.Health.Advanced.{
  AdvancedResult, advanced_verdicts, active_advanced_checks, latest_advanced_per_target,
}
use infracheck_appliance.Health.Codes.{
  hides_problem, coded-hidden, evaluate-hidden, threshold_additions-codes,
}
use infracheck_appliance.Health.Overlay.{
  Queries, remove_healthy_verdict, with_devices, device_verdicts, apply_device_inventory_health,
  raise_status, extended, with_threshold_verdicts, threshold_additions, apply_threshold_health,
  raise_both, with_advanced_verdicts, apply_advanced_health, overlaid,
}

abbrev worse : Bool → Bool → String → String
worse critical warning otherwise =
    if critical then "critical" else (if warning then "warning" else otherwise)

worst_twice :
    (a b c d : Bool)
    → worse c (d && str_eq (worse a b "healthy") "healthy") (worse a b "healthy")
      ≡ worse (a || c) (b || d) "healthy"
worst_twice true b true d = refl
worst_twice true b false true = refl
worst_twice true b false false = refl
worst_twice false b true d = refl
worst_twice false true false true = refl
worst_twice false true false false = refl
worst_twice false false false true = refl
worst_twice false false false false = refl

module _ (fl : Floats) where
  open fl use {F}

  -- The status is the worst severity, and no problem hides behind the verdict that all is well.
  pub record IsWorst (h : Health F) : Type 0 where
    pub status : h.status ≡ worst fl "healthy" h.verdicts
    pub shown : any (hides_problem fl) h.verdicts ≡ false

  remove-severity :
      (s : String) (vs : List (Verdict F))
      → (str_eq s "critical" || str_eq s "warning") ≡ true
      → any (hides_problem fl) vs ≡ false
      → any (is_severity fl s) (remove_healthy_verdict vs) ≡ any (is_severity fl s) vs
  unfolding remove_healthy_verdict
  remove-severity s [] bad h = refl
  remove-severity s (v ∷ vs) bad h = ground (
    arith,
    bad,
    h,
    remove-severity s vs bad,
    eq_iff v.severity s,
    eq_iff s "critical",
    eq_iff s "warning",
    eq_iff v.severity "critical",
    eq_iff v.severity "warning",
  )

  remove-hidden :
      (vs : List (Verdict F))
      → any (hides_problem fl) vs ≡ false
      → any (hides_problem fl) (remove_healthy_verdict vs) ≡ false
  unfolding remove_healthy_verdict
  remove-hidden [] h = refl
  remove-hidden (v ∷ vs) h = ground (arith, h, remove-hidden vs)

  remove-worst :
      (vs additions : List (Verdict F))
      → any (hides_problem fl) vs ≡ false
      → worst fl "healthy" (remove_healthy_verdict vs ++ additions)
        ≡ worst fl "healthy" (vs ++ additions)
  remove-worst vs additions h = ground (
    arith,
    any-append (is_severity fl "critical") (remove_healthy_verdict vs) additions,
    any-append (is_severity fl "warning") (remove_healthy_verdict vs) additions,
    any-append (is_severity fl "critical") vs additions,
    any-append (is_severity fl "warning") vs additions,
    remove-severity "critical" vs refl h,
    remove-severity "warning" vs refl h,
  )

  abbrev pub raised : String → List (Verdict F) → String
  raised status vs =
      if any (is_severity fl "critical") vs
      then "critical"
      else (if any (is_severity fl "warning") vs && str_eq status "healthy"
          then "warning"
          else status)

  pub raise_status-raised :
      (status : String) (vs : List (Verdict F)) → raise_status fl status vs ≡ raised status vs
  unfolding raise_status
  raise_status-raised status [] = refl
  raise_status-raised status (v ∷ vs) = ground (
    arith,
    raise_status-raised status vs,
    raise_status-raised "warning" vs,
    eq_iff v.severity "critical",
    eq_iff v.severity "warning",
  )

  raise_both-status :
      (state : String × ℕ) (vs : List (Verdict F))
      → (raise_both fl state vs).0 ≡ raise_status fl state.0 vs
  unfolding raise_both raise_status
  raise_both-status (status, score) [] = refl
  raise_both-status (status, score) (v ∷ vs) = elim (Bool-cases (str_eq v.severity "critical")) [
    | inl critical ↦ rw critical refl
    | inr milder ↦
        rw milder (elim (Bool-cases (str_eq v.severity "warning" && str_eq status "healthy")) [
          | inl warning ↦ rw warning (raise_both-status ("warning", minimum score 80) vs)
          | inr other ↦ rw other (raise_both-status (status, score) vs)
        ])
  ]

  raised-worst :
      (vs additions : List (Verdict F))
      → raised (worst fl "healthy" vs) additions ≡ worst fl "healthy" (vs ++ additions)
  raised-worst vs additions =
      worst_twice (any (is_severity fl "critical") vs) (any (is_severity fl "warning") vs)
        (any (is_severity fl "critical") additions) (any (is_severity fl "warning") additions)
      ∙ rw
          (
            any-append (is_severity fl "critical") vs additions,
            any-append (is_severity fl "warning") vs additions,
          )
          refl

  extended-worst :
      (h : Health F) (additions : List (Verdict F))
      → IsWorst h
      → raise_status fl h.status additions ≡ worst fl "healthy" (extended fl additions h)
  extended-worst h additions w =
      raise_status-raised h.status additions
      ∙ ap (λ s. raised s additions) w.status
      ∙ raised-worst h.verdicts additions
      ∙ sym (remove-worst h.verdicts additions w.shown)

  device-raised :
      (now : ℤ) (status : String) (new missing : List Device)
      → raise_status fl status (device_verdicts fl now new missing)
        ≡ (if not (is_empty missing) && str_eq status "healthy" then "warning" else status)
  unfolding raise_status new_device_verdict missing_device_verdict
  device-raised now status [] [] = refl
  device-raised now status [] (d ∷ missing) = refl
  device-raised now status (d ∷ new) [] = refl
  device-raised now status (d ∷ new) (e ∷ missing) = refl

  device-hidden :
      (now : ℤ) (new missing : List Device)
      → any (hides_problem fl) (device_verdicts fl now new missing) ≡ false
  unfolding new_device_verdict missing_device_verdict
  device-hidden now [] [] = refl
  device-hidden now [] (d ∷ missing) = refl
  device-hidden now (d ∷ new) [] = refl
  device-hidden now (d ∷ new) (e ∷ missing) = refl

  extended-shown :
      (h : Health F) (additions : List (Verdict F))
      → any (hides_problem fl) h.verdicts ≡ false
      → any (hides_problem fl) additions ≡ false
      → any (hides_problem fl) (extended fl additions h) ≡ false
  extended-shown h additions shown calm = ground (
    arith,
    any-append (hides_problem fl) (remove_healthy_verdict h.verdicts) additions,
    remove-hidden h.verdicts shown,
    calm,
  )

  with_devices-IsWorst :
      (new missing : List Device) (h : Health F)
      → IsWorst h
      → IsWorst (with_devices fl new missing h)
  with_devices-IsWorst new missing h w =
      let additions = device_verdicts fl h.timestamp new missing in
      record {
        status =
            sym (device-raised h.timestamp h.status new missing) ∙ extended-worst h additions w;
        shown = extended-shown h additions w.shown (device-hidden h.timestamp new missing);
      }

  apply_device_inventory_health-IsWorst :
      (new missing : Result (List Device)) (h : Health F)
      → IsWorst h
      → IsWorst (apply_device_inventory_health fl new missing h)
  unfolding apply_device_inventory_health
  apply_device_inventory_health-IsWorst (err e) missing h w = w
  apply_device_inventory_health-IsWorst (ok new) (err e) h w = w
  apply_device_inventory_health-IsWorst (ok new) (ok missing) h w =
      either IsWorst (is_empty new && is_empty missing) h _ w (with_devices-IsWorst new missing h w)

  apply_threshold_health-IsWorst :
      (now : ℤ) (t : ThresholdsConfig F) (q : Queries F) (h : Health F)
      → IsWorst h
      → IsWorst (apply_threshold_health fl now t q h)
  unfolding apply_threshold_health
  apply_threshold_health-IsWorst now t q h w =
      let additions = threshold_additions fl now t q in
      either IsWorst (is_empty additions) h (with_threshold_verdicts fl additions h) w (record {
        status = extended-worst h additions w;
        shown =
            extended-shown h additions w.shown
              (coded-hidden fl additions (threshold_additions-codes fl now t q));
      })

  apply_advanced_health-worst :
      (now : ℤ) (targets : TargetsConfig) (found : Result (List (AdvancedResult F))) (h : Health F)
      → IsWorst h
      → (apply_advanced_health fl now targets found h).status
        ≡ worst fl "healthy" (apply_advanced_health fl now targets found h).verdicts
  unfolding apply_advanced_health
  apply_advanced_health-worst now targets (err e) h w = w.status
  apply_advanced_health-worst now targets (ok rows) h w =
      let additions =
        advanced_verdicts fl now (active_advanced_checks targets)
          (latest_advanced_per_target rows) in
      either (λ (g : Health F). g.status ≡ worst fl "healthy" g.verdicts) (is_empty additions) h
        (with_advanced_verdicts fl additions h) w.status
        (raise_both-status (h.status, h.overall_health_score) additions
          ∙ extended-worst h additions w)

  pub overlaid-worst :
      (now : ℤ) (t : ThresholdsConfig F) (targets : TargetsConfig) (q : Queries F) (clock : ℤ)
      (input : Input F)
      → (overlaid fl now t targets q (evaluate fl clock input)).status
        ≡ worst fl "healthy" (overlaid fl now t targets q (evaluate fl clock input)).verdicts
  overlaid-worst now t targets q clock input =
      apply_advanced_health-worst now targets q.latest_advanced _ (
        apply_threshold_health-IsWorst now t q _ (
          apply_device_inventory_health-IsWorst q.new_devices q.missing_devices _ (record {
            status = evaluate-worst fl clock input;
            shown = evaluate-hidden fl clock input;
          })))
