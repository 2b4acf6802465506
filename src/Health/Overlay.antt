-- ===== src/Health/Overlay.antt =====
-- What the agent adds to the health of the verdict engine (agent/internal/agent/agent.go,
-- agent/internal/agent/thresholds.go and agent/internal/agent/advanced_health.go). A query of the
-- database comes as what it answers.
use infracheck_appliance.Base.{
  ℕ, String, Bool, ◌&&◌, not, some, List, [], ◌∷◌, ◌++◌, keep, if◌then◌else◌, str_eq, ltb,
}
use infracheck_appliance.Base.Int.{ℤ}
use infracheck_appliance.Base.Float.{Floats}
use infracheck_appliance.Base.Result.{Result, ok, err, and_then}
use infracheck_appliance.Config.{ThresholdsConfig, TargetsConfig}
use infracheck_appliance.Devices.{Device}
use infracheck_appliance.Verdict.{PingResult, DnsResult, HttpResult, is_empty}
use infracheck_appliance.Verdict.Rules.{Verdict}
use infracheck_appliance.Verdict.Score.{Health, evaluate, minimum, average, recommendations_of}
use infracheck_appliance.Health.Sets.{
  latest_ping_per_target, latest_dns_per_target, latest_http_of_target,
}
use infracheck_appliance.Health.Limits.{threshold_ping_verdicts, threshold_dns_verdicts}
use infracheck_appliance.Health.ServiceLimits.{threshold_http_verdicts}
use infracheck_appliance.Health.Advanced.{
  AdvancedResult, latest_advanced_per_target, active_advanced_checks, advanced_verdicts,
}
use infracheck_appliance.Health.Inventory.{new_device_verdict, missing_device_verdict}

-- What the queries of one evaluation answer, in the order in which they are made.
pub record Queries (F : Type 0) : Type 0 where
  pub gateway : Result (List (PingResult F))
  pub internet : Result (List (PingResult F))
  pub recent_dns : Result (List (DnsResult F))
  pub recent_http : Result (List (HttpResult F))
  pub new_devices : Result (List Device)
  pub missing_devices : Result (List Device)
  pub latest_ping : Result (List (PingResult F))
  pub all_dns : Result (List (DnsResult F))
  pub all_http : Result (List (HttpResult F))
  pub latest_advanced : Result (List (AdvancedResult F))

module _ {F : Type 0} where
  unfoldable pub remove_healthy_verdict : List (Verdict F) → List (Verdict F)
  remove_healthy_verdict = keep (λ v. not (str_eq v.code "healthy"))

module _ (fl : Floats) where
  open fl use {F}

  abbrev pub extended : List (Verdict F) → Health F → List (Verdict F)
  extended additions h = remove_healthy_verdict h.verdicts ++ additions

  abbrev pub device_verdicts : ℤ → List Device → List Device → List (Verdict F)
  device_verdicts now new missing =
      (if is_empty new then [] else new_device_verdict fl now new ∷ [])
      ++ (if is_empty missing then [] else missing_device_verdict fl now missing ∷ [])

  abbrev pub at_most : Bool → ℕ → ℕ → ℕ
  at_most b bound score = if b && ltb bound score then bound else score

  abbrev pub with_devices : List Device → List Device → Health F → Health F
  with_devices new missing h =
      let inventory =
        at_most (not (is_empty missing)) 70
          (at_most (not (is_empty new)) 90 h.device_inventory_score) in
      let verdicts = extended (device_verdicts h.timestamp new missing) h in
      record h {
        verdicts = verdicts;
        device_inventory_score = inventory;
        status =
            if not (is_empty missing) && str_eq h.status "healthy" then "warning" else h.status;
        recommendations = recommendations_of fl verdicts;
        overall_health_score = average (
            h.wan_score ∷ h.dns_score ∷ h.gateway_lan_score ∷ h.service_availability ∷ inventory
            ∷ []);
      }

  unfoldable pub apply_device_inventory_health :
      Result (List Device) → Result (List Device) → Health F → Health F
  apply_device_inventory_health (err e) missing h = h
  apply_device_inventory_health (ok new) (err e) h = h
  apply_device_inventory_health (ok new) (ok missing) h =
      if is_empty new && is_empty missing then h else with_devices new missing h

  -- The loop over the additions that raises the status, up to a critical one.
  unfoldable pub raise_status : String → List (Verdict F) → String
  raise_status status [] = status
  raise_status status (v ∷ vs) =
      if str_eq v.severity "critical"
      then "critical"
      else raise_status
          (if str_eq v.severity "warning" && str_eq status "healthy" then "warning" else status) vs

  abbrev pub capped : String → ℕ → ℕ
  capped status score =
      if str_eq status "critical"
      then minimum score 60
      else (if str_eq status "warning" then minimum score 80 else score)

  abbrev pub with_threshold_verdicts : List (Verdict F) → Health F → Health F
  with_threshold_verdicts additions h =
      let status = raise_status h.status additions in
      record h {
        verdicts = extended additions h;
        status = status;
        overall_health_score = capped status h.overall_health_score;
        recommendations = recommendations_of fl (extended additions h);
      }

  abbrev pub answered {ℓ} : {A : Type ℓ} → (A → List (Verdict F)) → Result A → List (Verdict F)
  answered f (ok rows) = f rows
  answered f (err e) = []

  abbrev pub threshold_additions : ℤ → ThresholdsConfig F → Queries F → List (Verdict F)
  threshold_additions now t q =
      answered (λ rows. threshold_ping_verdicts fl now t (latest_ping_per_target rows) rows)
        q.latest_ping
      ++ answered (λ rows. threshold_dns_verdicts fl now t (latest_dns_per_target rows)) q.all_dns
      ++ answered (λ rows. threshold_http_verdicts fl now t (latest_http_of_target rows) rows)
          q.all_http

  unfoldable pub apply_threshold_health : ℤ → ThresholdsConfig F → Queries F → Health F → Health F
  apply_threshold_health now t q h =
      let additions = threshold_additions now t q in
      if is_empty additions then h else with_threshold_verdicts additions h

  -- The loop over the additions of the advanced checks: the status, with the overall score.
  unfoldable pub raise_both : String × ℕ → List (Verdict F) → String × ℕ
  raise_both state [] = state
  raise_both (status, score) (v ∷ vs) =
      if str_eq v.severity "critical"
      then ("critical", minimum score 60)
      else raise_both
          (if str_eq v.severity "warning" && str_eq status "healthy"
            then ("warning", minimum score 80)
            else (status, score))
          vs

  abbrev pub with_advanced_verdicts : List (Verdict F) → Health F → Health F
  with_advanced_verdicts additions h =
      let raised = raise_both (h.status, h.overall_health_score) additions in
      record h {
        verdicts = extended additions h;
        status = raised.0;
        overall_health_score = raised.1;
        recommendations = recommendations_of fl (extended additions h);
      }

  unfoldable pub apply_advanced_health :
      ℤ → TargetsConfig → Result (List (AdvancedResult F)) → Health F → Health F
  apply_advanced_health now targets (err e) h = h
  apply_advanced_health now targets (ok rows) h =
      let additions =
        advanced_verdicts fl now (active_advanced_checks targets)
          (latest_advanced_per_target rows) in
      if is_empty additions then h else with_advanced_verdicts additions h

  abbrev pub overlaid : ℤ → ThresholdsConfig F → TargetsConfig → Queries F → Health F → Health F
  overlaid now t targets q h = apply_advanced_health now targets q.latest_advanced (
      apply_threshold_health now t q
        (apply_device_inventory_health q.new_devices q.missing_devices h))

  -- The first of the four queries that fails ends the evaluation.
  unfoldable pub evaluate_health :
      ℤ → ThresholdsConfig F → TargetsConfig → Queries F → Result (Health F)
  evaluate_health now t targets q = and_then q.gateway (λ gateway. and_then q.internet (λ internet.
      and_then q.recent_dns (λ dns. and_then q.recent_http (λ http. ok (
        overlaid now t targets q (
          evaluate fl now (record {
            gateway = gateway;
            internet = internet;
            dns = dns;
            http = http;
            now = some now;
          })))))))
