-- ===== src/Current.antt =====
-- The alerts that are current (agent/internal/agent/alerts_api.go): those of the health, of
-- Prometheus, of the devices and of what is expected of them. What Prometheus answers is an argument.
pub mod Switches
pub mod Stable
mod Tests
use infracheck_appliance.Base.{
  ℕ, String, Bool, true, false, ◌&&◌, ◌||◌, not, Option, none, some, List, [], ◌∷◌, ◌++◌, map, keep,
  if◌then◌else◌, str_eq,
}
use infracheck_appliance.Base.Int.{ℤ, pos}
use infracheck_appliance.Base.Text.{◌<>◌, join, first_non_empty}
use infracheck_appliance.Base.Decimal.{itoa}
use infracheck_appliance.Base.Dict.{Dict, lookup}
use infracheck_appliance.Base.Float.{Floats}
use infracheck_appliance.Base.Result.{Result, ok, err, and_then}
use infracheck_appliance.Verdict.Rules.{Verdict}
use infracheck_appliance.Verdict.Score.{Health}
use infracheck_appliance.Alerts.{Alert, Row}
use infracheck_appliance.Alerts.Dedupe.{dedupe_alert_records}
use infracheck_appliance.Alerts.Fingerprint.{Labels, fingerprinted, alert_stable_target}
use infracheck_appliance.Devices.{Device, DeviceEvent, Inventory}
use infracheck_appliance.Devices.Select.{devices}
use infracheck_appliance.Devices.Records.{device_events}
use infracheck_appliance.Devices.Classify.{Json, is_none}
use infracheck_appliance.Devices.Persist.{ensure_device_intelligence}
use infracheck_appliance.Devices.Expected.{expectation_alert_records}
use infracheck_appliance.Current.Switches.{ManagedSwitchTopology, attach_managed_switch_locations}

-- An alert as Prometheus answers it.
pub record PrometheusAlert : Type 0 where
  pub labels : Dict String
  pub annotations : Dict String
  pub state : String

abbrev entry_of : String → Dict String → String
entry_of k d = elim (lookup k d) [ none ↦ "" | some v ↦ v ]

module _ (labels : Labels) where
  -- The labels stand in the order of their keys, as `json.Marshal` writes them.
  abbrev pub verdict_labels : String → String → String → Dict String
  verdict_labels category code target =
      ("category", category)
      ∷ ("code", code)
      ∷ (if str_eq target "" then [] else ("target", target) ∷ [])

  unfoldable pub verdict_alert : {F : Type 0} → Verdict F → Alert
  verdict_alert v = fingerprinted labels (record {
    fingerprint = "";
    source = "internal";
    severity = v.severity;
    state = "active";
    category = v.category;
    title = v.title;
    summary = v.summary;
    recommendation = v.recommendation;
    evidence = v.evidence;
    labels = labels.encode (verdict_labels v.category v.code (alert_stable_target v.evidence));
    annotations =
        labels.encode (("recommendation", v.recommendation) ∷ ("summary", v.summary) ∷ []);
  })

  unfoldable pub verdict_alerts : {F : Type 0} → List (Verdict F) → List Alert
  verdict_alerts vs = map verdict_alert (keep (λ v. not (str_eq v.code "healthy")) vs)

  unfoldable pub prometheus_alert : PrometheusAlert → Alert
  prometheus_alert p = fingerprinted labels (record {
    fingerprint = "";
    source = "prometheus";
    severity = first_non_empty (entry_of "severity" p.labels ∷ "info" ∷ []);
    state = first_non_empty (p.state ∷ "active" ∷ []);
    category = first_non_empty (entry_of "category" p.labels ∷ "-" ∷ []);
    title = entry_of "alertname" p.labels;
    summary =
        first_non_empty
          (entry_of "description" p.annotations ∷ entry_of "summary" p.annotations ∷ []);
    recommendation = entry_of "recommendation" p.annotations;
    evidence = [];
    labels = labels.encode p.labels;
    annotations = labels.encode p.annotations;
  })

  abbrev pub prometheus_alerts : Result (List PrometheusAlert) → List Alert
  prometheus_alerts (err e) = []
  prometheus_alerts (ok items) = map prometheus_alert items

  unfoldable pub exposure_alert : Device → Alert
  exposure_alert d =
      let name = first_non_empty (d.row.hostname ∷ d.row.ip ∷ d.row.mac ∷ []) in
      fingerprinted labels (record {
        fingerprint = "";
        source = "device-intelligence";
        severity = "warning";
        state = "active";
        category = "inventory";
        title = "Device exposure needs review: " <> name;
        summary = join d.risk_flags "; ";
        recommendation =
            "Confirm these services are expected for the device role, restrict access where appropriate, or document the accepted exposure.";
        evidence = ("device: " <> name) ∷ ("category: " <> d.category) ∷ d.risk_flags;
        labels = labels.encode (
            ("category", "inventory")
            ∷ ("device_id", itoa (pos d.row.id))
            ∷ ("target", d.row.ip)
            ∷ []);
        annotations = "";
      })

  unfoldable pub changed_alert : DeviceEvent → Alert
  changed_alert e =
      let id = itoa (pos e.device_id) in
      fingerprinted labels (record {
        fingerprint = "";
        source = "device-intelligence";
        severity = "info";
        state = "active";
        category = "inventory";
        title = "Observed ports changed on device";
        summary = e.summary;
        recommendation =
            "Review the device timeline and confirm the newly observed service set is expected.";
        evidence = ("device id: " <> id) ∷ ("before: " <> e.before) ∷ ("after: " <> e.after) ∷ [];
        labels =
            labels.encode (("category", "inventory") ∷ ("device_id", id) ∷ ("target", id) ∷ []);
        annotations = "";
      })

  -- `is_recent` says of the text of a time that it is not before the cutoff.
  abbrev reports_change : (String → Bool) → DeviceEvent → Bool
  reports_change is_recent e =
      str_eq e.type "ports_changed" && is_recent e.timestamp && not (str_eq e.before "")

  abbrev event_alerts : (String → Bool) → Result (List DeviceEvent) → List Alert
  event_alerts is_recent (err e) = []
  event_alerts is_recent (ok events) = map changed_alert (keep (reports_change is_recent) events)

  abbrev intelligence_alerts :
      (String → Bool) → String → Inventory × List Device → Inventory × List Alert
  intelligence_alerts is_recent site (db, ds) = (
    db,
    map exposure_alert (keep (λ (d : Device). not (is_none d.risk_flags)) ds)
        ++ event_alerts is_recent (device_events site (pos 300) db),
  )

  module _ (json : Json) (is_recent : String → Bool) (is_after : String → String → Bool) where
    unfoldable pub device_intelligence_alert_records :
        String → String → Inventory → Inventory × List Alert
    device_intelligence_alert_records now site db = elim (devices site db) [
      | err e ↦ (db, [])
      | ok ds ↦ intelligence_alerts is_recent site (ensure_device_intelligence json now site ds db)
    ]

    abbrev expectation_alerts :
        String
        → String
        → List ManagedSwitchTopology
        → Inventory × List Alert
        → Inventory × List Alert
    expectation_alerts now site switches (db, found) = elim (devices site db) [
      | err e ↦ (db, found)
      | ok ds ↦ (
        db,
        found
            ++ expectation_alert_records json labels is_after now
                (attach_managed_switch_locations switches ds),
      )
    ]

    abbrev pub of_inventory :
        String → String → List ManagedSwitchTopology → Inventory → Inventory × List Alert
    of_inventory now site switches db =
        expectation_alerts now site switches (device_intelligence_alert_records now site db)

    -- A record of an alert that was not stored.
    abbrev pub unstored : Alert → Row
    unstored a = record {
      alert = a;
      active = false;
      acknowledged = false;
      first_seen = "";
      last_seen = "";
      acknowledged_at = "";
      cleared_at = "";
      suppressed_until = "";
    }

    abbrev pub deduped : List Alert → List Alert
    deduped alerts = map (λ (r : Row). r.alert) (dedupe_alert_records (map unstored alerts))

    -- The records, where the health could be evaluated.
    unfoldable pub current_alert_records :
        {F : Type 0}
        → String
        → String
        → Result (Health F)
        → Result (List PrometheusAlert)
        → List ManagedSwitchTopology
        → Inventory
        → Inventory × Result (List Alert)
    current_alert_records now site (err e) prometheus switches db = (db, err e)
    current_alert_records now site (ok h) prometheus switches db =
        let (after, found) = of_inventory now site switches db in
        (after, ok (deduped (verdict_alerts h.verdicts ++ prometheus_alerts prometheus ++ found)))
