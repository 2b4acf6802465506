-- ===== src/Current/Stable.antt =====
-- What the current alerts say of the health, and how they are told apart
-- (agent/internal/agent/alerts_api.go).
use infracheck_appliance.Base.{
  String, Bool, true, List, [], ◌∷◌, ◌++◌, ◌≡◌, ◌≢◌, refl, ap, sym, ◌∙◌, arith, any, any-append,
  map, eq_iff, eq_refl, ◌&&◌, str_eq, Among, All-Among, All-both, All-map, All, Bool-cases, inl,
  inr,
}
use infracheck_appliance.Base.Dict.{Dict, lookup}
use infracheck_appliance.Base.Text.{◌<>◌, first_non_empty}
use infracheck_appliance.Base.Result.{Result, ok, ok-injective}
use infracheck_appliance.Verdict.Rules.{Verdict}
use infracheck_appliance.Verdict.Score.{Health}
use infracheck_appliance.Alerts.{Alert, Row}
use infracheck_appliance.Alerts.Dedupe.{dedupe_key, alert_dedupe_key, dedupe_alert_records}
use infracheck_appliance.Alerts.Internal.{
  as_detailed, tells_of, better-tells, good_with, dedupe_alert_records-good,
}
use infracheck_appliance.Alerts.Fingerprint.{
  Labels, entry, alert_fingerprint, alert_stable_name, alert_stable_target,
}
use infracheck_appliance.Devices.{Inventory}
use infracheck_appliance.Devices.Classify.{Json}
use infracheck_appliance.Current.{
  PrometheusAlert, verdict_alert, verdict_alerts, verdict_labels, prometheus_alerts, unstored,
  deduped, of_inventory, current_alert_records,
}
use infracheck_appliance.Current.Switches.{ManagedSwitchTopology}

module _ (labels : Labels) where
  abbrev pub labels_of : {F : Type 0} → Verdict F → Dict String
  labels_of v = verdict_labels labels v.category v.code (alert_stable_target v.evidence)

  -- The name of a verdict's alert is the verdict's code.
  verdict-name :
      {F : Type 0} (v : Verdict F)
      → labels.decode (labels.encode (labels_of v)) ≡ labels_of v
      → v.code ≢ ""
      → alert_stable_name labels (verdict_alert labels v) ≡ v.code
  unfolding alert_stable_name verdict_alert lookup
  verdict-name v reads coded =
      ap
        (λ (d : Dict String). first_non_empty (entry "code" d ∷ entry "alertname" d ∷ v.title ∷ []))
        reads
      ∙ ground (arith, coded, eq_iff v.code "")

  -- Where the alert's labels are read as they were written, the fingerprint of the alert of a verdict with a
  -- code is the hash of its category, its code and its stable target, whatever its severity, its texts
  -- and the rest of its evidence.
  pub verdict_alert-fingerprint :
      {F : Type 0} (v : Verdict F)
      → labels.decode (labels.encode (labels_of v)) ≡ labels_of v
      → v.code ≢ ""
      → (verdict_alert labels v).fingerprint
        ≡ labels.sha1 (
            "internal"
            <> "|"
            <> v.category
            <> "|"
            <> v.code
            <> "|"
            <> alert_stable_target v.evidence)
  unfolding verdict_alert alert_fingerprint alert_stable_name
  verdict_alert-fingerprint v reads coded =
      ap
        (λ n.
          labels.sha1
            ("internal" <> "|" <> v.category <> "|" <> n <> "|" <> alert_stable_target v.evidence))
        (verdict-name v reads coded)

  module _ (json : Json) (is_recent : String → Bool) (is_after : String → String → Bool) where
    -- Two alerts have the same key of deduplication.
    abbrev same_key : Alert → Alert → Bool
    same_key x a =
        str_eq (dedupe_key (unstored labels json is_recent is_after a))
          (dedupe_key (unstored labels json is_recent is_after x))

    -- The alert is an internal one with the other's key, with more evidence than the other or as much
    -- evidence and a summary and a recommendation that are together at least as long.
    abbrev pub tells : Alert → Alert → Bool
    tells x a = same_key x a && str_eq a.source "internal" && as_detailed x a

    -- The same of a record.
    abbrev told_by : Alert → Row → Bool
    told_by x =
        good_with (tells_of x) (better-tells x)
          (dedupe_key (unstored labels json is_recent is_after x))

    map-unstored :
        (x : Alert) (alerts : List Alert)
        → any (told_by x) (map (unstored labels json is_recent is_after) alerts)
          ≡ any (tells x) alerts
    map-unstored x [] = refl
    map-unstored x (a ∷ alerts) = ground (arith, map-unstored x alerts)

    map-alert :
        (x : Alert) (rows : List Row)
        → any (tells x) (map (λ (r : Row). r.alert) rows) ≡ any (told_by x) rows
    unfolding dedupe_key alert_dedupe_key
    map-alert x [] = refl
    map-alert x (r ∷ rows) = ground (arith, map-alert x rows)

    deduped-tells :
        (x : Alert) (alerts : List Alert)
        → any (tells x) (deduped labels json is_recent is_after alerts) ≡ any (tells x) alerts
    deduped-tells x alerts =
        map-alert x (dedupe_alert_records (map (unstored labels json is_recent is_after) alerts))
        ∙ dedupe_alert_records-good (tells_of x) (better-tells x)
            (dedupe_key (unstored labels json is_recent is_after x))
            (map (unstored labels json is_recent is_after) alerts)
        ∙ map-unstored x alerts

    -- An internal alert tells of itself.
    tells_self : (x : Alert) → str_eq x.source "internal" ≡ true → tells x x ≡ true
    tells_self x own =
        ground (arith, own, eq_refl (dedupe_key (unstored labels json is_recent is_after x)))

    Among-tells :
        (x : Alert) (alerts : List Alert)
        → Among x alerts
        → str_eq x.source "internal" ≡ true
        → any (tells x) alerts ≡ true
    Among-tells x [] h own = absurd h
    Among-tells x (a ∷ alerts) (inl same) own = rw (← same, tells_self x own) refl
    Among-tells x (a ∷ alerts) (inr later) own = ground (arith, Among-tells x alerts later own)

    verdict_alerts-internal :
        {F : Type 0} (vs : List (Verdict F))
        → All (λ (a : Alert). str_eq a.source "internal" ≡ true) (verdict_alerts labels vs)
    unfolding verdict_alerts verdict_alert
    verdict_alerts-internal [] = tt
    verdict_alerts-internal (v ∷ vs) = elim (Bool-cases (str_eq v.code "healthy")) [
      | inl well ↦ rw well (verdict_alerts-internal vs)
      | inr problem ↦ rw problem (refl, verdict_alerts-internal vs)
    ]

    -- Whatever Prometheus, the switches and the inventory answer, the current alerts have, for each verdict
    -- of the health other than the one that all is well, an internal alert with the same key of
    -- deduplication as the verdict's own, and with more evidence than it, or as much evidence and a summary
    -- and a recommendation that are together at least as long. It may be the alert of another problem.
    pub current_alert_records-tells :
        {F : Type 0} (now site : String) (h : Health F) (prometheus : Result (List PrometheusAlert))
        (switches : List ManagedSwitchTopology) (db : Inventory) (alerts : List Alert)
        → (current_alert_records labels json is_recent is_after now site
            (ok h)
            prometheus
            switches
            db).1
          ≡ ok alerts
        → All (λ x. any (tells x) alerts ≡ true) (verdict_alerts labels h.verdicts)
    unfolding current_alert_records
    current_alert_records-tells now site h prometheus switches db alerts current =
        let own = verdict_alerts labels h.verdicts in
        let other = prometheus_alerts labels prometheus in
        let found = (of_inventory labels json is_recent is_after now site switches db).1 in
        All-map (λ x. Among x own × (str_eq x.source "internal" ≡ true))
          (λ x. any (tells x) alerts ≡ true)
          (λ x k.
            ap (any (tells x)) (sym (ok-injective _ alerts current))
            ∙ deduped-tells x (own ++ other ++ found)
            ∙ any-append (tells x) (own ++ other) found
            ∙ ground (arith, any-append (tells x) own other, Among-tells x own k.0 k.1))
          own
          (All-both (λ x. Among x own) (λ (x : Alert). str_eq x.source "internal" ≡ true) own
            (All-Among own) (verdict_alerts-internal h.verdicts))
