-- ===== src/Current/Tests.antt =====
-- Runs of the current alerts, and the theorems about them at concrete inputs.
use infracheck_appliance.Base.{
  ℕ, String, true, false, List, [], ◌∷◌, ◌++◌, ◌≡◌, refl, arith, any, All, map, eq_iff,
}
use infracheck_appliance.Base.Int.{pos}
use infracheck_appliance.Base.Decimal.{itoa}
use infracheck_appliance.Base.Dict.{lookup, insert, values}
use infracheck_appliance.Base.Text.{
  ◌<>◌, to_lower, trim_space, trim_left, trim_right, contains, has_prefix, slice_from,
}
use infracheck_appliance.Base.Result.{ok, err}
use infracheck_appliance.Config.Samples.{whole_floats}
use infracheck_appliance.Verdict.Rules.{Verdict}
use infracheck_appliance.Verdict.Score.{Health}
use infracheck_appliance.Health.Limits.{no_metrics}
use infracheck_appliance.Alerts.{Alert}
use infracheck_appliance.Alerts.Fingerprint.{
  Labels, alert_fingerprint, alert_stable_name, alert_stable_target,
}
use infracheck_appliance.Alerts.Dedupe.{
  dedupe_alert_records, dedupe_loop, dedupe_key, alert_dedupe_key, normalize_alert_text,
  underscores_to_spaces, words_only, first_token, until_space, better_alert_record,
}
use infracheck_appliance.Devices.{DeviceEvent}
use infracheck_appliance.Devices.Lifecycle.{no_devices}
use infracheck_appliance.Devices.Classify.{Json}
use infracheck_appliance.Current.{
  changed_alert, verdict_alert, verdict_alerts, current_alert_records, deduped, of_inventory,
}
use infracheck_appliance.Current.Stable.{
  tells, labels_of, verdict_alert-fingerprint, current_alert_records-tells,
}

-- A text that keeps nothing, for runs that read no label.
abbrev blank : Labels
blank = record { encode = λ d. ""; decode = λ s. []; sha1 = λ s. s }

abbrev json : Json
json = record {
  texts = λ s. ([], false);
  ports = λ s. ([], false);
  encode_texts = λ ts. "[]";
  encode_ports = λ ps. "[]";
}

abbrev changed : ℕ → DeviceEvent
changed id = record {
  timestamp = "2026-01-01T09:00:00Z";
  site_id = "site";
  device_id = id;
  type = "ports_changed";
  severity = "warning";
  summary = "Observed TCP ports changed";
  before = "[22]";
  after = "[22,80]";
}

-- The alerts on the changed ports of two devices have one fingerprint.
same_fingerprint :
    (changed_alert blank (changed 1)).fingerprint ≡ (changed_alert blank (changed 2)).fingerprint
unfolding changed_alert alert_fingerprint alert_stable_name alert_stable_target to_lower trim_space
    trim_left trim_right has_prefix slice_from itoa
same_fingerprint = refl

abbrev slow : String → String → String → Verdict ℕ
slow severity name text = record {
  severity = severity;
  category = "service";
  code = "http_threshold";
  title = "HTTP response slow";
  summary = text;
  evidence = ("service: " <> name) ∷ [];
  recommendation = "";
  timestamp = pos 0;
  metrics = no_metrics whole_floats;
}

-- The labels of one alert, which are read whatever the text.
abbrev read : Labels
read = record {
  encode = λ d. "";
  decode = λ s. ("category", "service") ∷ ("code", "http_threshold") ∷ ("target", "shop") ∷ [];
  sha1 = λ s. s;
}

shop_labels :
    read.decode (read.encode (labels_of read (slow "warning" "shop" "")))
    ≡ labels_of read (slow "warning" "shop" "")
unfolding alert_stable_target to_lower trim_space trim_left trim_right has_prefix slice_from
shop_labels = refl

verdict_alert-fingerprint_example :
    (verdict_alert read (slow "warning" "shop" "")).fingerprint
    ≡ "internal"
      <> "|"
      <> "service"
      <> "|"
      <> "http_threshold"
      <> "|"
      <> alert_stable_target ("service: shop" ∷ [])
verdict_alert-fingerprint_example =
    verdict_alert-fingerprint read (slow "warning" "shop" "") shop_labels
      (ground (arith, eq_iff "http_threshold" ""))

-- Of a critical alert on one service and a longer warning on another, deduplication keeps the warning.
kept_severity :
    map
      (λ (a : Alert). a.severity)
      (deduped blank json
        (λ s. true)
        (λ s t. false)
        (verdict_alerts blank (slow "critical" "shop" "4s" ∷ slow "warning" "blog" "2000 ms" ∷ [])))
    ≡ "warning" ∷ []
unfolding verdict_alerts verdict_alert dedupe_alert_records dedupe_loop dedupe_key alert_dedupe_key
    normalize_alert_text underscores_to_spaces words_only first_token until_space to_lower
    trim_space trim_left trim_right contains lookup insert values better_alert_record
kept_severity = refl

abbrev sick : Health ℕ
sick = record {
  timestamp = pos 0;
  overall_health_score = 60;
  wan_score = 100;
  dns_score = 100;
  gateway_lan_score = 100;
  service_availability = 70;
  device_inventory_score = 100;
  status = "critical";
  verdicts = slow "critical" "shop" "4s" ∷ [];
  recommendations = [];
}

abbrev current : List Alert
current =
    deduped blank json (λ s. true) (λ s t. false)
      (verdict_alerts blank sick.verdicts
        ++ []
        ++ (of_inventory blank json (λ s. true) (λ s t. false) "" "site" [] no_devices).1)

is_current :
    (current_alert_records blank json
      (λ s. true)
      (λ s t. false)
      ""
      "site"
      (ok sick)
      (err "down")
      []
      no_devices).1
    ≡ ok current
unfolding current_alert_records
is_current = refl

current_alert_records-tells_example :
    All
      (λ x. any (tells blank json (λ s. true) (λ s t. false) x) current ≡ true)
      (verdict_alerts blank sick.verdicts)
current_alert_records-tells_example =
    current_alert_records-tells blank json (λ s. true) (λ s t. false) "" "site" sick (err "down") []
      no_devices current is_current
