-- ===== src/Alerts/Tests.antt =====
-- Runs of the alert store, and the theorems about it at concrete inputs.
use infracheck_appliance.Base.{
  String, true, false, not, none, [], ◌∷◌, ◌≡◌, refl, arith, any, eq_iff,
}
use infracheck_appliance.Base.Int.{pos}
use infracheck_appliance.Base.Text.{text_lt, to_lower, trim_space, trim_left, trim_right, contains}
use infracheck_appliance.Base.Dict.{lookup, insert, values}
use infracheck_appliance.Alerts.Dedupe.{
  dedupe_alert_records, dedupe_loop, dedupe_key, alert_dedupe_key, normalize_alert_text,
  underscores_to_spaces, words_only, first_token, until_space, better_alert_record,
}
use infracheck_appliance.Base.Result.{ok}
use infracheck_appliance.Alerts.{
  Alert, Row, Table, has_fingerprint, fresh, upsert_one, upsert_each, update_where, update_one,
  put_row, sort_rows, clear_unseen, is_seen, alert_records, upsert_alert_records, suppress_alert,
  close_alert, closed_row, delete_closed_alerts_before,
}
use infracheck_appliance.Alerts.Lifecycle.{
  created, then_step, reports, closes, IsSoundTable, Reach-IsSoundTable,
}
use infracheck_appliance.Alerts.Cleared.{alert_records-upsert}
use infracheck_appliance.Alerts.Hidden.{nothing, then_quiet, Quiet, suppress_alert-hides}

abbrev named : String → Alert
named f = record {
  fingerprint = f;
  source = "internal";
  severity = "warning";
  state = "active";
  category = "dns";
  title = "Local DNS problem";
  summary = "";
  recommendation = "";
  evidence = [];
  labels = "";
  annotations = "";
}

abbrev nine : String
nine = "2026-01-01T09:00:00Z"

abbrev ten : String
ten = "2026-01-01T10:00:00Z"

abbrev eleven : String
eleven = "2026-01-01T11:00:00Z"

abbrev empty : Table
empty = record { rows = []; fault = none }

abbrev one : Table
one = record { rows = fresh nine (named "a") ∷ []; fault = none }

first_report : upsert_alert_records nine nine (named "a" ∷ []) empty ≡ (one, none)
unfolding upsert_alert_records upsert_each upsert_one clear_unseen alert_records sort_rows put_row
first_report = refl

abbrev one_closed : Table
one_closed = record { rows = closed_row ten (fresh nine (named "a")) ∷ []; fault = none }

closing : close_alert ten "a" one ≡ (one_closed, none)
unfolding close_alert update_one update_where
closing = refl

-- A closed alert that is deleted and reported again is a new, active one.
deleted_returns :
    (upsert_alert_records eleven eleven
      (named "a" ∷ [])
      (delete_closed_alerts_before eleven one_closed).0).0.rows
    ≡ fresh eleven (named "a") ∷ []
unfolding upsert_alert_records upsert_each upsert_one clear_unseen alert_records sort_rows put_row
    delete_closed_alerts_before
deleted_returns = refl

-- The text of a later time may be the smaller one: `Z` comes after `.`.
text_order : text_lt "2026-01-01T09:00:00.5Z" "2026-01-01T09:00:00Z" ≡ true
text_order = refl

Reach-IsSoundTable_example :
    IsSoundTable
      (close_alert ten "a" (upsert_alert_records nine nine (named "a" ∷ []) empty).0).0.rows
Reach-IsSoundTable_example =
    Reach-IsSoundTable
      (close_alert ten "a" (upsert_alert_records nine nine (named "a" ∷ []) empty).0).0
      (then_step _ _
        (then_step _ _ created
          (reports nine nine (named "a" ∷ []) empty (ground (arith, eq_iff nine ""))))
        (closes ten "a" _ (ground (arith, eq_iff ten ""))))

nothing_listed :
    alert_records ten true true (pos 300) (upsert_alert_records ten ten [] one).0 ≡ ok []
unfolding upsert_alert_records upsert_each alert_records sort_rows update_where
nothing_listed = refl

alert_records-upsert_example : any (λ (r : Row). not (is_seen [] r.alert.fingerprint)) [] ≡ false
alert_records-upsert_example =
    alert_records-upsert ten ten [] one [] true (pos 300) (omega arith) nothing_listed

suppressed : (suppress_alert ten eleven "a" one).1 ≡ none
unfolding suppress_alert update_one
suppressed = refl

suppressed_listed :
    alert_records ten true true
      (pos 300)
      (upsert_alert_records ten ten (named "a" ∷ []) (suppress_alert ten eleven "a" one).0).0
    ≡ ok []
unfolding upsert_alert_records upsert_each upsert_one clear_unseen alert_records sort_rows put_row
    suppress_alert update_one update_where
suppressed_listed = refl

suppress_alert-hides_example : any (has_fingerprint "a") [] ≡ false
suppress_alert-hides_example =
    suppress_alert-hides "a" eleven ten ten one
      (upsert_alert_records ten ten (named "a" ∷ []) (suppress_alert ten eleven "a" one).0).0 []
      true (pos 300) suppressed (then_quiet _ _ nothing (Quiet.reports ten ten (named "a" ∷ []) _))
      (ground (arith, eq_iff eleven "")) refl suppressed_listed

closed_done : (close_alert ten "a" one).1 ≡ none
unfolding close_alert update_one
closed_done = refl

closed_listed : alert_records eleven true true (pos 300) (close_alert ten "a" one).0 ≡ ok []
unfolding alert_records sort_rows close_alert update_one update_where
closed_listed = refl

abbrev imported : Row
imported = fresh ten (record (named "b") { source = "alertmanager" })

twice_reported :
    dedupe_alert_records (imported ∷ fresh nine (named "a") ∷ []) ≡ fresh nine (named "a") ∷ []
unfolding dedupe_alert_records dedupe_loop dedupe_key alert_dedupe_key normalize_alert_text
    underscores_to_spaces words_only first_token until_space to_lower trim_space trim_left
    trim_right contains lookup insert values better_alert_record
twice_reported = refl
