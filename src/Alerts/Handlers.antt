-- ===== src/Alerts/Handlers.antt =====
-- The handlers of the alerts (agent/internal/agent/alerts_api.go). The alerts that are current come
-- as an argument, or with the error of collecting them.
use infracheck_appliance.Base.{
  String, Bool, true, false, not, Option, none, some, List, if◌then◌else◌, str_eq, ◌≡◌, ◌≢◌, arith,
  ◌⊎◌, any,
}
use infracheck_appliance.Base.Int.{pos}
use infracheck_appliance.Base.Result.{Result, ok, err, Response, answer, refuse}
use infracheck_appliance.Alerts.{
  Alert, Row, Table, alert_records, upsert_alert_records, acknowledge_alert, close_alert, no_rows,
  update_one, has_fingerprint,
}
use infracheck_appliance.Alerts.Dedupe.{dedupe_alert_records}

abbrev shown : Result (List Row) → Response (List Row)
shown (err e) = refuse 500 e
shown (ok records) = answer (dedupe_alert_records records)

-- `listing` is the clock where the records are listed.
abbrev listed : String → Bool → Bool → Table × Option String → Table × Response (List Row)
listed listing history include_ack (db, some e) = (db, refuse 500 e)
listed listing history include_ack (db, none) =
    (db, shown (alert_records listing (not history) include_ack (pos 300) db))

abbrev collected :
    String → String → String → Bool → Result (List Alert) → Table → Table × Response (List Row)
collected now later listing include_ack (err e) db = (db, refuse 500 e)
collected now later listing include_ack (ok alerts) db =
    listed listing false include_ack (upsert_alert_records now later alerts db)

unfoldable pub unified_alerts :
    String
    → String
    → String
    → Bool
    → Bool
    → Result (List Alert)
    → Table
    → Table × Response (List Row)
unified_alerts now later listing history include_ack current db =
    if history
    then listed listing true include_ack (db, none)
    else collected now later listing include_ack current db

-- A statement's outcome as the handlers answer it.
abbrev alert_answer : String → Table × Option String → Table × Response String
alert_answer word (db, none) = (db, answer word)
alert_answer word (db, some e) =
    (db, if str_eq e no_rows then refuse 404 "alert not found" else refuse 500 e)

unfoldable pub acknowledge_handler : String → String → Table → Table × Response String
acknowledge_handler now f db = alert_answer "acknowledged" (acknowledge_alert now f db)

unfoldable pub close_handler : String → String → Table → Table × Response String
close_handler now f db = alert_answer "closed" (close_alert now f db)

-- The handler answers "acknowledged" where the database answers and some row has the fingerprint;
-- in every other case it answers an error and leaves the table as it is.
pub acknowledge_handler-outcome :
    (now f : String) (db : Table)
    → (((acknowledge_handler now f db).1 ≡ answer "acknowledged")
        × (db.fault ≡ none)
        × (any (has_fingerprint f) db.rows ≡ true))
      ⊎ (((acknowledge_handler now f db).1 ≢ answer "acknowledged")
          × ((acknowledge_handler now f db).0 ≡ db)
          × ((db.fault ≢ none) ⊎ (any (has_fingerprint f) db.rows ≡ false)))
unfolding acknowledge_handler acknowledge_alert update_one
acknowledge_handler-outcome now f db = ground arith
