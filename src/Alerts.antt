-- ===== src/Alerts.antt =====
-- The table `alert_records` (agent/internal/storage/storage.go): its rows, and the statements that
-- read and write it. A time is the text that the column holds (RFC 3339, in UTC), and texts are
-- compared byte by byte, as SQLite does it. `now` is the clock's text where a function reads it.
pub mod Rows
pub mod Lifecycle
pub mod Hidden
pub mod Listed
pub mod Cleared
pub mod Closing
pub mod Dedupe
pub mod Unique
pub mod Handlers
pub mod Fingerprint
mod Tests
pub mod Internal
use infracheck_appliance.Base.{
  ℕ, String, Bool, true, false, ◌&&◌, ◌||◌, not, Option, none, some, List, [], ◌∷◌, ◌++◌, map, any,
  keep, if◌then◌else◌, str_eq, ltb, leb, ◌==◌, take, length,
}
use infracheck_appliance.Base.Int.{ℤ, pos, leb_ℤ, ltb_ℤ, pos_part}
use infracheck_appliance.Base.Text.{text_lt}
use infracheck_appliance.Base.Result.{Result, ok, err}
pub use infracheck_appliance.Base.Result.{unless_fault, no_rows}

-- What the agent reports of one alert (the fields of `AlertRecord` that an upsert writes).
pub record Alert : Type 0 where
  pub fingerprint : String
  pub source : String
  pub severity : String
  pub state : String
  pub category : String
  pub title : String
  pub summary : String
  pub recommendation : String
  pub evidence : List String
  pub labels : String
  pub annotations : String

pub record Row : Type 0 where
  pub alert : Alert
  pub active : Bool
  pub acknowledged : Bool
  pub first_seen : String
  pub last_seen : String
  pub acknowledged_at : String
  pub cleared_at : String
  pub suppressed_until : String

abbrev pub has_fingerprint : String → Row → Bool
has_fingerprint f r = str_eq r.alert.fingerprint f

-- `fault` is the error that the database answers to every statement, if it answers one.
pub record Table : Type 0 where
  pub rows : List Row
  pub fault : Option String

-- `CASE WHEN column = '' THEN now ELSE column END`
abbrev pub first_time : String → String → String
first_time now column = if str_eq column "" then now else column

-- The VALUES of the insertion.
abbrev pub fresh : String → Alert → Row
fresh now a = record {
  alert = a;
  active = true;
  acknowledged = false;
  first_seen = now;
  last_seen = now;
  acknowledged_at = "";
  cleared_at = "";
  suppressed_until = "";
}

-- `suppressed_until != '' AND suppressed_until > now`
abbrev pub is_suppressed : String → Row → Bool
is_suppressed now r = not (str_eq r.suppressed_until "") && text_lt now r.suppressed_until

-- The SET clause of the conflict: every right side reads the row as it was.
abbrev pub reported : String → Alert → Row → Row
reported now a r = record {
  alert = record a { fingerprint = r.alert.fingerprint };
  active = if is_suppressed now r then r.active else true;
  acknowledged = if r.active then r.acknowledged else false;
  first_seen = r.first_seen;
  last_seen = now;
  acknowledged_at = if r.active then r.acknowledged_at else "";
  cleared_at = if is_suppressed now r then r.cleared_at else "";
  suppressed_until = r.suppressed_until;
}

-- INSERT ... ON CONFLICT(fingerprint) DO UPDATE
unfoldable pub upsert_one : String → Alert → List Row → List Row
upsert_one now a [] = fresh now a ∷ []
upsert_one now a (r ∷ rows) =
    if has_fingerprint a.fingerprint r then reported now a r ∷ rows else r ∷ upsert_one now a rows

unfoldable pub upsert_each : String → List Alert → List Row → List Row
upsert_each now [] rows = rows
upsert_each now (a ∷ alerts) rows = upsert_each now alerts (upsert_one now a rows)

abbrev pub is_seen : List Alert → String → Bool
is_seen alerts f = any (λ a. str_eq a.fingerprint f) alerts

abbrev pub cleared : String → Row → Row
cleared now r = record r {
  active = false;
  last_seen = now;
  cleared_at = first_time now r.cleared_at;
}

-- UPDATE ... WHERE p
unfoldable pub update_where : (Row → Bool) → (Row → Row) → List Row → List Row
update_where p f [] = []
update_where p f (r ∷ rows) = (if p r then f r else r) ∷ update_where p f rows

-- The conditions of the WHERE clause, without the words that a false flag leaves out.
abbrev pub is_listed : String → Bool → Bool → Row → Bool
is_listed now active_only include_acknowledged r =
    (not active_only
      || (r.active && (str_eq r.suppressed_until "" || not (text_lt now r.suppressed_until))))
    && (include_acknowledged || not r.acknowledged)

-- ORDER BY acknowledged ASC, first_seen DESC; SQLite leaves the order of equal rows open, and here
-- it is the table's.
abbrev goes_before : Row → Row → Bool
goes_before a b =
    (not a.acknowledged && b.acknowledged)
    || (not (a.acknowledged && not b.acknowledged) && text_lt b.first_seen a.first_seen)

unfoldable pub put_row : Row → List Row → List Row
put_row r [] = r ∷ []
put_row r (s ∷ rows) = if goes_before s r then s ∷ put_row r rows else r ∷ s ∷ rows

unfoldable pub sort_rows : List Row → List Row
unfolding put_row
sort_rows [] = []
sort_rows (r ∷ rows) = put_row r (sort_rows rows)

abbrev pub limited : ℤ → ℕ
limited limit = if leb_ℤ limit (pos 0) || ltb_ℤ (pos 1000) limit then 200 else pos_part limit

unfoldable pub alert_records : String → Bool → Bool → ℤ → Table → Result (List Row)
unfolding sort_rows
alert_records now active_only include_acknowledged limit db = unless_fault db.fault err (
    ok (
      take (limited limit)
        (sort_rows (keep (is_listed now active_only include_acknowledged) db.rows))))

-- The loop over the alerts that are listed.
unfoldable pub clear_unseen : String → List Alert → List Row → List Row → List Row
clear_unseen now alerts [] rows = rows
clear_unseen now alerts (r ∷ listed) rows = clear_unseen now alerts listed (
    if is_seen alerts r.alert.fingerprint
    then rows
    else update_where (has_fingerprint r.alert.fingerprint) (cleared now) rows)

abbrev pub clear_listed : String → List Alert → Result (List Row) → Table → Table × Option String
clear_listed now alerts (err e) db = (db, some e)
clear_listed now alerts (ok listed) db =
    (record db { rows = clear_unseen now alerts listed db.rows }, none)

abbrev pub upserted : String → String → List Alert → Table → Table × Option String
upserted now later [] db =
    (record db { rows = update_where (λ r. r.active) (cleared now) db.rows }, none)
upserted now later alerts db =
    clear_listed now alerts (alert_records later true true (pos 1000) db) db

-- `later` is the clock where AlertRecords reads it.
unfoldable pub upsert_alert_records : String → String → List Alert → Table → Table × Option String
upsert_alert_records now later alerts db =
    unless_fault db.fault (λ e. (db, some e))
      (upserted now later alerts (record db { rows = upsert_each now alerts db.rows }))

-- One UPDATE by fingerprint, and `sql.ErrNoRows` where it affects none.
unfoldable pub update_one : String → (Row → Row) → Table → Table × Option String
update_one f change db =
    unless_fault db.fault (λ e. (db, some e))
      (if any (has_fingerprint f) db.rows
        then (record db { rows = update_where (has_fingerprint f) change db.rows }, none)
        else (db, some no_rows))

abbrev pub acknowledged_row : String → Row → Row
acknowledged_row now r = record r {
  acknowledged = true;
  acknowledged_at = first_time now r.acknowledged_at;
}

unfoldable pub acknowledge_alert : String → String → Table → Table × Option String
acknowledge_alert now f = update_one f (acknowledged_row now)

unfoldable pub suppress_alert : String → String → String → Table → Table × Option String
suppress_alert now until f =
    update_one f (λ r. record (acknowledged_row now r) { suppressed_until = until })

abbrev pub end_of_time : String
end_of_time = "9999-12-31T23:59:59Z"

abbrev pub closed_row : String → Row → Row
closed_row now r = record (acknowledged_row now r) {
  alert = record r.alert { state = "closed" };
  active = false;
  cleared_at = first_time now r.cleared_at;
  suppressed_until = end_of_time;
}

unfoldable pub close_alert : String → String → Table → Table × Option String
close_alert now f = update_one f (closed_row now)

-- `active = 0 AND cleared_at != '' AND cleared_at < cutoff`
abbrev pub is_old : String → Row → Bool
is_old cutoff r = not r.active && not (str_eq r.cleared_at "") && text_lt r.cleared_at cutoff

unfoldable pub delete_closed_alerts_before : String → Table → Table × Result ℕ
delete_closed_alerts_before cutoff db =
    unless_fault db.fault (λ e. (db, err e))
      (
        record db { rows = keep (λ r. not (is_old cutoff r)) db.rows },
        ok (length (keep (is_old cutoff) db.rows)),
      )
