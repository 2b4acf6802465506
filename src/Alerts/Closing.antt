-- ===== src/Alerts/Closing.antt =====
-- Closing and acknowledging an alert (agent/internal/storage/storage.go).
use infracheck_appliance.Base.{
  String, Bool, true, false, none, List, [], ◌∷◌, ◌≡◌, ◌≢◌, refl, arith, any, eq_iff,
}
use infracheck_appliance.Base.Int.{ℤ}
use infracheck_appliance.Base.Text.{text_lt}
use infracheck_appliance.Base.Result.{ok}
use infracheck_appliance.Alerts.{
  Alert, Row, Table, has_fingerprint, reported, update_where, update_one, alert_records,
  acknowledge_alert, close_alert, acknowledged_row, closed_row, end_of_time,
}
use infracheck_appliance.Alerts.Rows.{update_where-key}
use infracheck_appliance.Alerts.Listed.{alert_records-any}
use infracheck_appliance.Alerts.Hidden.{
  QuietRun, QuietRun-HoldsUntil, held-unlisted, close-HoldsUntil,
}

-- After an alert was closed, and after any further operations but a suppression or a closing of the
-- same alert and the deletion of old rows, no listing of the active alerts shows it before the end
-- of the year 9999.
pub close_alert-hides :
    (f now t : String) (db db' : Table) (rows : List Row) (include_acknowledged : Bool) (limit : ℤ)
    → (close_alert now f db).1 ≡ none
    → QuietRun f end_of_time (close_alert now f db).0 db'
    → text_lt t end_of_time ≡ true
    → alert_records t true include_acknowledged limit db' ≡ ok rows
    → any (has_fingerprint f) rows ≡ false
close_alert-hides f now t db db' rows include_acknowledged limit done run before listed =
    alert_records-any (has_fingerprint f) t true include_acknowledged limit db' rows
      (held-unlisted f end_of_time t include_acknowledged db'.rows
        (ground (arith, eq_iff end_of_time "")) before
        (QuietRun-HoldsUntil f end_of_time _ db' run
          (close-HoldsUntil f end_of_time now db refl done)).held)
      listed

-- A row that was closed and whose alert is reported again before the end of the year 9999 stays
-- inactive and keeps its time of clearing, but takes the report's state and is no longer
-- acknowledged.
pub reported-closed_row :
    (now later : String) (a : Alert) (r : Row)
    → now ≢ ""
    → text_lt later end_of_time ≡ true
    → ((reported later a (closed_row now r)).active ≡ false)
      × ((reported later a (closed_row now r)).cleared_at ≡ (closed_row now r).cleared_at)
      × ((reported later a (closed_row now r)).alert.state ≡ a.state)
      × ((reported later a (closed_row now r)).acknowledged ≡ false)
      × ((closed_row now r).acknowledged ≡ true)
reported-closed_row now later a r t before = ground arith

acknowledged-twice :
    (now later f : String) (rows : List Row)
    → now ≢ ""
    → update_where
        (has_fingerprint f)
        (acknowledged_row later)
        (update_where (has_fingerprint f) (acknowledged_row now) rows)
      ≡ update_where (has_fingerprint f) (acknowledged_row now) rows
unfolding update_where
acknowledged-twice now later f [] t = refl
acknowledged-twice now later f (r ∷ rows) t =
    ground (arith, acknowledged-twice now later f rows t, eq_iff now "")

-- Acknowledging an alert a second time answers what the first time did and changes nothing, not
-- even the time of acknowledgement.
pub acknowledge_alert-again :
    (now later f : String) (db : Table)
    → now ≢ ""
    → acknowledge_alert later f (acknowledge_alert now f db).0 ≡ acknowledge_alert now f db
unfolding acknowledge_alert update_one
acknowledge_alert-again now later f db t = ground (
  arith,
  acknowledged-twice now later f db.rows t,
  update_where-key (has_fingerprint f) (acknowledged_row now) f db.rows (λ r. refl),
)
