-- ===== src/Alerts/Lifecycle.antt =====
-- Every run of the alert store's operations (agent/internal/storage/storage.go) from an empty table.
use infracheck_appliance.Base.{
  String, Bool, true, false, not, Option, none, some, List, [], ◌∷◌, ◌≡◌, ◌≢◌, refl, arith, All,
  if◌then◌else◌, str_eq, eq_iff, either, any,
}
use infracheck_appliance.Base.Int.{pos}
use infracheck_appliance.Base.Result.{Result, ok, err}
use infracheck_appliance.Alerts.{
  Alert, Row, Table, has_fingerprint, reported, upsert_one, upsert_each, update_where, update_one,
  clear_unseen, clear_listed, cleared, is_seen, acknowledged_row, closed_row, is_old, is_suppressed,
  no_rows, upserted, upsert_alert_records, acknowledge_alert, suppress_alert, close_alert,
  delete_closed_alerts_before, alert_records,
}
use infracheck_appliance.Alerts.Rows.{
  Distinct, KeepsKey, update_where-Distinct, upsert_one-Distinct, keep-Distinct, update_where-All,
  upsert_one-All, keep-All, unless_fault-both,
}

-- An operation of the store, at times that are not the empty text.
pub data Step : Table → Table → Type 0 where
  reports :
      (now later : String) (alerts : List Alert) (db : Table)
      → now ≢ ""
      → Step db (upsert_alert_records now later alerts db).0
  acknowledges : (now f : String) (db : Table) → now ≢ "" → Step db (acknowledge_alert now f db).0
  suppresses :
      (now until f : String) (db : Table) → now ≢ "" → Step db (suppress_alert now until f db).0
  closes : (now f : String) (db : Table) → now ≢ "" → Step db (close_alert now f db).0
  deletes : (cutoff : String) (db : Table) → Step db (delete_closed_alerts_before cutoff db).0
  -- The database starts or ceases to answer an error.
  turns : (fault : Option String) (db : Table) → Step db (record db { fault = fault })

pub data Reach : Table → Type 0 where
  created : Reach (record { rows = []; fault = none })
  then_step : (db db' : Table) → Reach db → Step db db' → Reach db'

-- A row is active exactly if it has no time of clearing, and acknowledged exactly if it has a time
-- of acknowledgement.
pub record IsConsistent (r : Row) : Type 0 where
  pub active : r.active ≡ str_eq r.cleared_at ""
  pub acknowledged : r.acknowledged ≡ not (str_eq r.acknowledged_at "")

pub record IsSoundTable (rows : List Row) : Type 0 where
  pub keys : Distinct rows
  pub consistent : All IsConsistent rows

kept_time :
    (b flag : Bool) (at : String)
    → flag ≡ str_eq at ""
    → (if b then flag else true) ≡ str_eq (if b then at else "") ""
kept_time true flag at h = h
kept_time false flag at h = refl

kept_flag :
    (b flag : Bool) (at : String)
    → flag ≡ not (str_eq at "")
    → (if b then flag else false) ≡ not (str_eq (if b then at else "") "")
kept_flag true flag at h = h
kept_flag false flag at h = refl

reported-IsConsistent :
    (now : String) (a : Alert) (r : Row) → IsConsistent r → IsConsistent (reported now a r)
reported-IsConsistent now a r h = record {
  active = kept_time (is_suppressed now r) r.active r.cleared_at h.active;
  acknowledged = kept_flag r.active r.acknowledged r.acknowledged_at h.acknowledged;
}

cleared-IsConsistent :
    (now : String) (r : Row) → now ≢ "" → IsConsistent r → IsConsistent (cleared now r)
cleared-IsConsistent now r t h = ground (arith, eq_iff now "")

acknowledged-IsConsistent :
    (now : String) (r : Row) → now ≢ "" → IsConsistent r → IsConsistent (acknowledged_row now r)
acknowledged-IsConsistent now r t h = ground (arith, eq_iff now "")

closed-IsConsistent :
    (now : String) (r : Row) → now ≢ "" → IsConsistent r → IsConsistent (closed_row now r)
closed-IsConsistent now r t h = ground (arith, eq_iff now "")

abbrev LeavesSound {ℓ} : {A : Type ℓ} → Table × A → Type 0
LeavesSound (db, answer) = IsSoundTable db.rows

update_where-IsSoundTable :
    (p : Row → Bool) (f : Row → Row) (rows : List Row)
    → KeepsKey f
    → ((r : Row) → IsConsistent r → IsConsistent (f r))
    → IsSoundTable rows
    → IsSoundTable (update_where p f rows)
update_where-IsSoundTable p f rows same step h = record {
  keys = update_where-Distinct p f rows same h.keys;
  consistent = update_where-All IsConsistent p f rows step h.consistent;
}

update_one-IsSoundTable :
    (k : String) (f : Row → Row) (db : Table)
    → KeepsKey f
    → ((r : Row) → IsConsistent r → IsConsistent (f r))
    → IsSoundTable db.rows
    → IsSoundTable (update_one k f db).0.rows
unfolding update_one
update_one-IsSoundTable k f db same step h =
    unless_fault-both LeavesSound db.fault _ _ (λ e. h)
      (either LeavesSound (any (has_fingerprint k) db.rows)
        (record db { rows = update_where (has_fingerprint k) f db.rows }, none) (db, some no_rows)
        (update_where-IsSoundTable (has_fingerprint k) f db.rows same step h) h)

upsert_each-IsSoundTable :
    (now : String) (alerts : List Alert) (rows : List Row)
    → IsSoundTable rows
    → IsSoundTable (upsert_each now alerts rows)
unfolding upsert_each
upsert_each-IsSoundTable now [] rows h = h
upsert_each-IsSoundTable now (a ∷ alerts) rows h =
    upsert_each-IsSoundTable now alerts (upsert_one now a rows) (record {
      keys = upsert_one-Distinct now a rows h.keys;
      consistent =
          upsert_one-All IsConsistent now a rows (record { active = refl; acknowledged = refl })
            (reported-IsConsistent now a) h.consistent;
    })

clear_unseen-IsSoundTable :
    (now : String) (alerts : List Alert) (listed rows : List Row)
    → now ≢ ""
    → IsSoundTable rows
    → IsSoundTable (clear_unseen now alerts listed rows)
unfolding clear_unseen
clear_unseen-IsSoundTable now alerts [] rows t h = h
clear_unseen-IsSoundTable now alerts (r ∷ listed) rows t h =
    clear_unseen-IsSoundTable now alerts listed _ t (
      either IsSoundTable (is_seen alerts r.alert.fingerprint) rows _ h (
        update_where-IsSoundTable (has_fingerprint r.alert.fingerprint) (cleared now) rows
          (λ s. refl) (λ s. cleared-IsConsistent now s t) h))

clear_listed-IsSoundTable :
    (now : String) (alerts : List Alert) (found : Result (List Row)) (db : Table)
    → now ≢ ""
    → IsSoundTable db.rows
    → IsSoundTable (clear_listed now alerts found db).0.rows
clear_listed-IsSoundTable now alerts (ok listed) db t h =
    clear_unseen-IsSoundTable now alerts listed db.rows t h
clear_listed-IsSoundTable now alerts (err e) db t h = h

upserted-IsSoundTable :
    (now later : String) (alerts : List Alert) (db : Table)
    → now ≢ ""
    → IsSoundTable db.rows
    → IsSoundTable (upserted now later alerts db).0.rows
upserted-IsSoundTable now later [] db t h =
    update_where-IsSoundTable (λ r. r.active) (cleared now) _ (λ s. refl)
      (λ s. cleared-IsConsistent now s t) h
upserted-IsSoundTable now later (a ∷ alerts) db t h =
    clear_listed-IsSoundTable now (a ∷ alerts) (alert_records later true true (pos 1000) db) db t h

report-IsSoundTable :
    (now later : String) (alerts : List Alert) (db : Table)
    → now ≢ ""
    → IsSoundTable db.rows
    → IsSoundTable (upsert_alert_records now later alerts db).0.rows
unfolding upsert_alert_records
report-IsSoundTable now later alerts db t h =
    unless_fault-both LeavesSound db.fault _ _ (λ e. h)
      (upserted-IsSoundTable now later alerts _ t (upsert_each-IsSoundTable now alerts db.rows h))

Step-IsSoundTable : (db db' : Table) → Step db db' → IsSoundTable db.rows → IsSoundTable db'.rows
unfolding acknowledge_alert suppress_alert close_alert delete_closed_alerts_before
Step-IsSoundTable _ _ (reports now later alerts db t) h =
    report-IsSoundTable now later alerts db t h
Step-IsSoundTable _ _ (acknowledges now f db t) h =
    update_one-IsSoundTable f (acknowledged_row now) db (λ r. refl)
      (λ r. acknowledged-IsConsistent now r t) h
Step-IsSoundTable _ _ (suppresses now until f db t) h =
    update_one-IsSoundTable f _ db (λ r. refl)
      (λ r c.
        let d = acknowledged-IsConsistent now r t c in
        record { active = d.active; acknowledged = d.acknowledged })
      h
Step-IsSoundTable _ _ (closes now f db t) h =
    update_one-IsSoundTable f (closed_row now) db (λ r. refl) (λ r. closed-IsConsistent now r t) h
Step-IsSoundTable _ _ (deletes cutoff db) h =
    unless_fault-both LeavesSound db.fault _ _ (λ e. h)
      (record {
        keys = keep-Distinct (λ r. not (is_old cutoff r)) db.rows h.keys;
        consistent = keep-All IsConsistent (λ r. not (is_old cutoff r)) db.rows h.consistent;
      })
Step-IsSoundTable _ _ (turns fault db) h = h

-- In every table that the operations reach from an empty one, at times that are not the empty
-- text, no fingerprint stands twice, a row is active exactly
-- if it has no time of clearing, and it is acknowledged exactly if it has a time of
-- acknowledgement.
pub Reach-IsSoundTable : (db : Table) → Reach db → IsSoundTable db.rows
Reach-IsSoundTable _ created = record { keys = tt; consistent = tt }
Reach-IsSoundTable _ (then_step db db' reach step) =
    Step-IsSoundTable db db' step (Reach-IsSoundTable db reach)
