-- ===== src/Alerts/Cleared.antt =====
-- A report and the alerts that it no longer names (UpsertAlertRecords of
-- agent/internal/storage/storage.go).
use infracheck_appliance.Base.{
  ◌+◌, ◌≤◌, String, Bool, true, false, ◌&&◌, ◌||◌, not, none, List, [], ◌∷◌, ◌≡◌, refl, ◌∙◌, ap,
  arith, All, any, keep, length, length-keep-le, eq_iff, eq_refl, inl, inr, Bool-cases,
}
use infracheck_appliance.Base.Int.{ℤ, pos}
use infracheck_appliance.Base.Result.{Result, ok, err}
use infracheck_appliance.Alerts.{
  Alert, Row, Table, has_fingerprint, upsert_each, update_where, sort_rows, clear_unseen,
  clear_listed, cleared, is_seen, is_listed, alert_records, upsert_alert_records, upserted,
}
use infracheck_appliance.Alerts.Rows.{holds_key}
use infracheck_appliance.Alerts.Listed.{
  alert_records-any, sort_rows-any, sort_rows-length, take-id, upsert_each-length,
}

module _ (now later : String) (alerts : List Alert) where
  -- A row that would be listed is of an alert reported, or is still to be cleared.
  abbrev Pending : List Row → Row → Type 0
  Pending listed r =
      (not (is_listed later true true r)
        || (is_seen alerts r.alert.fingerprint || holds_key r.alert.fingerprint listed))
      ≡ true

  abbrev IsReported : Row → Type 0
  IsReported r = (is_listed later true true r && not (is_seen alerts r.alert.fingerprint)) ≡ false

  seen-Pending :
      (l : Row) (listed rows : List Row)
      → is_seen alerts l.alert.fingerprint ≡ true
      → All (Pending (l ∷ listed)) rows
      → All (Pending listed) rows
  seen-Pending l listed [] s h = tt
  seen-Pending l listed (r ∷ rows) s h = (
    ground (arith, h.0, eq_iff l.alert.fingerprint r.alert.fingerprint),
    seen-Pending l listed rows s h.1,
  )

  cleared-Pending :
      (l : Row) (listed rows : List Row)
      → All (Pending (l ∷ listed)) rows
      → All (Pending listed) (update_where (has_fingerprint l.alert.fingerprint) (cleared now) rows)
  unfolding update_where
  cleared-Pending l listed [] h = tt
  cleared-Pending l listed (r ∷ rows) h = (
    ground (
      arith,
      h.0,
      eq_iff l.alert.fingerprint r.alert.fingerprint,
      eq_iff r.alert.fingerprint l.alert.fingerprint,
    ),
    cleared-Pending l listed rows h.1,
  )

  All-IsReported : (rows : List Row) → All (Pending []) rows → All IsReported rows
  All-IsReported [] h = tt
  All-IsReported (r ∷ rows) h = (ground (arith, h.0), All-IsReported rows h.1)

  clear_unseen-IsReported :
      (listed rows : List Row)
      → All (Pending listed) rows
      → All IsReported (clear_unseen now alerts listed rows)
  unfolding clear_unseen
  clear_unseen-IsReported [] rows h = All-IsReported rows h
  clear_unseen-IsReported (l ∷ listed) rows h =
      elim (Bool-cases (is_seen alerts l.alert.fingerprint)) [
        | inl seen ↦
            rw seen (clear_unseen-IsReported listed rows (seen-Pending l listed rows seen h))
        | inr unseen ↦
            rw unseen (clear_unseen-IsReported listed _ (cleared-Pending l listed rows h))
      ]

  -- The listing that the loop starts from, in full.
  shown : List Row → List Row
  shown rows = sort_rows (keep (is_listed later true true) rows)

  shown-Pending :
      (all rows : List Row)
      → ((k : String)
          → holds_key k (keep (is_listed later true true) rows) ≡ true
          → holds_key k (shown all) ≡ true)
      → All (Pending (shown all)) rows
  shown-Pending all [] sub = tt
  shown-Pending all (r ∷ rows) sub = (
    ground (arith, sub r.alert.fingerprint, eq_refl r.alert.fingerprint),
    shown-Pending all rows (λ k held. sub k (ground (arith, held))),
  )

  shown_self : (rows : List Row) → All (Pending (shown rows)) rows
  unfolding shown sort_rows
  shown_self rows =
      shown-Pending rows rows
        (λ k held. sort_rows-any (has_fingerprint k) (keep (is_listed later true true) rows) ∙ held)

  listed-shown :
      (db : Table)
      → db.fault ≡ none
      → length db.rows ≤ 1000
      → alert_records later true true (pos 1000) db ≡ ok (shown db.rows)
  unfolding alert_records shown
  listed-shown db up few = rw up (
      ap ok (
        take-id 1000 (sort_rows (keep (is_listed later true true) db.rows)) (
          omega (
            arith,
            few,
            sort_rows-length (keep (is_listed later true true) db.rows),
            length-keep-le (is_listed later true true) db.rows,
          ))))

  cleared-IsReported :
      (rows : List Row) → All IsReported (update_where (λ r. r.active) (cleared now) rows)
  unfolding update_where
  cleared-IsReported [] = tt
  cleared-IsReported (r ∷ rows) = (ground arith, cleared-IsReported rows)

upserted-IsReported :
    (now later : String) (alerts : List Alert) (db : Table)
    → db.fault ≡ none
    → length db.rows ≤ 1000
    → All (IsReported now later alerts) (upserted now later alerts db).0.rows
upserted-IsReported now later [] db up few = cleared-IsReported now later [] db.rows
upserted-IsReported now later (a ∷ alerts) db up few =
    rw (listed-shown now later (a ∷ alerts) db up few) (
      clear_unseen-IsReported now later (a ∷ alerts) (shown now later (a ∷ alerts) db.rows) db.rows
        (shown_self now later (a ∷ alerts) db.rows))

upsert-IsReported :
    (now later : String) (alerts : List Alert) (db : Table)
    → db.fault ≡ none
    → length db.rows + length alerts ≤ 1000
    → All (IsReported now later alerts) (upsert_alert_records now later alerts db).0.rows
unfolding upsert_alert_records
upsert-IsReported now later alerts db up few = rw up (
    upserted-IsReported now later alerts
      (record { rows = upsert_each now alerts db.rows; fault = none }) refl
      (omega (arith, few, upsert_each-length now alerts db.rows)))

clear_listed-fault :
    (now : String) (alerts : List Alert) (found : Result (List Row)) (db : Table)
    → (clear_listed now alerts found db).0.fault ≡ db.fault
clear_listed-fault now alerts (ok listed) db = refl
clear_listed-fault now alerts (err e) db = refl

upserted-fault :
    (now later : String) (alerts : List Alert) (db : Table)
    → (upserted now later alerts db).0.fault ≡ db.fault
upserted-fault now later [] db = refl
upserted-fault now later (a ∷ alerts) db =
    clear_listed-fault now (a ∷ alerts) (alert_records later true true (pos 1000) db) db

upsert-fault :
    (now later : String) (alerts : List Alert) (db : Table) (rows : List Row)
    (include_acknowledged : Bool) (limit : ℤ)
    → alert_records later true include_acknowledged limit
        (upsert_alert_records now later alerts db).0
      ≡ ok rows
    → db.fault ≡ none
unfolding upsert_alert_records alert_records
upsert-fault now later alerts db rows include_acknowledged limit listed =
    ground
      (arith, upserted-fault now later alerts (record db { rows = upsert_each now alerts db.rows }))

All-weaker :
    (now later : String) (alerts : List Alert) (include_acknowledged : Bool) (rows : List Row)
    → All (IsReported now later alerts) rows
    → All
        (λ r.
          (is_listed later true include_acknowledged r && not (is_seen alerts r.alert.fingerprint))
          ≡ false)
        rows
All-weaker now later alerts include_acknowledged [] h = tt
All-weaker now later alerts include_acknowledged (r ∷ rows) h =
    (ground (arith, h.0), All-weaker now later alerts include_acknowledged rows h.1)

-- While the table stays within 1000 rows, a listing of the active alerts right after a report shows
-- no alert that the report did not name.
pub alert_records-upsert :
    (now later : String) (alerts : List Alert) (db : Table) (rows : List Row)
    (include_acknowledged : Bool) (limit : ℤ)
    → length db.rows + length alerts ≤ 1000
    → alert_records later true include_acknowledged limit
        (upsert_alert_records now later alerts db).0
      ≡ ok rows
    → any (λ r. not (is_seen alerts r.alert.fingerprint)) rows ≡ false
alert_records-upsert now later alerts db rows include_acknowledged limit few listed =
    alert_records-any (λ r. not (is_seen alerts r.alert.fingerprint)) later true
      include_acknowledged limit (upsert_alert_records now later alerts db).0 rows
      (All-weaker now later alerts include_acknowledged _ (
        upsert-IsReported now later alerts db
          (upsert-fault now later alerts db rows include_acknowledged limit listed) few))
      listed
