-- ===== src/Alerts/Hidden.antt =====
-- The run of the store after an alert was suppressed or closed: its time of suppression, and the
-- listing of active alerts (agent/internal/storage/storage.go).
use infracheck_appliance.Base.{
  String, Bool, true, false, ◌&&◌, Option, none, some, List, [], ◌∷◌, ◌≡◌, ◌≢◌, ◌⊎◌, inl, inr, refl,
  ◌∙◌, arith, All, any, if◌then◌else◌, str_eq, eq_iff, either, Bool-cases,
}
use infracheck_appliance.Base.Int.{ℤ, pos}
use infracheck_appliance.Base.Text.{text_lt}
use infracheck_appliance.Base.Result.{Result, ok, err}
use infracheck_appliance.Alerts.{
  Alert, Row, Table, has_fingerprint, upsert_one, upsert_each, update_where, update_one,
  clear_unseen, clear_listed, cleared, is_seen, is_listed, alert_records, upsert_alert_records,
  upserted, acknowledge_alert, suppress_alert, close_alert, acknowledged_row, closed_row, no_rows,
  end_of_time,
}
use infracheck_appliance.Alerts.Rows.{
  holds_key, KeepsKey, update_where-key, upsert_one-key, unless_fault-both,
}
use infracheck_appliance.Alerts.Listed.{alert_records-any}

-- An update that answered no error found the fingerprint.
update_one-done :
    (g : String) (change : Row → Row) (db : Table)
    → (update_one g change db).1 ≡ none
    → (holds_key g db.rows ≡ true)
      × ((update_one g change db).0
          ≡ record db { rows = update_where (has_fingerprint g) change db.rows })
unfolding update_one
update_one-done g change db done = ground arith

module _ (f until : String) where
  -- An operation that neither suppresses or closes the alert `f` nor deletes rows.
  pub data Quiet : Table → Table → Type 0 where
    reports :
        (now later : String) (alerts : List Alert) (db : Table)
        → Quiet db (upsert_alert_records now later alerts db).0
    acknowledges : (now g : String) (db : Table) → Quiet db (acknowledge_alert now g db).0
    suppresses :
        (now time g : String) (db : Table) → g ≢ f → Quiet db (suppress_alert now time g db).0
    closes : (now g : String) (db : Table) → g ≢ f → Quiet db (close_alert now g db).0
    turns : (fault : Option String) (db : Table) → Quiet db (record db { fault = fault })

  pub data QuietRun (db : Table) : Table → Type 0 where
    nothing : QuietRun db db
    then_quiet : (db' db'' : Table) → QuietRun db db' → Quiet db' db'' → QuietRun db db''

  abbrev IsHeld : Row → Type 0
  IsHeld r = (str_eq r.alert.fingerprint f ≡ false) ⊎ (r.suppressed_until ≡ until)

  pub record HoldsUntil (rows : List Row) : Type 0 where
    pub key : holds_key f rows ≡ true
    pub held : All IsHeld rows

  abbrev LeavesHeld {ℓ} : {A : Type ℓ} → Table × A → Type 0
  LeavesHeld (db, answer) = HoldsUntil db.rows

  upsert_one-IsHeld :
      (now : String) (a : Alert) (rows : List Row)
      → (str_eq a.fingerprint f ≡ false) ⊎ (holds_key f rows ≡ true)
      → All IsHeld rows
      → All IsHeld (upsert_one now a rows)
  unfolding upsert_one
  upsert_one-IsHeld now a [] new h = (ground arith, tt)
  upsert_one-IsHeld now a (r ∷ rows) new h = elim (Bool-cases (has_fingerprint a.fingerprint r)) [
    | inl same ↦ rw same (ground (arith, h.0), h.1)
    | inr other ↦ rw other (
      h.0,
      upsert_one-IsHeld now a rows
          (ground (
            arith,
            new,
            other,
            eq_iff a.fingerprint f,
            eq_iff r.alert.fingerprint f,
            eq_iff r.alert.fingerprint a.fingerprint,
          ))
          h.1,
    )
  ]

  update_where-IsHeld :
      (p : Row → Bool) (g : Row → Row) (rows : List Row)
      → ((r : Row) → IsHeld r → IsHeld (if p r then g r else r))
      → All IsHeld rows
      → All IsHeld (update_where p g rows)
  unfolding update_where
  update_where-IsHeld p g [] step h = tt
  update_where-IsHeld p g (r ∷ rows) step h = (step r h.0, update_where-IsHeld p g rows step h.1)

  update_where-HoldsUntil :
      (p : Row → Bool) (g : Row → Row) (rows : List Row)
      → KeepsKey g
      → ((r : Row) → IsHeld r → IsHeld (if p r then g r else r))
      → HoldsUntil rows
      → HoldsUntil (update_where p g rows)
  update_where-HoldsUntil p g rows same step h = record {
    key = update_where-key p g f rows same ∙ h.key;
    held = update_where-IsHeld p g rows step h.held;
  }

  upsert_each-HoldsUntil :
      (now : String) (alerts : List Alert) (rows : List Row)
      → HoldsUntil rows
      → HoldsUntil (upsert_each now alerts rows)
  unfolding upsert_each
  upsert_each-HoldsUntil now [] rows h = h
  upsert_each-HoldsUntil now (a ∷ alerts) rows h =
      upsert_each-HoldsUntil now alerts (upsert_one now a rows) (record {
        key = ground (arith, upsert_one-key now f a rows, h.key);
        held = upsert_one-IsHeld now a rows (inr h.key) h.held;
      })

  clear_unseen-HoldsUntil :
      (now : String) (alerts : List Alert) (listed rows : List Row)
      → HoldsUntil rows
      → HoldsUntil (clear_unseen now alerts listed rows)
  unfolding clear_unseen
  clear_unseen-HoldsUntil now alerts [] rows h = h
  clear_unseen-HoldsUntil now alerts (r ∷ listed) rows h =
      clear_unseen-HoldsUntil now alerts listed _ (
        either HoldsUntil (is_seen alerts r.alert.fingerprint) rows _ h (
          update_where-HoldsUntil (has_fingerprint r.alert.fingerprint) (cleared now) rows
            (λ s. refl)
            (λ s k. either IsHeld (has_fingerprint r.alert.fingerprint s) (cleared now s) s k k) h))

  clear_listed-HoldsUntil :
      (now : String) (alerts : List Alert) (found : Result (List Row)) (db : Table)
      → HoldsUntil db.rows
      → LeavesHeld (clear_listed now alerts found db)
  clear_listed-HoldsUntil now alerts (ok listed) db h =
      clear_unseen-HoldsUntil now alerts listed db.rows h
  clear_listed-HoldsUntil now alerts (err e) db h = h

  upserted-HoldsUntil :
      (now later : String) (alerts : List Alert) (db : Table)
      → HoldsUntil db.rows
      → LeavesHeld (upserted now later alerts db)
  upserted-HoldsUntil now later [] db h =
      update_where-HoldsUntil (λ r. r.active) (cleared now) db.rows (λ r. refl)
        (λ r k. either IsHeld r.active (cleared now r) r k k) h
  upserted-HoldsUntil now later (a ∷ alerts) db h =
      clear_listed-HoldsUntil now (a ∷ alerts) (alert_records later true true (pos 1000) db) db h

  update_one-HoldsUntil :
      (g : String) (change : Row → Row) (db : Table)
      → KeepsKey change
      → ((r : Row) → IsHeld r → IsHeld (if has_fingerprint g r then change r else r))
      → HoldsUntil db.rows
      → LeavesHeld (update_one g change db)
  unfolding update_one
  update_one-HoldsUntil g change db same step h =
      unless_fault-both LeavesHeld db.fault _ _ (λ e. h)
        (either LeavesHeld (any (has_fingerprint g) db.rows)
          (record db { rows = update_where (has_fingerprint g) change db.rows }, none)
          (db, some no_rows)
          (update_where-HoldsUntil (has_fingerprint g) change db.rows same step h) h)

  -- A change of a row of another alert.
  other-IsHeld :
      (g : String) (change : Row → Row)
      → KeepsKey change
      → g ≢ f
      → (r : Row) → IsHeld r
      → IsHeld (if has_fingerprint g r then change r else r)
  other-IsHeld g change same other r h =
      ground
        (arith, same r, h, eq_iff r.alert.fingerprint g, eq_iff r.alert.fingerprint f, eq_iff g f)

  Quiet-HoldsUntil : (db db' : Table) → Quiet db db' → HoldsUntil db.rows → HoldsUntil db'.rows
  unfolding upsert_alert_records acknowledge_alert suppress_alert close_alert
  Quiet-HoldsUntil _ _ (reports now later alerts db) h =
      unless_fault-both LeavesHeld db.fault _ _ (λ e. h)
        (upserted-HoldsUntil now later alerts _ (upsert_each-HoldsUntil now alerts db.rows h))
  Quiet-HoldsUntil _ _ (acknowledges now g db) h =
      update_one-HoldsUntil g (acknowledged_row now) db (λ r. refl)
        (λ r k. either IsHeld (has_fingerprint g r) (acknowledged_row now r) r k k) h
  Quiet-HoldsUntil _ _ (suppresses now time g db other) h =
      update_one-HoldsUntil g _ db (λ r. refl) (other-IsHeld g _ (λ r. refl) other) h
  Quiet-HoldsUntil _ _ (closes now g db other) h =
      update_one-HoldsUntil g _ db (λ r. refl) (other-IsHeld g _ (λ r. refl) other) h
  Quiet-HoldsUntil _ _ (turns fault db) h = h

  pub QuietRun-HoldsUntil :
      (db db' : Table) → QuietRun db db' → HoldsUntil db.rows → HoldsUntil db'.rows
  QuietRun-HoldsUntil db _ nothing h = h
  QuietRun-HoldsUntil db _ (then_quiet db' db'' run step) h =
      Quiet-HoldsUntil db' db'' step (QuietRun-HoldsUntil db db' run h)

  suppressed-IsHeld :
      (now : String) (rows : List Row)
      → All IsHeld (
          update_where
            (has_fingerprint f)
            (λ r. record (acknowledged_row now r) { suppressed_until = until })
            rows)
  unfolding update_where
  suppressed-IsHeld now [] = tt
  suppressed-IsHeld now (r ∷ rows) = (ground arith, suppressed-IsHeld now rows)

  closed-IsHeld :
      (now : String) (rows : List Row)
      → until ≡ end_of_time
      → All IsHeld (update_where (has_fingerprint f) (closed_row now) rows)
  unfolding update_where
  closed-IsHeld now [] last = tt
  closed-IsHeld now (r ∷ rows) last = (ground arith, closed-IsHeld now rows last)

  pub held-unlisted :
      (now : String) (include_acknowledged : Bool) (rows : List Row)
      → until ≢ ""
      → text_lt now until ≡ true
      → All IsHeld rows
      → All (λ r. (is_listed now true include_acknowledged r && has_fingerprint f r) ≡ false) rows
  held-unlisted now include_acknowledged [] some_time before h = tt
  held-unlisted now include_acknowledged (r ∷ rows) some_time before h = (
    ground (arith, h.0, eq_iff until ""),
    held-unlisted now include_acknowledged rows some_time before h.1,
  )

  suppress-HoldsUntil :
      (now : String) (db : Table)
      → (suppress_alert now until f db).1 ≡ none
      → HoldsUntil (suppress_alert now until f db).0.rows
  unfolding suppress_alert
  suppress-HoldsUntil now db done =
      let (key, after) = update_one-done f _ db done in
      rw after (record {
        key = update_where-key (has_fingerprint f) _ f db.rows (λ r. refl) ∙ key;
        held = suppressed-IsHeld now db.rows;
      })

  pub close-HoldsUntil :
      (now : String) (db : Table)
      → until ≡ end_of_time
      → (close_alert now f db).1 ≡ none
      → HoldsUntil (close_alert now f db).0.rows
  unfolding close_alert
  close-HoldsUntil now db last done =
      let (key, after) = update_one-done f (closed_row now) db done in
      rw after (record {
        key = update_where-key (has_fingerprint f) (closed_row now) f db.rows (λ r. refl) ∙ key;
        held = closed-IsHeld now db.rows last;
      })

  -- After an alert was suppressed until some time, and after any further operations but a
  -- suppression or a closing of the same alert and the deletion of old rows, no listing of the
  -- active alerts before that time shows it.
  pub suppress_alert-hides :
      (now t : String) (db db' : Table) (rows : List Row) (include_acknowledged : Bool) (limit : ℤ)
      → (suppress_alert now until f db).1 ≡ none
      → QuietRun (suppress_alert now until f db).0 db'
      → until ≢ ""
      → text_lt t until ≡ true
      → alert_records t true include_acknowledged limit db' ≡ ok rows
      → any (has_fingerprint f) rows ≡ false
  suppress_alert-hides now t db db' rows include_acknowledged limit done run some_time before
        listed =
      alert_records-any (has_fingerprint f) t true include_acknowledged limit db' rows
        (held-unlisted t include_acknowledged db'.rows some_time before
          (QuietRun-HoldsUntil _ db' run (suppress-HoldsUntil now db done)).held)
        listed
