-- ===== src/Alerts/Listed.antt =====
-- What a listing of the alerts shows (AlertRecords of agent/internal/storage/storage.go).
use infracheck_appliance.Base.{
  ℕ, zero, suc, ◌+◌, ◌≤◌, String, Bool, false, ◌&&◌, ◌||◌, Option, none, some, List, [], ◌∷◌, ◌≡◌,
  refl, ◌∙◌, arith, All, any, keep, take, length,
}
use infracheck_appliance.Base.Int.{ℤ}
use infracheck_appliance.Base.Result.{ok, err}
use infracheck_appliance.Alerts.{
  Alert, Row, Table, upsert_one, upsert_each, put_row, sort_rows, is_listed, alert_records, limited,
  unless_fault,
}

module _ (p : Row → Bool) where
  put_row-any : (r : Row) (rows : List Row) → any p (put_row r rows) ≡ (p r || any p rows)
  unfolding put_row
  put_row-any r [] = refl
  put_row-any r (s ∷ rows) = ground (arith, put_row-any r rows)

  pub sort_rows-any : (rows : List Row) → any p (sort_rows rows) ≡ any p rows
  unfolding sort_rows put_row
  sort_rows-any [] = refl
  sort_rows-any (r ∷ rows) = ground (arith, put_row-any r (sort_rows rows), sort_rows-any rows)

  take-any : (n : ℕ) (rows : List Row) → any p rows ≡ false → any p (take n rows) ≡ false
  take-any zero rows h = refl
  take-any (suc n) [] h = refl
  take-any (suc n) (r ∷ rows) h = ground (arith, take-any n rows)

  keep-any :
      (q : Row → Bool) (rows : List Row)
      → All (λ r. (q r && p r) ≡ false) rows
      → any p (keep q rows) ≡ false
  keep-any q [] h = refl
  keep-any q (r ∷ rows) h = ground (arith, keep-any q rows h.1, h.0)

  listing-any :
      (fault : Option String) (n : ℕ) (sorted rows : List Row)
      → any p sorted ≡ false
      → unless_fault fault err (ok (take n sorted)) ≡ ok rows
      → any p rows ≡ false
  listing-any (some e) n sorted rows h listed = ground arith
  listing-any none n sorted rows h listed = ground (arith, take-any n sorted h)

  -- Where no row is both listed and such that `p`, the listing has none with `p`.
  pub alert_records-any :
      (now : String) (active_only include_acknowledged : Bool) (limit : ℤ) (db : Table)
      (rows : List Row)
      → All (λ r. (is_listed now active_only include_acknowledged r && p r) ≡ false) db.rows
      → alert_records now active_only include_acknowledged limit db ≡ ok rows
      → any p rows ≡ false
  unfolding alert_records
  alert_records-any now active_only include_acknowledged limit db rows h listed =
      listing-any db.fault (limited limit) _ rows
        (sort_rows-any (keep (is_listed now active_only include_acknowledged) db.rows)
          ∙ keep-any (is_listed now active_only include_acknowledged) db.rows h)
        listed

put_row-length : (r : Row) (rows : List Row) → length (put_row r rows) ≡ suc (length rows)
unfolding put_row
put_row-length r [] = refl
put_row-length r (s ∷ rows) = ground (arith, put_row-length r rows)

pub sort_rows-length : (rows : List Row) → length (sort_rows rows) ≡ length rows
unfolding sort_rows
sort_rows-length [] = refl
sort_rows-length (r ∷ rows) =
    ground (arith, put_row-length r (sort_rows rows), sort_rows-length rows)

pub take-id : (n : ℕ) (rows : List Row) → length rows ≤ n → take n rows ≡ rows
take-id zero [] h = refl
take-id zero (r ∷ rows) h = ground arith
take-id (suc n) [] h = refl
take-id (suc n) (r ∷ rows) h = ground (arith, take-id n rows)

upsert_one-length :
    (now : String) (a : Alert) (rows : List Row)
    → length (upsert_one now a rows) ≤ suc (length rows)
unfolding upsert_one
upsert_one-length now a [] = omega arith
upsert_one-length now a (r ∷ rows) = ground (arith, upsert_one-length now a rows)

pub upsert_each-length :
    (now : String) (alerts : List Alert) (rows : List Row)
    → length (upsert_each now alerts rows) ≤ length rows + length alerts
unfolding upsert_each
upsert_each-length now [] rows = omega arith
upsert_each-length now (a ∷ alerts) rows =
    omega
      (arith, upsert_each-length now alerts (upsert_one now a rows), upsert_one-length now a rows)
