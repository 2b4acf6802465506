-- ===== src/Devices/Rows.antt =====
-- The keys and the numbers of the rows (agent/internal/storage/storage.go).
use infracheck_appliance.Base.{
  ℕ, suc, ◌<◌, ◌≤◌, String, Bool, false, List, [], ◌∷◌, ◌≡◌, ◌≢◌, refl, arith, All, any, length,
  eq_iff, ◌==◌,
}
use infracheck_appliance.Base.Distinct.{DistinctBy}
use infracheck_appliance.Devices.{DeviceRow, update_rows, has_key}

abbrev pub same_key : DeviceRow → DeviceRow → Bool
same_key r s = has_key r.site_id r.mac s

abbrev pub same_id : DeviceRow → DeviceRow → Bool
same_id r s = r.id == s.id

-- A change that leaves a row's number, site and MAC, keeps it counted, and does not count it down.
pub record KeepsRow (f : DeviceRow → DeviceRow) : Type 0 where
  pub id : (r : DeviceRow) → (f r).id ≡ r.id
  pub site_id : (r : DeviceRow) → (f r).site_id ≡ r.site_id
  pub mac : (r : DeviceRow) → (f r).mac ≡ r.mac
  pub seen_count : (r : DeviceRow) → r.seen_count ≤ (f r).seen_count

module _ (p : DeviceRow → Bool) (f : DeviceRow → DeviceRow) (k : KeepsRow f) where
  pub update_rows-key :
      (site mac : String) (rows : List DeviceRow)
      → any (has_key site mac) (update_rows p f rows) ≡ any (has_key site mac) rows
  unfolding update_rows
  update_rows-key site mac [] = refl
  update_rows-key site mac (r ∷ rows) =
      ground (arith, k.site_id r, k.mac r, update_rows-key site mac rows)

  update_rows-id :
      (x : DeviceRow) (rows : List DeviceRow)
      → any (same_id x) (update_rows p f rows) ≡ any (same_id x) rows
  unfolding update_rows
  update_rows-id x [] = refl
  update_rows-id x (r ∷ rows) = ground (arith, k.id r, update_rows-id x rows)

  pub update_rows-keys :
      (rows : List DeviceRow)
      → DistinctBy same_key rows
      → DistinctBy same_key (update_rows p f rows)
  unfolding update_rows
  update_rows-keys [] d = tt
  update_rows-keys (r ∷ rows) d =
      ground (
        arith,
        k.site_id r,
        k.mac r,
        update_rows-key r.site_id r.mac rows,
        update_rows-keys rows d.1,
      )

  pub update_rows-ids :
      (rows : List DeviceRow) → DistinctBy same_id rows → DistinctBy same_id (update_rows p f rows)
  unfolding update_rows
  update_rows-ids [] d = tt
  update_rows-ids (r ∷ rows) d =
      ground (arith, k.id r, update_rows-id r rows, update_rows-ids rows d.1)

-- A row that has a key, has been seen, and has a number that was given out.
pub record IsCounted (next : ℕ) (r : DeviceRow) : Type 0 where
  pub mac : r.mac ≢ ""
  pub seen : 0 < r.seen_count
  pub id : r.id < next

pub update_rows-IsCounted :
    (next : ℕ) (p : DeviceRow → Bool) (f : DeviceRow → DeviceRow) (rows : List DeviceRow)
    → KeepsRow f
    → All (IsCounted next) rows
    → All (IsCounted next) (update_rows p f rows)
unfolding update_rows
update_rows-IsCounted next p f [] k h = tt
update_rows-IsCounted next p f (r ∷ rows) k h = (
  ground (arith, h.0.mac, h.0.seen, h.0.id, k.id r, k.mac r, k.seen_count r, eq_iff r.mac ""),
  update_rows-IsCounted next p f rows k h.1,
)

pub IsCounted-suc :
    (next : ℕ) (rows : List DeviceRow) → All (IsCounted next) rows → All (IsCounted (suc next)) rows
IsCounted-suc next [] h = tt
IsCounted-suc next (r ∷ rows) h = (
  record { mac = h.0.mac; seen = h.0.seen; id = omega (arith, h.0.id) },
  IsCounted-suc next rows h.1,
)

pub update_rows-length :
    (p : DeviceRow → Bool) (f : DeviceRow → DeviceRow) (rows : List DeviceRow)
    → length (update_rows p f rows) ≡ length rows
unfolding update_rows
update_rows-length p f [] = refl
update_rows-length p f (r ∷ rows) = omega (arith, update_rows-length p f rows)

-- No row has the key of a new one, and none its number.
pub fresh-key :
    (site mac : String) (r : DeviceRow) (rows : List DeviceRow)
    → r.site_id ≡ site
    → r.mac ≡ mac
    → any (has_key site mac) rows ≡ false
    → All (λ s. same_key s r ≡ false) rows
fresh-key site mac r [] e m h = tt
fresh-key site mac r (s ∷ rows) e m h = (
  ground (
    arith,
    e,
    m,
    h,
    eq_iff r.site_id s.site_id,
    eq_iff s.site_id site,
    eq_iff r.mac s.mac,
    eq_iff s.mac mac,
  ),
  fresh-key site mac r rows e m (ground (arith, h)),
)

pub fresh-id :
    (next : ℕ) (r : DeviceRow) (rows : List DeviceRow)
    → r.id ≡ next
    → All (IsCounted next) rows
    → All (λ s. same_id s r ≡ false) rows
fresh-id next r [] e h = tt
fresh-id next r (s ∷ rows) e h = (ground (arith, e, h.0.id), fresh-id next r rows e h.1)
