-- ===== src/Devices/Found.antt =====
-- What the upsert of discovered devices leaves (agent/internal/storage/storage.go).
use infracheck_appliance.Base.{
  ℕ, ◌+◌, String, Bool, true, ◌||◌, Option, none, some, List, [], ◌∷◌, ◌≡◌, refl, arith, All, any,
  any-append, length, length-append, eq_refl, Bool-cases, inl, inr,
}
use infracheck_appliance.Base.Result.{unless_fault-none}
use infracheck_appliance.Devices.{
  DeviceRow, Inventory, storage_mac, has_key, inserted, seen_again, upsert_device,
  upsert_each_device, upsert_devices, no_key, all_skipped,
}
use infracheck_appliance.Devices.Rows.{KeepsRow, update_rows-key, update_rows-length}

seen_again-KeepsRow : (d : DeviceRow) → KeepsRow (seen_again d)
seen_again-KeepsRow d = record {
  id = λ r. refl;
  site_id = λ r. refl;
  mac = λ r. refl;
  seen_count = λ r. omega arith;
}

upsert_device-length :
    (d : DeviceRow) (db : Inventory) (count : ℕ)
    → length (upsert_device d (db, count)).0.rows + count
      ≡ length db.rows + (upsert_device d (db, count)).1
unfolding upsert_device
upsert_device-length d db count = ground (
  arith,
  update_rows-length (has_key d.site_id (storage_mac d)) (seen_again d) db.rows,
  length-append db.rows (inserted db.next_id (storage_mac d) d ∷ []),
)

-- The keys that have a row keep it, and the device's key has one.
abbrev has_row : String → String → Inventory → Bool
has_row site mac db = any (has_key site mac) db.rows

upsert_device-keeps :
    (site mac : String) (d : DeviceRow) (state : Inventory × ℕ)
    → has_row site mac state.0 ≡ true
    → has_row site mac (upsert_device d state).0 ≡ true
unfolding upsert_device
upsert_device-keeps site mac d (db, count) h = ground (
  arith,
  h,
  update_rows-key (has_key d.site_id (storage_mac d)) (seen_again d) (seen_again-KeepsRow d) site
      mac db.rows,
  any-append (has_key site mac) db.rows (inserted db.next_id (storage_mac d) d ∷ []),
)

upsert_device-has_row :
    (d : DeviceRow) (state : Inventory × ℕ)
    → (no_key d || has_row d.site_id (storage_mac d) (upsert_device d state).0) ≡ true
unfolding upsert_device
upsert_device-has_row d (db, count) = ground (
  arith,
  update_rows-key (has_key d.site_id (storage_mac d)) (seen_again d) (seen_again-KeepsRow d)
      d.site_id (storage_mac d) db.rows,
  any-append (has_key d.site_id (storage_mac d)) db.rows
      (inserted db.next_id (storage_mac d) d ∷ []),
  eq_refl d.site_id,
  eq_refl (storage_mac d),
)

upsert_each-length :
    (ds : List DeviceRow) (state : Inventory × ℕ)
    → length (upsert_each_device ds state).0.rows + state.1
      ≡ length state.0.rows + (upsert_each_device ds state).1
unfolding upsert_each_device
upsert_each-length [] state = omega arith
upsert_each-length (d ∷ ds) state =
    omega
      (arith, upsert_each-length ds (upsert_device d state), upsert_device-length d state.0 state.1)

upsert_each-keeps :
    (site mac : String) (ds : List DeviceRow) (state : Inventory × ℕ)
    → has_row site mac state.0 ≡ true
    → has_row site mac (upsert_each_device ds state).0 ≡ true
unfolding upsert_each_device
upsert_each-keeps site mac [] state h = h
upsert_each-keeps site mac (d ∷ ds) state h =
    upsert_each-keeps site mac ds (upsert_device d state) (upsert_device-keeps site mac d state h)

abbrev pub is_stored : Inventory → DeviceRow → Bool
is_stored db d = no_key d || has_row d.site_id (storage_mac d) db

upsert_each-stored :
    (ds : List DeviceRow) (state : Inventory × ℕ)
    → All (λ d. is_stored (upsert_each_device ds state).0 d ≡ true) ds
unfolding upsert_each_device
upsert_each-stored [] state = tt
upsert_each-stored (d ∷ ds) state = (
  elim (Bool-cases (no_key d)) [
    | inl skipped ↦ rw skipped refl
    | inr keyed ↦ ground (
      arith,
      keyed,
      upsert_device-has_row d state,
      upsert_each-keeps d.site_id (storage_mac d) ds (upsert_device d state),
    )
  ],
  upsert_each-stored ds (upsert_device d state),
)

skipped-stored :
    (db : Inventory) (ds : List DeviceRow)
    → all_skipped ds ≡ true
    → All (λ d. is_stored db d ≡ true) ds
skipped-stored db [] h = tt
skipped-stored db (d ∷ ds) h = (ground (arith, h), skipped-stored db ds (ground (arith, h)))

abbrev Stored : List DeviceRow → Inventory → Inventory × ℕ × Option String → Type 0
Stored ds db r =
    (r.2 ≡ none) × (length r.0.rows ≡ length db.rows + r.1) × All (λ d. is_stored r.0 d ≡ true) ds

-- Where the database answers no error, the upsert answers none, adds exactly as many rows as it says,
-- and afterwards every device of the list that has a MAC or an address has a row of its site and key.
pub upsert_devices-stored :
    (ds : List DeviceRow) (db : Inventory)
    → db.fault ≡ none
    → ((upsert_devices ds db).2 ≡ none)
      × (length (upsert_devices ds db).0.rows ≡ length db.rows + (upsert_devices ds db).1)
      × All (λ d. is_stored (upsert_devices ds db).0 d ≡ true) ds
unfolding upsert_devices
upsert_devices-stored ds db works = elim (Bool-cases (all_skipped ds)) [
  | inl skipped ↦ rw skipped (refl, omega arith, skipped-stored db ds skipped)
  | inr keyed ↦ rw keyed (
      unless_fault-none (Stored ds db) db.fault (λ e. (db, 0, some e)) _ works
        (refl, omega (arith, upsert_each-length ds (db, 0)), upsert_each-stored ds (db, 0)))
]
