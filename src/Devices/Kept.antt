-- ===== src/Devices/Kept.antt =====
-- What each statement of the inventory leaves as it must be (agent/internal/storage/storage.go).
use infracheck_appliance.Base.{
  ℕ, suc, String, Bool, false, Option, List, [], ◌∷◌, ◌++◌, ◌≡◌, refl, arith, All, All-append, any,
  str_eq, eq_iff, either, Bool-cases, inl, inr,
}
use infracheck_appliance.Base.Distinct.{replace-DistinctBy, DistinctBy, DistinctBy-snoc}
use infracheck_appliance.Base.Result.{Result, ok, err, unless_fault-both}
use infracheck_appliance.Devices.{
  DeviceRow, Intelligence, Expectation, DeviceEvent, Device, Inventory, update_rows, storage_mac,
  has_key, inserted, seen_again, upsert_device, upsert_each_device, upsert_devices,
}
use infracheck_appliance.Devices.Select.{update_by_id, has_id, device}
use infracheck_appliance.Devices.Records.{
  expects_same, classifies_same, put_expectation, put_intelligence, stored_intelligence,
  with_events, has_ip, upsert_device_expectation, update_device_identity_by_ip,
}
use infracheck_appliance.Devices.Rows.{
  same_key, same_id, KeepsRow, IsCounted, update_rows-keys, update_rows-ids, update_rows-IsCounted,
  IsCounted-suc, fresh-key, fresh-id,
}

-- No site and key stand twice, no number stands twice, every row has a key, has been seen, and has
-- a number that was given out; and what is stored beside a device stands once.
pub record IsInventory (db : Inventory) : Type 0 where
  pub keys : DistinctBy same_key db.rows
  pub ids : DistinctBy same_id db.rows
  pub counted : All (IsCounted db.next_id) db.rows
  pub expectations : DistinctBy expects_same db.expectations
  pub intelligence : DistinctBy classifies_same db.intelligence

abbrev pub LeavesInventory {ℓ} : {A : Type ℓ} → Inventory × A → Type 0
LeavesInventory (db, answer) = IsInventory db

abbrev LeavesCounted : Inventory × ℕ × Option String → Type 0
LeavesCounted s = IsInventory s.0

abbrev with_rows : (DeviceRow → Bool) → (DeviceRow → DeviceRow) → Inventory → Inventory
with_rows p f db = record db { rows = update_rows p f db.rows }

pub with_rows-IsInventory :
    (p : DeviceRow → Bool) (f : DeviceRow → DeviceRow) (db : Inventory)
    → KeepsRow f
    → IsInventory db
    → IsInventory (with_rows p f db)
with_rows-IsInventory p f db k h = record {
  keys = update_rows-keys p f k db.rows h.keys;
  ids = update_rows-ids p f k db.rows h.ids;
  counted = update_rows-IsCounted db.next_id p f db.rows k h.counted;
  expectations = h.expectations;
  intelligence = h.intelligence;
}

-- The events and the faults are no part of it.
pub beside-IsInventory :
    (events : List DeviceEvent) (fault : Option String) (db : Inventory)
    → IsInventory db
    → IsInventory (record db { events = events; fault = fault })
beside-IsInventory events fault db h = record {
  keys = h.keys;
  ids = h.ids;
  counted = h.counted;
  expectations = h.expectations;
  intelligence = h.intelligence;
}

insert-IsInventory :
    (d : DeviceRow) (db : Inventory)
    → str_eq (storage_mac d) "" ≡ false
    → any (has_key d.site_id (storage_mac d)) db.rows ≡ false
    → IsInventory db
    → IsInventory (record db {
      rows = db.rows ++ inserted db.next_id (storage_mac d) d ∷ [];
      next_id = suc db.next_id;
    })
insert-IsInventory d db keyed new h =
    let r = inserted db.next_id (storage_mac d) d in
    record {
      keys =
          DistinctBy-snoc same_key db.rows r h.keys
            (fresh-key d.site_id (storage_mac d) r db.rows refl refl new);
      ids = DistinctBy-snoc same_id db.rows r h.ids (fresh-id db.next_id r db.rows refl h.counted);
      counted =
          All-append (IsCounted (suc db.next_id)) db.rows (r ∷ [])
            (IsCounted-suc db.next_id db.rows h.counted)
            (
              record {
                mac = ground (arith, keyed, eq_iff (storage_mac d) "");
                seen = omega arith;
                id = omega arith;
              },
              tt,
            );
      expectations = h.expectations;
      intelligence = h.intelligence;
    }

upsert_device-IsInventory :
    (d : DeviceRow) (state : Inventory × ℕ)
    → IsInventory state.0
    → IsInventory (upsert_device d state).0
unfolding upsert_device
upsert_device-IsInventory d (db, count) h = elim (Bool-cases (str_eq (storage_mac d) "")) [
  | inl skipped ↦ rw skipped h
  | inr keyed ↦ rw keyed (elim (Bool-cases (any (has_key d.site_id (storage_mac d)) db.rows)) [
    | inl old ↦ rw old (
        with_rows-IsInventory (has_key d.site_id (storage_mac d)) (seen_again d) db
          (record {
            id = λ r. refl;
            site_id = λ r. refl;
            mac = λ r. refl;
            seen_count = λ r. omega arith;
          })
          h)
    | inr new ↦ rw new (insert-IsInventory d db keyed new h)
  ])
]

upsert_each-IsInventory :
    (ds : List DeviceRow) (state : Inventory × ℕ)
    → IsInventory state.0
    → IsInventory (upsert_each_device ds state).0
unfolding upsert_each_device
upsert_each-IsInventory [] state h = h
upsert_each-IsInventory (d ∷ ds) state h =
    upsert_each-IsInventory ds (upsert_device d state) (upsert_device-IsInventory d state h)

pub upsert_devices-IsInventory :
    (ds : List DeviceRow) (db : Inventory) → IsInventory db → IsInventory (upsert_devices ds db).0
unfolding upsert_devices
upsert_devices-IsInventory ds db h =
    either LeavesCounted _ _ _ h
      (unless_fault-both LeavesCounted db.fault _ _ (λ e. h) (upsert_each-IsInventory ds (db, 0) h))

pub update_by_id-IsInventory :
    (site : String) (id : ℕ) (f : DeviceRow → DeviceRow) (db : Inventory)
    → KeepsRow f
    → IsInventory db
    → IsInventory (update_by_id site id f db).0
unfolding update_by_id
update_by_id-IsInventory site id f db k h =
    unless_fault-both LeavesInventory db.fault _ _ (λ e. h)
      (either LeavesInventory (any (has_id site id) db.rows) _ _
        (with_rows-IsInventory (has_id site id) f db k h) h)

pub update_device_identity_by_ip-IsInventory :
    (now site ip hostname vendor source : String) (db : Inventory)
    → IsInventory db
    → IsInventory (update_device_identity_by_ip now site ip hostname vendor source db).0
unfolding update_device_identity_by_ip
update_device_identity_by_ip-IsInventory now site ip hostname vendor source db h =
    unless_fault-both LeavesInventory db.fault _ _ (λ e. h)
      (either LeavesInventory (any (has_ip site ip) db.rows) _ _
        (with_rows-IsInventory (has_ip site ip) _ db
          (record {
            id = λ r. refl;
            site_id = λ r. refl;
            mac = λ r. refl;
            seen_count = λ r. omega arith;
          })
          h)
        h)

pub expects-IsInventory :
    (reread : Option String) (now : String) (e : Expectation) (db : Inventory)
    → IsInventory db
    → IsInventory (upsert_device_expectation reread now e db).0
unfolding upsert_device_expectation put_expectation
expects-IsInventory reread now e db h =
    unless_fault-both LeavesInventory db.fault _ _ (λ broken. h)
      (record {
        keys = h.keys;
        ids = h.ids;
        counted = h.counted;
        expectations =
            replace-DistinctBy expects_same
              (record {
                left = λ x y z same. ground (arith, same);
                right = λ x y z same. ground (arith, same);
              })
              (record e { updated_at = now }) db.expectations h.expectations;
        intelligence = h.intelligence;
      })

with_events-IsInventory :
    (now : String) (before : Device) (db : Inventory) (found : Result Device)
    → IsInventory db
    → IsInventory (with_events now before db found).0
with_events-IsInventory now before db (err e) h = h
with_events-IsInventory now before db (ok updated) h = beside-IsInventory _ db.fault db h

pub stored-IsInventory :
    (now site ports services : String) (i : Intelligence) (db : Inventory) (found : Result Device)
    → IsInventory db
    → IsInventory (stored_intelligence now site ports services i db found).0
unfolding put_intelligence
stored-IsInventory now site ports services i db (err e) h = h
stored-IsInventory now site ports services i db (ok before) h =
    let f =
      with_rows-IsInventory (has_id site i.device_id)
        (λ r. record r { open_ports = ports; services = services }) db
        (record {
          id = λ r. refl;
          site_id = λ r. refl;
          mac = λ r. refl;
          seen_count = λ r. omega arith;
        })
        h in
    with_events-IsInventory now before _ (device site i.device_id _) (record {
      keys = f.keys;
      ids = f.ids;
      counted = f.counted;
      expectations = h.expectations;
      intelligence =
          replace-DistinctBy classifies_same
            (record {
              left = λ x y z same. ground (arith, same);
              right = λ x y z same. ground (arith, same);
            })
            (record i { classified_at = now }) db.intelligence h.intelligence;
    })
