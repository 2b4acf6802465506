-- ===== src/Devices/Lifecycle.antt =====
-- Every run of the inventory's statements (agent/internal/storage/storage.go) from an empty database.
use infracheck_appliance.Base.{ℕ, String, Bool, Option, none, List, [], refl, arith}
use infracheck_appliance.Base.Result.{unless_fault-both}
use infracheck_appliance.Devices.{
  DeviceRow, Intelligence, Expectation, DeviceEvent, Inventory, upsert_devices,
}
use infracheck_appliance.Devices.Select.{
  update_device, mark_device_known, mark_all_new_devices_known, reopen, device, is_new,
}
use infracheck_appliance.Devices.Records.{
  upsert_device_expectation, save_device_event, update_device_identity_by_ip,
  update_device_intelligence,
}
use infracheck_appliance.Devices.Kept.{
  IsInventory, LeavesInventory, with_rows-IsInventory, beside-IsInventory,
  upsert_devices-IsInventory, update_by_id-IsInventory, update_device_identity_by_ip-IsInventory,
  expects-IsInventory, stored-IsInventory,
}

pub data Step : Inventory → Inventory → Type 0 where
  finds : (devices : List DeviceRow) (db : Inventory) → Step db (upsert_devices devices db).0
  edits :
      (site : String) (id : ℕ) (hostname notes : String) (monitor : Bool) (db : Inventory)
      → Step db (update_device site id hostname notes monitor db).0
  marks :
      (now site : String) (id : ℕ) (db : Inventory) → Step db (mark_device_known now site id db).0
  marks_all :
      (now site : String) (db : Inventory) → Step db (mark_all_new_devices_known now site db).0
  identifies :
      (now site ip hostname vendor source : String) (db : Inventory)
      → Step db (update_device_identity_by_ip now site ip hostname vendor source db).0
  expects :
      (reread : Option String) (now : String) (e : Expectation) (db : Inventory)
      → Step db (upsert_device_expectation reread now e db).0
  happens :
      (now : String) (e : DeviceEvent) (db : Inventory) → Step db (save_device_event now e db).0
  classifies :
      (now site ports services : String) (i : Intelligence) (db : Inventory)
      → Step db (update_device_intelligence now site ports services i db).0
  reopens : (db : Inventory) → Step db (reopen db)
  -- The database starts or ceases to answer an error.
  turns : (fault : Option String) (db : Inventory) → Step db (record db { fault = fault })

abbrev pub no_devices : Inventory
no_devices = record {
  rows = [];
  intelligence = [];
  expectations = [];
  events = [];
  next_id = 1;
  fault = none;
}

pub data Reach : Inventory → Type 0 where
  created : Reach no_devices
  then_step : (db db' : Inventory) → Reach db → Step db db' → Reach db'

Step-IsInventory : (db db' : Inventory) → Step db db' → IsInventory db → IsInventory db'
unfolding update_device mark_device_known mark_all_new_devices_known save_device_event
    update_device_intelligence reopen
Step-IsInventory _ _ (finds ds db) h = upsert_devices-IsInventory ds db h
Step-IsInventory _ _ (edits site id hostname notes monitor db) h =
    update_by_id-IsInventory site id _ db
      (record {
        id = λ r. refl;
        site_id = λ r. refl;
        mac = λ r. refl;
        seen_count = λ r. omega arith;
      })
      h
Step-IsInventory _ _ (marks now site id db) h =
    update_by_id-IsInventory site id _ db
      (record {
        id = λ r. refl;
        site_id = λ r. refl;
        mac = λ r. refl;
        seen_count = λ r. omega arith;
      })
      h
Step-IsInventory _ _ (marks_all now site db) h =
    unless_fault-both LeavesInventory db.fault _ _ (λ e. h)
      (with_rows-IsInventory (is_new site) _ db
        (record {
          id = λ r. refl;
          site_id = λ r. refl;
          mac = λ r. refl;
          seen_count = λ r. omega arith;
        })
        h)
Step-IsInventory _ _ (identifies now site ip hostname vendor source db) h =
    update_device_identity_by_ip-IsInventory now site ip hostname vendor source db h
Step-IsInventory _ _ (expects reread now e db) h = expects-IsInventory reread now e db h
Step-IsInventory _ _ (happens now e db) h =
    unless_fault-both LeavesInventory db.fault _ _ (λ broken. h)
      (beside-IsInventory _ db.fault db h)
Step-IsInventory _ _ (classifies now site ports services i db) h =
    stored-IsInventory now site ports services i db (device site i.device_id db) h
Step-IsInventory _ _ (reopens db) h =
    with_rows-IsInventory _ _ db
      (record {
        id = λ r. refl;
        site_id = λ r. refl;
        mac = λ r. refl;
        seen_count = λ r. omega arith;
      })
      h
Step-IsInventory _ _ (turns fault db) h = beside-IsInventory db.events fault db h

-- In every inventory that the statements reach from an empty one: no site and key stand twice, no
-- number stands twice, every row has a key that is not empty, has been seen at least once, and has a
-- number below the next one to be given out; and no device has two rows of expectations or two of
-- classification.
pub Reach-IsInventory : (db : Inventory) → Reach db → IsInventory db
Reach-IsInventory _ created = record {
  keys = tt;
  ids = tt;
  counted = tt;
  expectations = tt;
  intelligence = tt;
}
Reach-IsInventory _ (then_step db db' reach step) =
    Step-IsInventory db db' step (Reach-IsInventory db reach)
