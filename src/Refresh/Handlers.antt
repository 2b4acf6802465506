-- ===== src/Refresh/Handlers.antt =====
-- The handlers of the devices (agent/internal/agent/agent.go). The body of a request comes decoded.
use infracheck_appliance.Base.{
  ℕ, String, Bool, true, false, none, some, List, [], map, any, if◌then◌else◌, str_eq, ◌==◌,
}
use infracheck_appliance.Base.Int.{ℤ, pos, negsuc}
use infracheck_appliance.Base.Text.{trim_space}
use infracheck_appliance.Base.Decimal.{atoi}
use infracheck_appliance.Base.Result.{
  Result, ok, err, Response, answer, refuse, no_rows, unless_fault,
}
use infracheck_appliance.Devices.{Device, DeviceRow, Inventory}
use infracheck_appliance.Devices.Select.{
  devices, new_devices, missing_devices, update_device, mark_device_known,
  mark_all_new_devices_known,
}
use infracheck_appliance.Devices.Expected.{device_id_of}
use infracheck_appliance.Devices.Persist.{ensure_device_intelligence}
use infracheck_appliance.Current.Switches.{ManagedSwitchTopology, attach_managed_switch_locations}
use infracheck_appliance.Discovery.{found}
use infracheck_appliance.Refresh.{World, RefreshState, run_discovery}

-- `rows, _ := query()`
abbrev pub or_none : Result (List Device) → List Device
or_none (err e) = []
or_none (ok ds) = ds

abbrev has_number : ℕ → List Device → Bool
has_number id ds = any (λ (d : Device). d.row.id == id) ds

-- `cutoff` is the text of the time a day ago.
unfoldable pub mark_device_inventory_state : String → String → Inventory → List Device → List Device
mark_device_inventory_state site cutoff db ds =
    let new = or_none (new_devices site db) in
    let missing = or_none (missing_devices site cutoff db) in
    map
      (λ (d : Device). record d {
        new = has_number d.row.id new;
        missing = has_number d.row.id missing;
      })
      ds

abbrev devices_answer :
    World
    → String
    → String
    → String
    → List ManagedSwitchTopology
    → Result (List Device)
    → Inventory
    → Inventory × Response (List Device)
devices_answer w now site cutoff switches (err e) db = (db, refuse 500 e)
devices_answer w now site cutoff switches (ok ds) db =
    let (after, classified) = ensure_device_intelligence w.json now site ds db in
    (
      after,
      answer (
          mark_device_inventory_state site cutoff after
            (attach_managed_switch_locations switches classified)),
    )

unfoldable pub devices_handler :
    World
    → String
    → String
    → String
    → List ManagedSwitchTopology
    → Inventory
    → Inventory × Response (List Device)
devices_handler w now site cutoff switches db =
    devices_answer w now site cutoff switches (devices site db) db

abbrev listed_with : (Device → Device) → Result (List Device) → Response (List Device)
listed_with mark (err e) = refuse 500 e
listed_with mark (ok ds) = answer (map mark ds)

unfoldable pub new_devices_handler : String → Inventory → Response (List Device)
new_devices_handler site db =
    listed_with (λ (d : Device). record d { new = true }) (new_devices site db)

unfoldable pub missing_devices_handler : String → String → Inventory → Response (List Device)
missing_devices_handler site cutoff db =
    listed_with (λ (d : Device). record d { missing = true }) (missing_devices site cutoff db)

-- The answer of an update by number
abbrev pub device_answer :
    (Device → Device) → Inventory × Result Device → Inventory × Response Device
device_answer mark (db, ok d) = (db, answer (mark d))
device_answer mark (db, err e) =
    (db, if str_eq e no_rows then refuse 404 "device not found" else refuse 500 e)

pub record UpdateDeviceRequest : Type 0 where
  pub hostname : String
  pub notes : String
  pub monitor_missing : Bool

abbrev updated_with :
    String → ℕ → Result UpdateDeviceRequest → Inventory → Inventory × Response Device
updated_with site id (err e) db = (db, refuse 400 e)
updated_with site id (ok req) db =
    device_answer (λ d. d)
      (update_device site id (trim_space req.hostname) (trim_space req.notes) req.monitor_missing
        db)

unfoldable pub update_device_handler :
    String → String → Result UpdateDeviceRequest → Inventory → Inventory × Response Device
update_device_handler site path_id body db = elim (device_id_of path_id) [
  | none ↦ (db, refuse 400 "invalid device id")
  | some id ↦ updated_with site id body db
]

-- A number below zero is that of no row.
abbrev marked_known : String → String → ℤ → Inventory → Inventory × Result Device
marked_known now site (pos id) db = mark_device_known now site id db
marked_known now site (negsuc n) db = unless_fault db.fault (λ e. (db, err e)) (db, err no_rows)

unfoldable pub mark_device_known_handler :
    String → String → String → Inventory → Inventory × Response Device
mark_device_known_handler now site path_id db = elim (atoi path_id) [
  | none ↦ (db, refuse 400 "invalid device id")
  | some id ↦ device_answer (λ d. record d { new = false }) (marked_known now site id db)
]

abbrev marked_answer : Inventory × Result ℕ → Inventory × Response ℕ
marked_answer (db, ok count) = (db, answer count)
marked_answer (db, err e) = (db, refuse 500 e)

unfoldable pub mark_all_devices_known : String → String → Inventory → Inventory × Response ℕ
mark_all_devices_known now site db = marked_answer (mark_all_new_devices_known now site db)

unfoldable pub run_discovery_now :
    World → List String → String → String → RefreshState → RefreshState × Response (List DeviceRow)
run_discovery_now w cidrs now site s =
    let (after, found) = run_discovery w cidrs now site s in (after, answer found)
