-- ===== src/Devices/Select.antt =====
-- The lists of devices, and the updates by number (agent/internal/storage/storage.go).
use infracheck_appliance.Base.{
  ℕ, String, Bool, false, ◌&&◌, not, List, [], ◌∷◌, map, any, keep, if◌then◌else◌, str_eq, ◌==◌,
  length,
}
use infracheck_appliance.Base.Text.{text_lt}
use infracheck_appliance.Base.Sort.{sort_with}
use infracheck_appliance.Base.Result.{Result, ok, err, unless_fault, no_rows}
use infracheck_appliance.Devices.{DeviceRow, Device, Inventory, update_rows, to_device}

-- A SELECT of rows with an order, and what is attached to them.
unfoldable pub select_devices :
    (DeviceRow → Bool) → (DeviceRow → DeviceRow → Bool) → Inventory → Result (List Device)
select_devices p before db =
    unless_fault db.fault err (ok (map (to_device db) (sort_with before (keep p db.rows))))

abbrev pub of_site : String → DeviceRow → Bool
of_site site r = str_eq r.site_id site

unfoldable pub devices : String → Inventory → Result (List Device)
devices site = select_devices (of_site site) (λ r s. text_lt s.last_seen r.last_seen)

abbrev pub is_new : String → DeviceRow → Bool
is_new site r = of_site site r && str_eq r.known_at ""

unfoldable pub new_devices : String → Inventory → Result (List Device)
new_devices site = select_devices (is_new site) (λ r s. text_lt s.first_seen r.first_seen)

abbrev pub is_missing : String → String → DeviceRow → Bool
is_missing site cutoff r = of_site site r && r.monitor_missing && text_lt r.last_seen cutoff

-- `cutoff` is the text of the time from which on a device is not missing.
unfoldable pub missing_devices : String → String → Inventory → Result (List Device)
missing_devices site cutoff =
    select_devices (is_missing site cutoff) (λ r s. text_lt r.last_seen s.last_seen)

abbrev pub has_id : String → ℕ → DeviceRow → Bool
has_id site id r = of_site site r && r.id == id

abbrev first_device : Result (List Device) → Result Device
first_device (err e) = err e
first_device (ok []) = err no_rows
first_device (ok (d ∷ ds)) = ok d

unfoldable pub device : String → ℕ → Inventory → Result Device
device site id db = first_device (select_devices (has_id site id) (λ r s. false) db)

-- One UPDATE, and the device where it affects a row.
unfoldable pub update_by_id :
    String → ℕ → (DeviceRow → DeviceRow) → Inventory → Inventory × Result Device
update_by_id site id change db =
    unless_fault db.fault (λ e. (db, err e))
      (if any (has_id site id) db.rows
        then (let after = record db { rows = update_rows (has_id site id) change db.rows } in
            (after, device site id after))
        else (db, err no_rows))

unfoldable pub update_device :
    String → ℕ → String → String → Bool → Inventory → Inventory × Result Device
update_device site id hostname notes monitor_missing =
    update_by_id site id
      (λ r. record r { hostname = hostname; notes = notes; monitor_missing = monitor_missing })

unfoldable pub mark_device_known : String → String → ℕ → Inventory → Inventory × Result Device
mark_device_known now site id = update_by_id site id (λ r. record r { known_at = now })

unfoldable pub mark_all_new_devices_known : String → String → Inventory → Inventory × Result ℕ
mark_all_new_devices_known now site db =
    unless_fault db.fault (λ e. (db, err e))
      (
        record db { rows = update_rows (is_new site) (λ r. record r { known_at = now }) db.rows },
        ok (length (keep (is_new site) db.rows)),
      )

-- The statement of `migrate` that every opening of the database runs, where it succeeds.
unfoldable pub reopen : Inventory → Inventory
reopen db = record db {
  rows =
      update_rows (λ r. str_eq r.known_at "" && not (str_eq r.first_seen ""))
        (λ r. record r { known_at = r.first_seen }) db.rows;
}
