-- ===== src/Devices/Records.antt =====
-- What is stored beside a device: its identity, its classification, its events and what is expected
-- of it (agent/internal/storage/storage.go).
use infracheck_appliance.Base.{
  ℕ, String, Bool, ◌&&◌, not, Option, none, some, List, [], ◌∷◌, ◌++◌, any, keep, if◌then◌else◌,
  str_eq, ◌==◌, take,
}
use infracheck_appliance.Base.Int.{ℤ, pos, leb_ℤ, ltb_ℤ, pos_part}
use infracheck_appliance.Base.Text.{◌<>◌, contains, text_lt}
use infracheck_appliance.Base.Sort.{sort_with}
use infracheck_appliance.Base.Distinct.{replace}
use infracheck_appliance.Base.Result.{Result, ok, err, unless_fault, no_rows}
use infracheck_appliance.Devices.{
  DeviceRow, Intelligence, Expectation, DeviceEvent, Device, Inventory, update_rows,
  find_expectation,
}
use infracheck_appliance.Devices.Select.{has_id, of_site, device, devices}

abbrev if_given : String → String → String
if_given value column = if str_eq value "" then column else value

-- `instr(source, ?) > 0` finds an empty text everywhere.
abbrev joined_source : String → String → String
joined_source column source =
    if str_eq column ""
    then source
    else (if contains column source then column else column <> "," <> source)

abbrev pub has_ip : String → String → DeviceRow → Bool
has_ip site ip r = of_site site r && str_eq r.ip ip

abbrev first_with_ip : String → Result (List Device) → Result Device
first_with_ip ip (err e) = err e
first_with_ip ip (ok []) = err no_rows
first_with_ip ip (ok (d ∷ ds)) = if str_eq d.row.ip ip then ok d else first_with_ip ip (ok ds)

unfoldable pub update_device_identity_by_ip :
    String → String → String → String → String → String → Inventory → Inventory × Result Device
update_device_identity_by_ip now site ip hostname vendor source db =
    let change = (λ (r : DeviceRow). record r {
      hostname = if_given hostname r.hostname;
      vendor = if_given vendor r.vendor;
      source = joined_source r.source source;
      last_seen = now;
    }) in
    unless_fault db.fault (λ e. (db, err e))
      (if any (has_ip site ip) db.rows
        then (let after = record db { rows = update_rows (has_ip site ip) change db.rows } in
            (after, first_with_ip ip (devices site after)))
        else (db, err no_rows))

unfoldable pub device_expectation : String → ℕ → Inventory → Result Expectation
device_expectation site id db =
    unless_fault db.fault err
      (elim (find_expectation site id db.expectations) [ none ↦ err no_rows | some e ↦ ok e ])

abbrev pub expects_same : Expectation → Expectation → Bool
expects_same e f = e.device_id == f.device_id

unfoldable pub put_expectation : Expectation → List Expectation → List Expectation
put_expectation = replace expects_same

-- `reread` is the error of the query that reads the row again, if that query meets one.
unfoldable pub upsert_device_expectation :
    Option String → String → Expectation → Inventory → Inventory × Result Expectation
upsert_device_expectation reread now e db =
    unless_fault db.fault (λ broken. (db, err broken))
      (let after = record db {
        expectations = put_expectation (record e { updated_at = now }) db.expectations;
      } in
        (after, unless_fault reread err (device_expectation e.site_id e.device_id after)))

unfoldable pub save_device_event : String → DeviceEvent → Inventory → Inventory × Option String
save_device_event now event db =
    unless_fault db.fault (λ e. (db, some e))
      (
        record db {
          events =
              db.events
              ++ record event {
                timestamp = if str_eq event.timestamp "" then now else event.timestamp;
              }
                ∷ [];
        },
        none,
      )

unfoldable pub device_events : String → ℤ → Inventory → Result (List DeviceEvent)
device_events site limit db =
    let n =
      if leb_ℤ limit (pos 0)
      then 200
      else (if ltb_ℤ (pos 1000) limit then 200 else pos_part limit) in
    unless_fault db.fault err (
      ok (
        take n (
          sort_with (λ (e : DeviceEvent) f. text_lt f.timestamp e.timestamp)
            (keep (λ (e : DeviceEvent). str_eq e.site_id site) db.events))))

abbrev pub classifies_same : Intelligence → Intelligence → Bool
classifies_same i j = i.device_id == j.device_id

unfoldable pub put_intelligence : Intelligence → List Intelligence → List Intelligence
put_intelligence = replace classifies_same

-- The events of a change: `before` and `updated` are the device before and after it.
unfoldable pub change_events : String → Device → Device → List DeviceEvent
change_events now before updated =
    (if str_eq before.row.open_ports updated.row.open_ports
      then []
      else record {
        timestamp = now;
        site_id = before.row.site_id;
        device_id = before.row.id;
        type = "ports_changed";
        severity = "warning";
        summary = "Observed TCP ports changed";
        before = before.row.open_ports;
        after = updated.row.open_ports;
      }
        ∷ [])
    ++ (if not (str_eq before.category "") && not (str_eq before.category updated.category)
        then record {
          timestamp = now;
          site_id = before.row.site_id;
          device_id = before.row.id;
          type = "category_changed";
          severity = "info";
          summary =
              "Device category changed from " <> before.category <> " to " <> updated.category;
          before = before.category;
          after = updated.category;
        }
          ∷ []
        else [])

abbrev pub with_events : String → Device → Inventory → Result Device → Inventory × Result Device
with_events now before db (err e) = (db, err e)
with_events now before db (ok updated) =
    (record db { events = db.events ++ change_events now before updated }, ok updated)

abbrev pub stored_intelligence :
    String
    → String
    → String
    → String
    → Intelligence
    → Inventory
    → Result Device
    → Inventory × Result Device
stored_intelligence now site open_ports services i db (err e) = (db, err e)
stored_intelligence now site open_ports services i db (ok before) =
    let after = record db {
      rows =
          update_rows (has_id site i.device_id)
            (λ r. record r { open_ports = open_ports; services = services }) db.rows;
      intelligence = put_intelligence (record i { classified_at = now }) db.intelligence;
    } in
    with_events now before after (device site i.device_id after)

unfoldable pub update_device_intelligence :
    String → String → String → String → Intelligence → Inventory → Inventory × Result Device
update_device_intelligence now site open_ports services i db =
    stored_intelligence now site open_ports services i db (device site i.device_id db)
