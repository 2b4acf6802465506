-- ===== src/Devices/Tests.antt =====
-- Runs of the inventory, and the theorems about it at concrete inputs.
use infracheck_appliance.Base.{
  ◌+◌, ◌≤◌, String, true, false, none, List, [], ◌∷◌, ◌≡◌, ◌≢◌, ◌↔◌, refl, arith, All, length,
  eq_iff, map,
}
use infracheck_appliance.Base.Int.{ℤ, pos}
use infracheck_appliance.Base.Text.{contains, to_lower, trim_space, trim_left, trim_right}
use infracheck_appliance.Base.Sort.{sort_with}
use infracheck_appliance.Base.Distinct.{replace}
use infracheck_appliance.Base.Result.{ok}
use infracheck_appliance.Devices.{
  DeviceRow, Device, Expectation, Inventory, update_rows, storage_mac, upsert_device,
  upsert_each_device, upsert_devices, find_intelligence, find_expectation, to_device,
}
use infracheck_appliance.Devices.Select.{
  select_devices, new_devices, update_by_id, mark_device_known, mark_all_new_devices_known, reopen,
  device,
}
use infracheck_appliance.Devices.Records.{
  update_device_intelligence, change_events, put_intelligence,
}
use infracheck_appliance.Devices.Lifecycle.{
  no_devices, created, then_step, finds, marks, Reach-IsInventory,
}
use infracheck_appliance.Devices.Kept.{IsInventory}
use infracheck_appliance.Devices.Found.{upsert_devices-stored, is_stored}
use infracheck_appliance.Devices.Known.{mark_all_new_devices_known-new_devices, reopen-new_devices}
use infracheck_appliance.Devices.Expected.{same_ints, mismatches, update_device_expectation}
use infracheck_appliance.Devices.Matching.{count, same_ints_iff}
use infracheck_appliance.Devices.Expectations.{MeetsExpectation, mismatches_iff}
use infracheck_appliance.Devices.Stored.{Outcome, update_device_expectation-stored}
use infracheck_appliance.Devices.Classify.{Json, category_of}
use infracheck_appliance.Devices.Risks.{
  classify_device, service_names, risks_of, distinct_loop, confidence_of,
}
use infracheck_appliance.Devices.Persist.{ensure_one, parse_port_list, merge_services}
use infracheck_appliance.Devices.Classified.{classify_device-evidence}

abbrev nine : String
nine = "2026-01-01T09:00:00Z"

abbrev ten : String
ten = "2026-01-01T10:00:00Z"

abbrev found : String → String → DeviceRow
found ip mac = record {
  id = 0;
  site_id = "site";
  ip = ip;
  mac = mac;
  vendor = "";
  hostname = "";
  first_seen = nine;
  last_seen = nine;
  seen_count = 0;
  source = "arp";
  open_ports = "";
  services = "";
  notes = "";
  monitor_missing = false;
  known_at = "";
}

-- One device by its MAC, twice, one by its address, and one without either.
abbrev scan : List DeviceRow
scan =
    found "192.0.2.1" "aa:bb:cc:00:00:01"
    ∷ found "192.0.2.7" "aa:bb:cc:00:00:01"
    ∷ found "192.0.2.2" ""
    ∷ found "" ""
    ∷ []

abbrev scanned_once : Inventory
scanned_once = (upsert_devices scan no_devices).0

two_new : (upsert_devices scan no_devices).1 ≡ 2
unfolding upsert_devices upsert_each_device upsert_device storage_mac update_rows
two_new = refl

Reach-IsInventory_example : IsInventory (mark_device_known ten "site" 1 scanned_once).0
Reach-IsInventory_example = Reach-IsInventory (mark_device_known ten "site" 1 scanned_once).0 (
    then_step _ _ (then_step _ _ created (finds scan no_devices)) (marks ten "site" 1 scanned_once))

upsert_devices-stored_example :
    ((upsert_devices scan no_devices).2 ≡ none)
    × (length (upsert_devices scan no_devices).0.rows ≡ 0 + (upsert_devices scan no_devices).1)
    × All (λ d. is_stored (upsert_devices scan no_devices).0 d ≡ true) scan
upsert_devices-stored_example = upsert_devices-stored scan no_devices refl

abbrev laptop_device : Device
laptop_device =
    to_device scanned_once
      (record (found "192.0.2.7" "aa:bb:cc:00:00:01") { id = 1; seen_count = 2 })

abbrev tablet_device : Device
tablet_device =
    to_device scanned_once (record (found "192.0.2.2" "ip:192.0.2.2") { id = 2; seen_count = 1 })

abbrev marked_device : Device
marked_device =
    to_device scanned_once
      (record (found "192.0.2.7" "aa:bb:cc:00:00:01") { id = 1; seen_count = 2; known_at = ten })

is_marked : (mark_device_known ten "site" 1 scanned_once).1 ≡ ok marked_device
unfolding mark_device_known update_by_id device select_devices to_device find_intelligence
    find_expectation sort_with update_rows upsert_devices upsert_each_device upsert_device
    storage_mac
is_marked = refl

both_new : new_devices "site" scanned_once ≡ ok (laptop_device ∷ tablet_device ∷ [])
unfolding new_devices select_devices to_device find_intelligence find_expectation sort_with
    update_rows upsert_devices upsert_each_device upsert_device storage_mac
both_new = refl

one_new :
    new_devices "site" (mark_device_known ten "site" 1 scanned_once).0 ≡ ok (tablet_device ∷ [])
unfolding new_devices mark_device_known update_by_id device select_devices to_device
    find_intelligence find_expectation sort_with update_rows upsert_devices upsert_each_device
    upsert_device storage_mac
one_new = refl

mark_all_new_devices_known-new_devices_example :
    ((mark_all_new_devices_known ten "site" scanned_once).1
      ≡ ok (length (laptop_device ∷ tablet_device ∷ [])))
    × (new_devices "site" (mark_all_new_devices_known ten "site" scanned_once).0 ≡ ok [])
mark_all_new_devices_known-new_devices_example =
    mark_all_new_devices_known-new_devices ten "site" scanned_once
      (laptop_device ∷ tablet_device ∷ []) (ground (arith, eq_iff ten "")) both_new

seen_before : All (λ (r : DeviceRow). r.first_seen ≢ "") scanned_once.rows
unfolding upsert_devices upsert_each_device upsert_device storage_mac update_rows
seen_before = (ground (arith, eq_iff nine ""), (ground (arith, eq_iff nine ""), tt))

scanned_works : scanned_once.fault ≡ none
unfolding upsert_devices upsert_each_device upsert_device storage_mac update_rows
scanned_works = refl

reopen-new_devices_example : new_devices "site" (reopen scanned_once) ≡ ok []
reopen-new_devices_example = reopen-new_devices "site" scanned_once scanned_works seen_before

same_ints_iff_example :
    (same_ints (pos 443 ∷ pos 22 ∷ []) (pos 22 ∷ pos 443 ∷ []) ≡ true)
    ↔ ((k : ℤ) → count k (pos 443 ∷ pos 22 ∷ []) ≡ count k (pos 22 ∷ pos 443 ∷ []))
same_ints_iff_example = same_ints_iff (pos 443 ∷ pos 22 ∷ []) (pos 22 ∷ pos 443 ∷ [])

abbrev wanted : Expectation
wanted = record {
  device_id = 1;
  site_id = "site";
  authorization = " Review ";
  expected_category = "Printer";
  expected_ip = "192.0.2.9";
  expected_ports = pos 631 ∷ pos 70000 ∷ pos 631 ∷ [];
  expected_services = "ipp" ∷ [];
  expected_vlan = "";
  expected_ap = "";
  expected_switch = "";
  expected_port = "";
  maintenance_until = "";
  updated_at = "";
}

mismatches_iff_example :
    (mismatches (pos 631 ∷ []) laptop_device wanted ≡ [])
    ↔ MeetsExpectation (pos 631 ∷ []) laptop_device wanted
mismatches_iff_example = mismatches_iff (pos 631 ∷ []) laptop_device wanted

update_device_expectation-stored_example :
    Outcome
      (λ s. true)
      "site"
      none
      scanned_once
      (update_device_expectation (λ s. true) none ten "site" "1" (ok wanted) scanned_once)
update_device_expectation-stored_example =
    update_device_expectation-stored (λ s. true) none ten "site" "1" (ok wanted) scanned_once

abbrev printer : DeviceRow
printer = record (found "192.0.2.9" "") { hostname = "Printer" }

printer_category : (classify_device printer (pos 631 ∷ [])).category ≡ "Printer"
unfolding classify_device category_of to_lower
printer_category = refl

classify_device-evidence_example : 1 ≤ length (classify_device printer (pos 631 ∷ [])).evidence
classify_device-evidence_example =
    classify_device-evidence printer (pos 631 ∷ [])
      (ground (arith, printer_category, eq_iff "Printer" "Unclassified device"))
      (ground (arith, printer_category, eq_iff "Printer" "Workstation"))

-- A workstation that only its services name has no evidence.
unfounded :
    (classify_device (record printer { hostname = ""; services = "rdp"; source = "" }) []).evidence
    ≡ []
unfolding classify_device category_of to_lower contains
unfounded = refl

-- The first classification of a device whose ports nobody scanned reports a change of its ports.
abbrev json : Json
json = record {
  texts = λ s. ([], false);
  ports = λ s. ([], true);
  encode_texts = λ ts. "[]";
  encode_ports = λ ps. "[]";
}

first_listing :
    map (λ e. e.type) (ensure_one json ten "site" laptop_device scanned_once).0.events
    ≡ "ports_changed" ∷ []
unfolding ensure_one parse_port_list merge_services classify_device category_of
    update_device_intelligence device select_devices to_device find_intelligence find_expectation
    sort_with update_rows upsert_devices upsert_each_device upsert_device storage_mac contains
    to_lower service_names distinct_loop risks_of confidence_of trim_space trim_left trim_right
    change_events put_intelligence replace
first_listing = refl
