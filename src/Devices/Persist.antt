-- ===== src/Devices/Persist.antt =====
-- The classification that is stored with a device (agent/internal/agent/device_intelligence.go, and
-- parsePortList of agent/internal/agent/diagnostics_api.go).
use infracheck_appliance.Base.{String, not, List, [], ◌∷◌, ◌++◌, map, if◌then◌else◌, str_eq}
use infracheck_appliance.Base.Int.{ℤ}
use infracheck_appliance.Base.Text.{trim_space}
use infracheck_appliance.Base.Result.{Result, ok, err}
use infracheck_appliance.Devices.{Device, Intelligence, Inventory}
use infracheck_appliance.Devices.Records.{update_device_intelligence}
use infracheck_appliance.Devices.Classify.{DeviceClassification, Json, sort_ints, sort_texts}
use infracheck_appliance.Devices.Risks.{classify_device, distinct_loop}

module _ (json : Json) where
  unfoldable pub parse_port_list : String → List ℤ
  parse_port_list raw =
      let (ports, failed) = json.ports raw in if failed then [] else sort_ints ports

  -- The values that a column holds: none, a list in JSON, or one text that is no list.
  abbrev stored_services : String → List String
  stored_services existing =
      let (values, failed) = json.texts existing in
      if str_eq (trim_space existing) ""
      then []
      else (if failed then values ++ trim_space existing ∷ [] else values)

  unfoldable pub merge_services : String → List String → String
  merge_services existing observed =
      json.encode_texts
        (sort_texts (distinct_loop [] (map trim_space (stored_services existing ++ observed))))

  -- `updated, err := UpdateDeviceIntelligence(...)`, with the device that was given where it fails.
  abbrev pub or_given : Device → Inventory × Result Device → Inventory × Device
  or_given d (db, err e) = (db, d)
  or_given d (db, ok updated) = (db, updated)

  abbrev pub classified_as : Device → DeviceClassification → String → Intelligence
  classified_as d c observed_at = record {
    device_id = d.row.id;
    category = c.category;
    confidence = c.confidence;
    evidence = c.evidence;
    risk_flags = c.risk_flags;
    classifier_version = "container-1.0";
    classified_at = "";
    ports_observed_at = observed_at;
  }

  -- `details` and `observed_at` are the scan's.
  unfoldable pub persist_device_port_scan :
      String → String → Device → String → String → Inventory → Inventory × Device
  persist_device_port_scan now site d details observed_at db =
      let ports = parse_port_list details in
      let c = classify_device d.row ports in
      or_given d (
        update_device_intelligence now site (json.encode_ports ports)
          (merge_services d.row.services c.services) (classified_as d c observed_at) db)

  unfoldable pub persist_device_services :
      String → String → Device → List String → Inventory → Inventory × Device
  persist_device_services now site d services db =
      let ports = parse_port_list d.row.open_ports in
      let merged = record d {
        row = record d.row { services = merge_services d.row.services services };
      } in
      let c = classify_device merged.row ports in
      or_given merged (
        update_device_intelligence now site (json.encode_ports ports) merged.row.services
          (classified_as merged c d.ports_observed_at) db)

  unfoldable pub ensure_one : String → String → Device → Inventory → Inventory × Device
  ensure_one now site d db =
      let ports = parse_port_list d.row.open_ports in
      let c = classify_device d.row ports in
      if not (str_eq d.classification_version "")
      then (db, d)
      else or_given d (
          update_device_intelligence now site (json.encode_ports ports)
            (merge_services d.row.services c.services) (classified_as d c "") db)

  unfoldable pub ensure_device_intelligence :
      String → String → List Device → Inventory → Inventory × List Device
  ensure_device_intelligence now site [] db = (db, [])
  ensure_device_intelligence now site (d ∷ ds) db =
      let (db1, d1) = ensure_one now site d db in
      let (db2, ds1) = ensure_device_intelligence now site ds db1 in (db2, d1 ∷ ds1)
