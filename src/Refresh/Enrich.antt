-- ===== src/Refresh/Enrich.antt =====
-- The enrichment of a device on demand (agent/internal/agent/tools_api.go). The
-- address of the request comes decoded.
use infracheck_appliance.Base.{ℕ, String, Option, none, some, List, [], ◌∷◌, if◌then◌else◌, str_eq}
use infracheck_appliance.Base.Text.{◌<>◌, trim_space}
use infracheck_appliance.Base.Result.{Result, ok, err, Response, answer, refuse, no_rows}
use infracheck_appliance.Devices.{Device, DeviceRow, Inventory, upsert_devices, scanned}
use infracheck_appliance.Devices.Select.{devices}
use infracheck_appliance.Devices.Records.{update_device_identity_by_ip}
use infracheck_appliance.Devices.Persist.{persist_device_services}
use infracheck_appliance.Base.Lines.{cut}
use infracheck_appliance.Discovery.{found}
use infracheck_appliance.Identity.{IdentityResult, IdentitySource}
use infracheck_appliance.Identity.Enrich.{enrich}
use infracheck_appliance.Refresh.{World, is_nil, identity_source_label}
use infracheck_appliance.Refresh.Handlers.{or_none}

-- strings.Replace(label, "identity-auto:", "identity-tool:", 1)
abbrev tool_label : String → String
tool_label label = elim (cut label "identity-auto:") [
  | none ↦ label
  | some (before, after) ↦ before <> "identity-tool:" <> after
]

unfoldable pub identity_tool_source_label : List IdentitySource → String
identity_tool_source_label sources =
    let label = identity_source_label sources in
    if str_eq label "" then "identity-tool" else tool_label label

abbrev first_at : String → List Device → Option Device
first_at ip [] = none
first_at ip (d ∷ ds) = if str_eq d.row.ip ip then some d else first_at ip ds

abbrev mac_of : Option Device → String
mac_of none = ""
mac_of (some d) = d.row.mac

-- The zero value
abbrev no_device : Device
no_device = scanned (found "" "" "" "" "" "" "")

abbrev or_no_device : Option Device → Device
or_no_device none = no_device
or_no_device (some d) = d

-- A device that no row has is stored.
abbrev stored_new : String → String → Inventory × ℕ × Option String → Inventory × Result Device
stored_new site ip (db, count, some e) = (db, err e)
stored_new site ip (db, count, none) =
    (db, ok (or_no_device (first_at ip (or_none (devices site db)))))

abbrev or_stored :
    String → String → DeviceRow → Inventory × Result Device → Inventory × Result Device
or_stored site ip d (db, ok updated) = (db, ok updated)
or_stored site ip d (db, err e) =
    if str_eq e no_rows then stored_new site ip (upsert_devices (d ∷ []) db) else (db, err e)

pub record EnrichAnswer : Type 0 where
  pub device : Device
  pub result : IdentityResult
  pub summary : String

abbrev enrich_summary : String → String → String
enrich_summary ip hostname =
    "Identity enrichment completed for "
    <> ip
    <> (if str_eq hostname "" then ": no hostname found" else ": hostname " <> hostname)

abbrev with_observed :
    World → String → String → List String → Inventory → Device → Inventory × Device
with_observed w now site services db d =
    if is_nil services then (db, d) else persist_device_services w.json now site d services db

abbrev enrich_answer :
    World
    → String
    → String
    → String
    → IdentityResult
    → Inventory × Result Device
    → Inventory × Response EnrichAnswer
enrich_answer w now site ip r (db, err e) = (db, refuse 500 e)
enrich_answer w now site ip r (db, ok d) =
    let (after, enriched) = with_observed w now site r.services db d in
    (
      after,
      answer (record { device = enriched; result = r; summary = enrich_summary ip r.hostname }),
    )

abbrev enriched_at :
    World → String → String → String → Inventory → Inventory × Response EnrichAnswer
enriched_at w now site ip db =
    let mac = mac_of (first_at ip (or_none (devices site db))) in
    let r = enrich w.is_ip w.lease_paths w.surroundings (record { ip = ip; mac = mac }) in
    enrich_answer w now site ip r (
      or_stored site ip (found site now "identity-tool" ip mac r.vendor r.hostname) (
        update_device_identity_by_ip now site ip r.hostname r.vendor
          (identity_tool_source_label r.sources) db))

unfoldable pub tool_device_enrich :
    World → String → String → Result String → Inventory → Inventory × Response EnrichAnswer
tool_device_enrich w now site (err e) db = (db, refuse 400 e)
tool_device_enrich w now site (ok text) db =
    let ip = trim_space text in
    if w.is_ip ip then enriched_at w now site ip db else (db, refuse 400 "valid IP is required")
