-- ===== src/Refresh.antt =====
-- The refresh of the inventory (agent/internal/agent/agent.go): a run of the discovery, and what is
-- stored of it. The clock is read once, and the metrics are left out.
pub mod Handlers
pub mod Stored
mod Tests
pub mod Enrich
use infracheck_appliance.Base.{
  ℕ, suc, ◌+◌, String, Bool, true, false, ◌&&◌, ◌||◌, not, Option, none, some, List, [], ◌∷◌, ◌++◌,
  map, keep, any, if◌then◌else◌, str_eq, ltb, ◌==◌,
}
use infracheck_appliance.Base.Int.{pos}
use infracheck_appliance.Base.Text.{◌<>◌, join}
use infracheck_appliance.Base.Decimal.{itoa}
use infracheck_appliance.Base.Result.{Result, ok, err, unless_fault}
use infracheck_appliance.Devices.{Device, DeviceRow, Inventory, upsert_devices}
use infracheck_appliance.Devices.Records.{update_device_identity_by_ip}
use infracheck_appliance.Devices.Classify.{Json}
use infracheck_appliance.Devices.Persist.{persist_device_services}
use infracheck_appliance.Discovery.{Tools}
use infracheck_appliance.Discovery.Merge.{run}
use infracheck_appliance.Identity.{IdentitySource, IdentityResult, IdentityTarget, Surroundings}
use infracheck_appliance.Identity.Enrich.{enrich}

-- A row of the table `events`.
pub record Event : Type 0 where
  pub timestamp : String
  pub category : String
  pub message : String
  pub details : String

-- The tables, and what the agent keeps of the last run.
pub record RefreshState : Type 0 where
  pub inventory : Inventory
  pub log : List Event
  pub last_discovery : List DeviceRow

-- The error of SaveEvent is not looked at.
abbrev pub save_event : String → String → String → String → RefreshState → RefreshState
save_event now category message details s = record s {
  log =
      unless_fault s.inventory.fault (λ e. s.log)
        (s.log
          ++ record { timestamp = now; category = category; message = message; details = details }
            ∷ []);
}

abbrev is_ok_source : IdentitySource → Bool
is_ok_source s = str_eq s.status "ok" && not (str_eq s.source "")

abbrev label_of : List String → String
label_of [] = ""
label_of (n ∷ names) = "identity-auto:" <> join (n ∷ names) "+"

unfoldable pub identity_source_label : List IdentitySource → String
identity_source_label sources =
    label_of (map (λ (s : IdentitySource). s.source) (keep is_ok_source sources))

abbrev pub or_auto : String → String
or_auto label = if str_eq label "" then "identity-auto" else label

abbrev pub is_nil {ℓ} : {A : Type ℓ} → List A → Bool
is_nil [] = true
is_nil (x ∷ xs) = false

-- What the programs and the network answer to a refresh.
pub record World : Type 0 where
  pub is_ip : String → Bool
  pub submatch : String → String → List String
  pub json : Json
  pub tools : Tools
  pub surroundings : Surroundings
  pub lease_paths : List String

abbrev pub with_services :
    World → String → String → List String → Inventory × Result Device → Inventory
with_services w now site services (db, err e) = db
with_services w now site services (db, ok d) =
    if is_nil services then db else (persist_device_services w.json now site d services db).0

abbrev pub identified : World → String → String → DeviceRow → IdentityResult → Inventory → Inventory
identified w now site d r db =
    if str_eq r.hostname "" && (str_eq r.vendor "" && is_nil r.services)
    then db
    else with_services w now site r.services (
        update_device_identity_by_ip now site d.ip r.hostname r.vendor
          (or_auto (identity_source_label r.sources)) db)

-- One device of the loop: one without an address, or with a name and a vendor, is skipped.
unfoldable pub enrich_device : World → String → String → DeviceRow → Inventory → Inventory
enrich_device w now site d db =
    if str_eq d.ip "" || (not (str_eq d.hostname "") && not (str_eq d.vendor ""))
    then db
    else identified w now site d
        (enrich w.is_ip w.lease_paths w.surroundings (record { ip = d.ip; mac = d.mac })) db

unfoldable pub enrich_devices : World → String → String → List DeviceRow → Inventory → Inventory
enrich_devices w now site [] db = db
enrich_devices w now site (d ∷ ds) db = enrich_devices w now site ds (enrich_device w now site d db)

abbrev pub save_failed : String → Option String → RefreshState → RefreshState
save_failed now none s = s
save_failed now (some e) s = save_event now "discovery" "device discovery save failed" e s

abbrev pub new_detected : String → ℕ → RefreshState → RefreshState
new_detected now count s =
    if ltb 0 count
    then save_event now "discovery" "new devices detected" (itoa (pos count)) s
    else s

unfoldable pub run_discovery :
    World → List String → String → String → RefreshState → RefreshState × List DeviceRow
run_discovery w cidrs now site s =
    let found = run w.is_ip w.submatch cidrs w.tools site now in
    let (stored, count, failed) = upsert_devices found s.inventory in
    let logged = save_failed now failed (record s { inventory = stored }) in
    let enriched : RefreshState = record logged {
      inventory = enrich_devices w now site found logged.inventory;
    } in
    (record (new_detected now count enriched) { last_discovery = found }, found)
