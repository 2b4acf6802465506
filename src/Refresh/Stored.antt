-- ===== src/Refresh/Stored.antt =====
-- What a refresh leaves in the inventory (agent/internal/agent/agent.go).
use infracheck_appliance.Base.{
  ℕ, ◌<◌, String, Bool, true, false, ◌&&◌, ◌||◌, not, Option, none, some, List, [], ◌∷◌, ◌≡◌, refl,
  sym, ◌∙◌, arith, ap, any, count, str_eq, ltb, eq_iff, either, Bool-cases, inl, inr, All,
}
use infracheck_appliance.Base.Result.{Result, ok, err, unless_fault-both}
use infracheck_appliance.Devices.{
  DeviceRow, Device, Intelligence, Inventory, storage_mac, has_key, no_key, upsert_devices,
}
use infracheck_appliance.Devices.Select.{device, has_id}
use infracheck_appliance.Devices.Rows.{update_rows-key}
use infracheck_appliance.Devices.Records.{
  update_device_identity_by_ip, update_device_intelligence, stored_intelligence, with_events,
  has_ip,
}
use infracheck_appliance.Devices.Persist.{persist_device_services, or_given}
use infracheck_appliance.Devices.Found.{is_stored, upsert_devices-stored}
use infracheck_appliance.Discovery.Merge.{run, all_found}
use infracheck_appliance.Discovery.Site.{run-OfSite}
use infracheck_appliance.Discovery.Macs.{mac_is, run-macs}
use infracheck_appliance.Identity.{IdentityResult}
use infracheck_appliance.Identity.Enrich.{enrich}
use infracheck_appliance.Refresh.{
  World, RefreshState, is_nil, enrich_device, enrich_devices, identified, with_services, or_auto,
  identity_source_label, save_failed, new_detected, run_discovery,
}

-- Whether a device of the site has a row under the key.
abbrev pub has_row : String → String → Inventory → Bool
has_row site key db = any (has_key site key) db.rows

module _ (site key : String) where
  abbrev Keeps : Inventory → Inventory → Type 0
  Keeps before after = has_row site key after ≡ has_row site key before

  abbrev LeavesRow : Inventory → Inventory × Result Device → Type 0
  LeavesRow db r = Keeps db r.0

  update_device_identity_by_ip-has_row :
      (now at ip hostname vendor source : String) (db : Inventory)
      → Keeps db (update_device_identity_by_ip now at ip hostname vendor source db).0
  unfolding update_device_identity_by_ip
  update_device_identity_by_ip-has_row now at ip hostname vendor source db =
      unless_fault-both (LeavesRow db) db.fault _ _ (λ e. refl)
        (either (LeavesRow db) (any (has_ip at ip) db.rows) _ _
          (update_rows-key (has_ip at ip) _
            (record {
              id = λ r. refl;
              site_id = λ r. refl;
              mac = λ r. refl;
              seen_count = λ r. omega arith;
            })
            site key db.rows)
          refl)

  with_events-has_row :
      (now : String) (before : Device) (db : Inventory) (r : Result Device)
      → Keeps db (with_events now before db r).0
  with_events-has_row now before db (err e) = refl
  with_events-has_row now before db (ok d) = refl

  stored_intelligence-has_row :
      (now at open_ports services : String) (i : Intelligence) (db : Inventory) (r : Result Device)
      → Keeps db (stored_intelligence now at open_ports services i db r).0
  stored_intelligence-has_row now at open_ports services i db (err e) = refl
  stored_intelligence-has_row now at open_ports services i db (ok before) =
      with_events-has_row now before _ (device at i.device_id _)
      ∙ update_rows-key (has_id at i.device_id) _
          (record {
            id = λ r. refl;
            site_id = λ r. refl;
            mac = λ r. refl;
            seen_count = λ r. omega arith;
          })
          site key db.rows

  update_device_intelligence-has_row :
      (now at open_ports services : String) (i : Intelligence) (db : Inventory)
      → LeavesRow db (update_device_intelligence now at open_ports services i db)
  unfolding update_device_intelligence
  update_device_intelligence-has_row now at open_ports services i db =
      stored_intelligence-has_row now at open_ports services i db (device at i.device_id db)

  or_given-has_row :
      (w : World) (d : Device) (db : Inventory) (r : Inventory × Result Device)
      → LeavesRow db r
      → Keeps db (or_given w.json d r).0
  or_given-has_row w d db (after, err e) h = h
  or_given-has_row w d db (after, ok updated) h = h

  persist_device_services-has_row :
      (w : World) (now at : String) (d : Device) (services : List String) (db : Inventory)
      → Keeps db (persist_device_services w.json now at d services db).0
  unfolding persist_device_services
  persist_device_services-has_row w now at d services db =
      or_given-has_row w _ db _ (update_device_intelligence-has_row now at _ _ _ db)

  with_services-has_row :
      (w : World) (now at : String) (services : List String) (db : Inventory)
      (r : Inventory × Result Device)
      → LeavesRow db r
      → Keeps db (with_services w now at services r)
  with_services-has_row w now at services db (after, err e) h = h
  with_services-has_row w now at services db (after, ok d) h =
      either (Keeps db) (is_nil services) _ _ h
        (persist_device_services-has_row w now at d services after ∙ h)

  identified-has_row :
      (w : World) (now at : String) (d : DeviceRow) (r : IdentityResult) (db : Inventory)
      → Keeps db (identified w now at d r db)
  identified-has_row w now at d r db =
      let source = or_auto (identity_source_label r.sources) in
      let update = update_device_identity_by_ip now at d.ip r.hostname r.vendor source db in
      elim (Bool-cases (str_eq r.hostname "" && (str_eq r.vendor "" && is_nil r.services))) [
        | inl nothing ↦ rw nothing refl
        | inr learnt ↦ rw learnt (
            with_services-has_row w now at r.services db update
              (update_device_identity_by_ip-has_row now at d.ip r.hostname r.vendor source db))
      ]

  enrich_device-has_row :
      (w : World) (now at : String) (d : DeviceRow) (db : Inventory)
      → Keeps db (enrich_device w now at d db)
  unfolding enrich_device
  enrich_device-has_row w now at d db =
      elim (Bool-cases
        (str_eq d.ip "" || (not (str_eq d.hostname "") && not (str_eq d.vendor "")))) [
          | inl skipped ↦ rw skipped refl
          | inr asked ↦ rw asked (
              identified-has_row w now at d
                (enrich w.is_ip w.lease_paths w.surroundings (record { ip = d.ip; mac = d.mac }))
                db)
        ]

  enrich_devices-has_row :
      (w : World) (now at : String) (ds : List DeviceRow) (db : Inventory)
      → Keeps db (enrich_devices w now at ds db)
  unfolding enrich_devices
  enrich_devices-has_row w now at [] db = refl
  enrich_devices-has_row w now at (d ∷ ds) db =
      enrich_devices-has_row w now at ds (enrich_device w now at d db)
      ∙ enrich_device-has_row w now at d db

kept :
    (db : Inventory) (d : DeviceRow)
    → is_stored db d ≡ true
    → no_key d ≡ false
    → has_row d.site_id (storage_mac d) db ≡ true
kept db d h keyed = ground (arith, h, keyed)

-- A device that is stored, and has a MAC, has a row of its site.
stored-has_row :
    (site m : String) (ds : List DeviceRow) (db : Inventory)
    → str_eq m "" ≡ false
    → All (λ (d : DeviceRow). d.site_id ≡ site) ds
    → All (λ (d : DeviceRow). is_stored db d ≡ true) ds
    → any (mac_is m) ds ≡ true
    → has_row site m db ≡ true
unfolding storage_mac
stored-has_row site m [] db given own stored found = ground (arith, found)
stored-has_row site m (d ∷ ds) db given own stored found = elim (Bool-cases (str_eq d.mac m)) [
  | inl here ↦
      let key : storage_mac d ≡ m =
        ground (arith, given, here, eq_iff d.mac m, eq_iff d.mac "", eq_iff m "") in
      ap (λ (s : String). has_row s m db) (sym own.0)
      ∙ ap (λ (k : String). has_row d.site_id k db) (sym key)
      ∙ kept db d stored.0 (rw key given)
  | inr later ↦ stored-has_row site m ds db given own.1 stored.1 (ground (arith, later, found))
]

-- A list of which some elements pass a test has one that does.
count-any : {A : Type 0} (p : A → Bool) (xs : List A) → 0 < count p xs → any p xs ≡ true
count-any p [] h = absurd (omega arith)
count-any p (x ∷ xs) h = ground (arith, h, count-any p xs)

save_failed-inventory :
    (now : String) (o : Option String) (s : RefreshState)
    → (save_failed now o s).inventory ≡ s.inventory
save_failed-inventory now none s = refl
save_failed-inventory now (some e) s = refl

new_detected-inventory :
    (now : String) (count : ℕ) (s : RefreshState)
    → (new_detected now count s).inventory ≡ s.inventory
new_detected-inventory now count s = elim (Bool-cases (ltb 0 count)) [
  | inl some_new ↦ rw some_new refl
  | inr no_new ↦ rw no_new refl
]

-- Where the database answers no error, the inventory holds a row of the site for every MAC that is not
-- empty and that one of the programs reports with a device, after the run has stored the devices and
-- what it learnt of them.
pub run_discovery-stored :
    (w : World) (cidrs : List String) (now site m : String) (s : RefreshState)
    → s.inventory.fault ≡ none
    → str_eq m "" ≡ false
    → any (mac_is m) (all_found w.is_ip w.submatch cidrs w.tools site now) ≡ true
    → has_row site m (run_discovery w cidrs now site s).0.inventory ≡ true
unfolding run_discovery
run_discovery-stored w cidrs now site m s works given reported =
    let found = run w.is_ip w.submatch cidrs w.tools site now in
    let after = upsert_devices found s.inventory in
    let stored = upsert_devices-stored found s.inventory works in
    let once = run-macs w.is_ip w.submatch cidrs w.tools site now m given in
    let one : Path ℕ (count (mac_is m) found) 1 = rw reported at once in
    let kept_row =
      enrich_devices-has_row site m w now site found after.0
      ∙ stored-has_row site m found after.0 given
          (run-OfSite w.is_ip w.submatch cidrs w.tools site now) stored.2
          (count-any (mac_is m) found (omega (arith, one))) in
    let saved : RefreshState = record s { inventory = after.0 } in
    let logged = save_failed now after.2 saved in
    ap (has_row site m) (
      new_detected-inventory now after.1
        (record logged { inventory = enrich_devices w now site found logged.inventory })
      ∙ ap (enrich_devices w now site found) (save_failed-inventory now after.2 saved))
    ∙ kept_row
