-- ===== src/Devices/Known.antt =====
-- The list of new devices and what takes a device from it (agent/internal/storage/storage.go).
use infracheck_appliance.Base.{
  ℕ, suc, String, Bool, true, false, ◌&&◌, not, Option, none, some, List, [], ◌∷◌, ◌≡◌, ◌≢◌, refl,
  ap, sym, ◌∙◌, arith, All, any, keep, map, length, if◌then◌else◌, str_eq, eq_iff, ◌==◌,
}
use infracheck_appliance.Base.Sort.{sort_with, sort_with-any, sort_with-length}
use infracheck_appliance.Base.Text.{text_lt}
use infracheck_appliance.Base.Result.{
  Result, ok, err, unless_fault, unless_fault-ok, unless_fault-none, no_rows,
}
use infracheck_appliance.Devices.{DeviceRow, Device, Inventory, update_rows, to_device}
use infracheck_appliance.Devices.Select.{
  select_devices, is_new, has_id, new_devices, missing_devices, is_missing, update_by_id,
  mark_device_known, mark_all_new_devices_known, reopen,
}

abbrev pub lists : ℕ → List Device → Bool
lists id = any (λ (d : Device). d.row.id == id)

map-lists :
    (id : ℕ) (db : Inventory) (rows : List DeviceRow)
    → lists id (map (to_device db) rows) ≡ any (λ r. r.id == id) rows
unfolding to_device
map-lists id db [] = refl
map-lists id db (r ∷ rows) = ground (arith, map-lists id db rows)

keep-any :
    (p q : DeviceRow → Bool) (rows : List DeviceRow)
    → any q (keep p rows) ≡ any (λ r. p r && q r) rows
keep-any p q [] = refl
keep-any p q (r ∷ rows) = ground (arith, keep-any p q rows)

keep-empty : (p : DeviceRow → Bool) (rows : List DeviceRow) → any p rows ≡ false → keep p rows ≡ []
keep-empty p [] h = refl
keep-empty p (r ∷ rows) h = ground (arith, h, keep-empty p rows)

length-map : {A B : Type 0} (f : A → B) (xs : List A) → length (map f xs) ≡ length xs
length-map f [] = refl
length-map f (x ∷ xs) = ap suc (length-map f xs)

module _ (p : DeviceRow → Bool) (before : DeviceRow → DeviceRow → Bool) (db : Inventory) where
  -- A SELECT lists exactly the devices of the rows that meet its condition.
  pub select_devices-lists :
      (ds : List Device) (id : ℕ)
      → select_devices p before db ≡ ok ds
      → lists id ds ≡ any (λ r. p r && r.id == id) db.rows
  unfolding select_devices
  select_devices-lists ds id found =
      ap (lists id) (sym (unless_fault-ok db.fault _ ds found).1)
      ∙ map-lists id db (sort_with before (keep p db.rows))
      ∙ sort_with-any before (λ r. r.id == id) (keep p db.rows)
      ∙ keep-any p (λ r. r.id == id) db.rows

  pub select_devices-length :
      (ds : List Device) → select_devices p before db ≡ ok ds → length ds ≡ length (keep p db.rows)
  unfolding select_devices
  select_devices-length ds found =
      ap length (sym (unless_fault-ok db.fault _ ds found).1)
      ∙ length-map (to_device db) (sort_with before (keep p db.rows))
      ∙ sort_with-length before (keep p db.rows)

  -- Where no row meets the condition, and the database answers no error, it lists none.
  pub select_devices-empty :
      db.fault ≡ none → any p db.rows ≡ false → select_devices p before db ≡ ok []
  unfolding select_devices sort_with
  select_devices-empty works nothing =
      unless_fault-none (λ found. found ≡ ok []) db.fault err _ works
        (ap (λ rows. ok (map (to_device db) (sort_with before rows)))
          (keep-empty p db.rows nothing))

-- Marking one device.
marked-lists :
    (now site : String) (id other : ℕ) (rows : List DeviceRow)
    → now ≢ ""
    → any
        (λ r. is_new site r && r.id == other)
        (update_rows (has_id site id) (λ r. record r { known_at = now }) rows)
      ≡ (not (other == id) && any (λ r. is_new site r && r.id == other) rows)
unfolding update_rows
marked-lists now site id other [] t = ground arith
marked-lists now site id other (r ∷ rows) t =
    ground (arith, marked-lists now site id other rows t, eq_iff now "", t)

abbrev updated_if :
    Option String → Bool → Inventory → Inventory → Result Device → Inventory × Result Device
updated_if o b db after found =
    unless_fault o (λ e. (db, err e)) (if b then (after, found) else (db, err no_rows))

-- An update that answers a device is the one that it says.
update_outcome :
    (o : Option String) (b : Bool) (db after : Inventory) (found : Result Device) (d : Device)
    → (updated_if o b db after found).1 ≡ ok d
    → (updated_if o b db after found).0 ≡ after
update_outcome (some e) b db after found d h = ground (arith, h)
update_outcome none true db after found d h = refl
update_outcome none false db after found d h = ground (arith, h)

marked :
    (now site : String) (id : ℕ) (db : Inventory) (d : Device)
    → (mark_device_known now site id db).1 ≡ ok d
    → (mark_device_known now site id db).0
      ≡ record db { rows = update_rows (has_id site id) (λ r. record r { known_at = now }) db.rows }
unfolding mark_device_known update_by_id
marked now site id db d done = update_outcome db.fault (any (has_id site id) db.rows) db _ _ d done

-- Once a device is marked as known at a time that is not empty, the list of new devices of its site
-- is what it was without that device.
pub mark_device_known-new_devices :
    (now site : String) (id : ℕ) (db : Inventory) (d : Device) (before after : List Device)
    (other : ℕ)
    → now ≢ ""
    → (mark_device_known now site id db).1 ≡ ok d
    → new_devices site db ≡ ok before
    → new_devices site (mark_device_known now site id db).0 ≡ ok after
    → lists other after ≡ (not (other == id) && lists other before)
unfolding new_devices
mark_device_known-new_devices now site id db d before after other t done was is =
    select_devices-lists (is_new site) _ (mark_device_known now site id db).0 after other is
    ∙ ap (λ (db : Inventory). any (λ r. is_new site r && r.id == other) db.rows)
        (marked now site id db d done)
    ∙ marked-lists now site id other db.rows t
    ∙ ap (λ b. not (other == id) && b)
        (sym (select_devices-lists (is_new site) _ db before other was))

nothing_new :
    (now site : String) (rows : List DeviceRow)
    → now ≢ ""
    → any (is_new site) (update_rows (is_new site) (λ r. record r { known_at = now }) rows) ≡ false
unfolding update_rows
nothing_new now site [] t = refl
nothing_new now site (r ∷ rows) t = ground (arith, nothing_new now site rows t, eq_iff now "", t)

-- Marking all new devices of a site answers the number of the new devices that were listed, and
-- leaves none, at a time that is not empty.
pub mark_all_new_devices_known-new_devices :
    (now site : String) (db : Inventory) (before : List Device)
    → now ≢ ""
    → new_devices site db ≡ ok before
    → ((mark_all_new_devices_known now site db).1 ≡ ok (length before))
      × (new_devices site (mark_all_new_devices_known now site db).0 ≡ ok [])
unfolding new_devices mark_all_new_devices_known select_devices
mark_all_new_devices_known-new_devices now site db before t was =
    let works = (unless_fault-ok db.fault _ before was).0 in
    (
      unless_fault-none (λ (r : Inventory × Result ℕ). r.1 ≡ ok (length before)) db.fault _ _ works
          (ap ok (sym (select_devices-length (is_new site) _ db before was))),
      unless_fault-none (λ (r : Inventory × Result ℕ). new_devices site r.0 ≡ ok []) db.fault _ _
          works (select_devices-empty (is_new site) _ _ works (nothing_new now site db.rows t)),
    )

reopened :
    (site : String) (rows : List DeviceRow)
    → All (λ r. r.first_seen ≢ "") rows
    → any (is_new site) (
        update_rows
          (λ r. str_eq r.known_at "" && not (str_eq r.first_seen ""))
          (λ r. record r { known_at = r.first_seen })
          rows)
      ≡ false
unfolding update_rows
reopened site [] h = refl
reopened site (r ∷ rows) h = ground (arith, reopened site rows h.1, eq_iff r.first_seen "", h.0)

-- After the database is opened again, no site has a new device, whether or not somebody marked the
-- devices as known, where every row has a time at which the device was first seen.
pub reopen-new_devices :
    (site : String) (db : Inventory)
    → db.fault ≡ none
    → All (λ r. r.first_seen ≢ "") db.rows
    → new_devices site (reopen db) ≡ ok []
unfolding new_devices reopen
reopen-new_devices site db works seen =
    select_devices-empty (is_new site) _ (reopen db) works (reopened site db.rows seen)

-- A device that is listed as missing is one of the site whose owner asked to be told, and that was
-- last seen before the cutoff; and every such device is listed.
pub missing_devices-lists :
    (site cutoff : String) (db : Inventory) (ds : List Device) (id : ℕ)
    → missing_devices site cutoff db ≡ ok ds
    → lists id ds
      ≡ any
          (λ r.
            (str_eq r.site_id site && r.monitor_missing && text_lt r.last_seen cutoff)
            && r.id == id)
          db.rows
unfolding missing_devices
missing_devices-lists site cutoff db ds id found =
    select_devices-lists (is_missing site cutoff) _ db ds id found
