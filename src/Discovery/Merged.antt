-- ===== src/Discovery/Merged.antt =====
-- What the merge of the discovered devices keeps (agent/internal/runner/discovery.go).
use infracheck_appliance.Base.{
  String, true, false, Option, none, some, List, [], ◌∷◌, ◌≡◌, refl, subst, ◌∙◌, arith,
  if◌then◌else◌, str_eq, eq_iff, Bool-cases, Option-cases, inl, inr, All, either,
}
use infracheck_appliance.Base.Dict.{
  Dict, lookup, insert, delete, NodupKeys, insert-All, delete-All, insert-NodupKeys,
  delete-NodupKeys, lookup-All, lookup-here, lookup-has, NodupKeys-fresh, lookup-later,
}
use infracheck_appliance.Devices.{DeviceRow}
use infracheck_appliance.Discovery.Merge.{
  merge_device_fields, key_of, find_ip, put_device, merge_address, merge_mac, merge_device,
  merge_all,
}

abbrev pub IsOwnKey : String × DeviceRow → Type 0
IsOwnKey e = e.0 ≡ key_of e.1

-- Each device stands under its own key, and no key stands twice.
pub record IsMerged (ds : Dict DeviceRow) : Type 0 where
  pub keyed : All IsOwnKey ds
  pub distinct : NodupKeys ds

insert-IsMerged :
    (k : String) (d : DeviceRow) (ds : Dict DeviceRow)
    → k ≡ key_of d
    → IsMerged ds
    → IsMerged (insert k d ds)
insert-IsMerged k d ds own h = record {
  keyed = insert-All IsOwnKey k d ds own h.keyed;
  distinct = insert-NodupKeys k d ds h.distinct;
}

delete-IsMerged : (k : String) (ds : Dict DeviceRow) → IsMerged ds → IsMerged (delete k ds)
delete-IsMerged k ds h = record {
  keyed = delete-All IsOwnKey k ds h.keyed;
  distinct = delete-NodupKeys k ds h.distinct;
}

-- The first device at an address is what the map answers for its key.
pub find_ip-lookup :
    (ip k : String) (d : DeviceRow) (ds : Dict DeviceRow)
    → NodupKeys ds
    → find_ip ip ds ≡ some (k, d)
    → (lookup k ds ≡ some d) × (str_eq d.ip ip ≡ true)
unfolding find_ip
find_ip-lookup ip k d [] h e = absurd (cc)
find_ip-lookup ip k d ((j, c) ∷ ds) h e = elim (Bool-cases (str_eq c.ip ip)) [
  | inl same ↦
      let stored : Path (Option (String × DeviceRow)) (some (j, c)) (some (k, d)) = rw same at e in
      let entry : Path (String × DeviceRow) (j, c) (k, d) = cc in
      subst
        (λ (x : String × DeviceRow).
          (lookup x.0 ((j, c) ∷ ds) ≡ some x.1) × (str_eq x.1.ip ip ≡ true))
        entry (lookup-here j c ds, same)
  | inr other ↦
      let later = find_ip-lookup ip k d ds h.1 (rw other at e) in
      (
        lookup-later j k c ds (NodupKeys-fresh j k c ds h (lookup-has k d ds later.0)) ∙ later.0,
        later.1,
      )
]

pub merged_mac :
    (current next : DeviceRow)
    → (merge_device_fields current next).mac
      ≡ (if str_eq current.mac "" then next.mac else current.mac)
unfolding merge_device_fields
merged_mac current next = refl

key-same :
    (current next : DeviceRow)
    → key_of next ≡ key_of current
    → key_of next ≡ key_of (merge_device_fields current next)
unfolding merge_device_fields
key-same current next h =
    ground (arith, eq_iff current.mac "", eq_iff next.mac "", eq_iff current.ip "", h)

key-address :
    (current next : DeviceRow)
    → str_eq next.mac "" ≡ true
    → str_eq current.ip next.ip ≡ true
    → key_of current ≡ key_of (merge_device_fields current next)
unfolding merge_device_fields
key-address current next h e = ground (
  arith,
  h,
  e,
  eq_iff current.mac "",
  eq_iff next.mac "",
  eq_iff current.ip "",
  eq_iff current.ip next.ip,
)

key-mac :
    (current next : DeviceRow)
    → str_eq current.mac "" ≡ false
    → key_of current ≡ key_of (merge_device_fields current next)
unfolding merge_device_fields
key-mac current next h = ground (arith, h)

put_device-IsMerged :
    (next : DeviceRow) (ds : Dict DeviceRow)
    → IsMerged ds
    → IsMerged (put_device next (lookup (key_of next) ds) ds)
put_device-IsMerged next ds h = elim (Option-cases (lookup (key_of next) ds)) [
  | inl new ↦ rw new (insert-IsMerged (key_of next) next ds refl h)
  | inr (current, old) ↦ rw old (
      insert-IsMerged (key_of next) (merge_device_fields current next) ds
        (key-same current next (lookup-All IsOwnKey (key_of next) current ds h.keyed old)) h)
]

merge_address-IsMerged :
    (next : DeviceRow) (ds : Dict DeviceRow)
    → str_eq next.mac "" ≡ true
    → IsMerged ds
    → IsMerged (merge_address next (find_ip next.ip ds) ds)
merge_address-IsMerged next ds e h = elim (Option-cases (find_ip next.ip ds)) [
  | inl new ↦ rw new (put_device-IsMerged next ds h)
  | inr ((k, current), old) ↦ rw old (
      let there = find_ip-lookup next.ip k current ds h.distinct old in
      insert-IsMerged k (merge_device_fields current next) ds
        (lookup-All IsOwnKey k current ds h.keyed there.0 ∙ key-address current next e there.1) h)
]

merge_mac-IsMerged :
    (next : DeviceRow) (o : Option DeviceRow) (ds : Dict DeviceRow)
    → str_eq next.mac "" ≡ false
    → IsMerged ds
    → IsMerged (merge_mac next o ds)
merge_mac-IsMerged next none ds e h = put_device-IsMerged next ds h
merge_mac-IsMerged next (some d) ds e h =
    either IsMerged (str_eq d.mac "") _ _
      (insert-IsMerged (key_of next) (merge_device_fields next d) (delete next.ip ds)
        (key-mac next d e) (delete-IsMerged next.ip ds h))
      (put_device-IsMerged next ds h)

pub merge_device-IsMerged :
    (ds : Dict DeviceRow) (next : DeviceRow) → IsMerged ds → IsMerged (merge_device ds next)
unfolding merge_device
merge_device-IsMerged ds next h = elim (Bool-cases (str_eq next.mac "")) [
  | inl address ↦ rw address (merge_address-IsMerged next ds address h)
  | inr mac ↦ rw mac (merge_mac-IsMerged next (lookup next.ip ds) ds mac h)
]

pub merge_all-IsMerged :
    (ds : Dict DeviceRow) (found : List DeviceRow) → IsMerged ds → IsMerged (merge_all ds found)
unfolding merge_all
merge_all-IsMerged ds [] h = h
merge_all-IsMerged ds (d ∷ found) h =
    merge_all-IsMerged (merge_device ds d) found (merge_device-IsMerged ds d h)
