-- ===== src/Discovery/Held.antt =====
-- Which MACs the merge of the discovered devices keeps (agent/internal/runner/discovery.go).
use infracheck_appliance.Base.{
  String, Bool, true, false, ◌||◌, Option, none, some, List, [], ◌∷◌, ◌≡◌, refl, sym, ◌∙◌, arith,
  ap, any, if◌then◌else◌, str_eq, eq_iff, Bool-cases, Option-cases, inl, inr,
}
use infracheck_appliance.Base.Dict.{
  Dict, lookup, insert, delete, lookup-insert, lookup-delete, has, lookup-All, lookup-has,
}
use infracheck_appliance.Devices.{DeviceRow}
use infracheck_appliance.Discovery.Merge.{
  merge_device_fields, key_of, find_ip, put_device, merge_address, merge_mac, merge_device,
  merge_all,
}
use infracheck_appliance.Discovery.Merged.{
  IsOwnKey, IsMerged, find_ip-lookup, merged_mac, merge_device-IsMerged,
}

-- Whether the device that the map answers for a MAC has it.
abbrev holds : String → Option DeviceRow → Bool
holds m none = false
holds m (some d) = str_eq d.mac m

abbrev pub has_mac : String → Dict DeviceRow → Bool
has_mac m ds = holds m (lookup m ds)

holds-if :
    (m : String) (b : Bool) (o p : Option DeviceRow)
    → holds m (if b then o else p) ≡ (if b then holds m o else holds m p)
holds-if m true o p = refl
holds-if m false o p = refl

has_mac-insert :
    (m k : String) (d : DeviceRow) (ds : Dict DeviceRow)
    → has_mac m (insert k d ds) ≡ (if str_eq k m then str_eq d.mac m else has_mac m ds)
has_mac-insert m k d ds =
    ap (holds m) (lookup-insert k m d ds) ∙ holds-if m (str_eq k m) (some d) (lookup m ds)

has_mac-delete :
    (m k : String) (ds : Dict DeviceRow)
    → has_mac m (delete k ds) ≡ (if str_eq k m then false else has_mac m ds)
has_mac-delete m k ds =
    ap (holds m) (lookup-delete k m ds) ∙ holds-if m (str_eq k m) none (lookup m ds)

-- What the map answers for a key decides for the MAC that is the key.
has_mac-at :
    (m k : String) (o : Option DeviceRow) (ds : Dict DeviceRow)
    → lookup k ds ≡ o
    → str_eq k m ≡ true
    → has_mac m ds ≡ holds m o
has_mac-at m k o ds h e =
    ap (λ (x : String). holds m (lookup x ds)) (sym ((eq_iff k m).0 e)) ∙ ap (holds m) h

-- The MACs in the map after one more device: those before, and its own.
module _ (m : String) (given : str_eq m "" ≡ false) where
  put_device-has_mac :
      (next : DeviceRow) (ds : Dict DeviceRow)
      → IsMerged ds
      → has_mac m (put_device next (lookup (key_of next) ds) ds)
        ≡ (str_eq next.mac m || has_mac m ds)
  put_device-has_mac next ds h = elim (Option-cases (lookup (key_of next) ds)) [
    | inl new ↦ rw new (
        ground (
          arith,
          given,
          has_mac-insert m (key_of next) next ds,
          has_mac-at m (key_of next) none ds new,
          eq_iff next.mac m,
          eq_iff next.mac "",
          eq_iff m "",
        ))
    | inr (current, old) ↦ rw old (
        ground (
          arith,
          given,
          has_mac-insert m (key_of next) (merge_device_fields current next) ds,
          merged_mac current next,
          lookup-All IsOwnKey (key_of next) current ds h.keyed old,
          has_mac-at m (key_of next) (some current) ds old,
          eq_iff next.mac m,
          eq_iff next.mac "",
          eq_iff m "",
          eq_iff current.mac m,
          eq_iff current.mac "",
          eq_iff (key_of next) m,
        ))
  ]

  merge_address-has_mac :
      (next : DeviceRow) (ds : Dict DeviceRow)
      → str_eq next.mac "" ≡ true
      → IsMerged ds
      → has_mac m (merge_address next (find_ip next.ip ds) ds) ≡ (str_eq next.mac m || has_mac m ds)
  merge_address-has_mac next ds e h = elim (Option-cases (find_ip next.ip ds)) [
    | inl new ↦ rw new (put_device-has_mac next ds h)
    | inr ((k, current), old) ↦ rw old (
        let there = find_ip-lookup next.ip k current ds h.distinct old in
        ground (
          arith,
          given,
          e,
          has_mac-insert m k (merge_device_fields current next) ds,
          merged_mac current next,
          has_mac-at m k (some current) ds there.0,
          eq_iff next.mac m,
          eq_iff next.mac "",
          eq_iff m "",
          eq_iff current.mac m,
          eq_iff current.mac "",
        ))
  ]

  merge_mac-has_mac :
      (next : DeviceRow) (o : Option DeviceRow) (ds : Dict DeviceRow)
      → lookup next.ip ds ≡ o
      → str_eq next.mac "" ≡ false
      → IsMerged ds
      → has_mac m (merge_mac next o ds) ≡ (str_eq next.mac m || has_mac m ds)
  merge_mac-has_mac next none ds there e h = put_device-has_mac next ds h
  merge_mac-has_mac next (some d) ds there e h = elim (Bool-cases (str_eq d.mac "")) [
    | inl address ↦ rw address (
        ground (
          arith,
          given,
          e,
          address,
          has_mac-insert m (key_of next) (merge_device_fields next d) (delete next.ip ds),
          has_mac-delete m next.ip ds,
          merged_mac next d,
          has_mac-at m next.ip (some d) ds there,
          eq_iff next.mac m,
          eq_iff next.mac "",
          eq_iff m "",
          eq_iff d.mac "",
          eq_iff d.mac m,
        ))
    | inr mac ↦ rw mac (put_device-has_mac next ds h)
  ]

  merge_device-has_mac :
      (ds : Dict DeviceRow) (next : DeviceRow)
      → IsMerged ds
      → has_mac m (merge_device ds next) ≡ (str_eq next.mac m || has_mac m ds)
  unfolding merge_device
  merge_device-has_mac ds next h = elim (Bool-cases (str_eq next.mac "")) [
    | inl address ↦ rw address (merge_address-has_mac next ds address h)
    | inr mac ↦ rw mac (merge_mac-has_mac next (lookup next.ip ds) ds refl mac h)
  ]

  pub merge_all-has_mac :
      (ds : Dict DeviceRow) (found : List DeviceRow)
      → IsMerged ds
      → has_mac m (merge_all ds found) ≡ (any (λ d. str_eq d.mac m) found || has_mac m ds)
  unfolding merge_all
  merge_all-has_mac ds [] h = refl
  merge_all-has_mac ds (d ∷ found) h =
      merge_all-has_mac (merge_device ds d) found (merge_device-IsMerged ds d h)
      ∙ ground (arith, merge_device-has_mac ds d h)

pub has_mac-has : (m : String) (ds : Dict DeviceRow) → has_mac m ds ≡ true → has m ds ≡ true
has_mac-has m ds h = elim (Option-cases (lookup m ds)) [
  | inl new ↦ absurd (ground (arith, new, h))
  | inr (d, old) ↦ lookup-has m d ds old
]
