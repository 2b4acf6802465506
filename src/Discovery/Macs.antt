-- ===== src/Discovery/Macs.antt =====
-- The MACs of a run of the discovery (agent/internal/runner/discovery.go).
use infracheck_appliance.Base.{
  String, Bool, false, List, [], ◌∷◌, ◌≡◌, refl, ◌∙◌, arith, map, any, count, if◌then◌else◌, str_eq,
  eq_iff, All,
}
use infracheck_appliance.Base.Text.{text_lt}
use infracheck_appliance.Base.Sort.{sort_with-count}
use infracheck_appliance.Base.Dict.{Dict, lookup, values, NodupKeys, NodupKeys-fresh}
use infracheck_appliance.Devices.{DeviceRow}
use infracheck_appliance.Discovery.{Tools}
use infracheck_appliance.Discovery.Merge.{merge_all, named, all_found, run}
use infracheck_appliance.Discovery.Merged.{IsMerged, IsOwnKey, merge_all-IsMerged}
use infracheck_appliance.Discovery.Held.{merge_all-has_mac, has_mac, has_mac-has}

abbrev pub mac_is : String → DeviceRow → Bool
mac_is m d = str_eq d.mac m

values-count :
    (m : String) (ds : Dict DeviceRow)
    → str_eq m "" ≡ false
    → All IsOwnKey ds
    → NodupKeys ds
    → count (mac_is m) (values ds) ≡ (if has_mac m ds then 1 else 0)
unfolding values lookup
values-count m [] given keyed distinct = refl
values-count m ((k, d) ∷ ds) given keyed distinct = ground (
  arith,
  given,
  keyed.0,
  values-count m ds given keyed.1 distinct.1,
  NodupKeys-fresh k m d ds distinct,
  has_mac-has m ds,
  eq_iff k m,
  eq_iff d.mac "",
  eq_iff d.mac m,
  eq_iff m "",
)

named-count :
    (m : String) (is_ip : String → Bool) (lookup_addr : String → List String) (ds : List DeviceRow)
    → count (mac_is m) (map (named is_ip lookup_addr) ds) ≡ count (mac_is m) ds
named-count m is_ip lookup_addr [] = refl
named-count m is_ip lookup_addr (d ∷ ds) = ground (arith, named-count m is_ip lookup_addr ds)

-- Of a MAC that is not empty the discovery answers exactly one device, if one of the programs reports
-- a device with it, and none otherwise.
pub run-macs :
    (is_ip : String → Bool) (submatch : String → String → List String) (configured : List String)
    (tools : Tools) (site now m : String)
    → str_eq m "" ≡ false
    → count (mac_is m) (run is_ip submatch configured tools site now)
      ≡ (if any (mac_is m) (all_found is_ip submatch configured tools site now) then 1 else 0)
unfolding run
run-macs is_ip submatch configured tools site now m given =
    let found = all_found is_ip submatch configured tools site now in
    let nothing : IsMerged [] = record { keyed = tt; distinct = tt } in
    let merged = merge_all-IsMerged [] found nothing in
    sort_with-count (λ (a : DeviceRow) b. text_lt a.ip b.ip) (mac_is m)
      (map (named is_ip tools.lookup_addr) (values (merge_all [] found)))
    ∙ named-count m is_ip tools.lookup_addr (values (merge_all [] found))
    ∙ values-count m (merge_all [] found) given merged.keyed merged.distinct
    ∙ (unfold lookup in ground (arith, merge_all-has_mac m given [] found nothing))
