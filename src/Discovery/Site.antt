-- ===== src/Discovery/Site.antt =====
-- The devices that a run of the discovery answers are of its site (agent/internal/runner/discovery.go).
use infracheck_appliance.Base.{
  String, Bool, Option, none, some, List, [], ◌∷◌, ◌≡◌, refl, arith, map, str_eq, either, All,
  All-append,
}
use infracheck_appliance.Base.Lines.{fields, scan_lines}
use infracheck_appliance.Base.Sort.{sort_with-All}
use infracheck_appliance.Base.Dict.{
  Dict, lookup, delete, values, insert-All, delete-All, lookup-All,
}
use infracheck_appliance.Devices.{DeviceRow}
use infracheck_appliance.Discovery.{
  Tools, Scan, concat_map, scan_ranges, scanned_by, neigh_device, run_ip_neigh, arp_device, run_arp,
  arp_scan_device, run_arp_scan, nmap_device, run_nmap_ping_sweep,
}
use infracheck_appliance.Discovery.Merge.{
  merge_device_fields, key_of, find_ip, put_device, merge_address, merge_mac, merge_device,
  merge_all, named, all_found, run,
}

abbrev pub OfSite : String → DeviceRow → Type 0
OfSite site d = d.site_id ≡ site

module _ (site : String) where
  abbrev AllOf : List DeviceRow → Type 0
  AllOf = All (OfSite site)

  concat_map-AllOf :
      (f : String → List DeviceRow) (ls : List String)
      → ((l : String) → AllOf (f l))
      → AllOf (concat_map f ls)
  concat_map-AllOf f [] h = tt
  concat_map-AllOf f (l ∷ ls) h =
      All-append (OfSite site) (f l) (concat_map f ls) (h l) (concat_map-AllOf f ls h)

  scan_ranges-AllOf :
      (tool : String → Scan) (read : String → List DeviceRow) (cidrs : List String)
      → ((l : String) → AllOf (read l))
      → AllOf (scan_ranges tool read cidrs)
  unfolding scan_ranges
  scan_ranges-AllOf tool read [] h = tt
  scan_ranges-AllOf tool read (cidr ∷ cidrs) h = either AllOf (tool cidr).stopped [] _ tt (
      All-append (OfSite site) _ _ (concat_map-AllOf read (scan_lines (tool cidr).output) h)
        (scan_ranges-AllOf tool read cidrs h))

  scanned_by-AllOf :
      (tool : Option (String → Scan)) (read : String → List DeviceRow) (cidrs : List String)
      → ((l : String) → AllOf (read l))
      → AllOf (scanned_by tool read cidrs)
  scanned_by-AllOf none read cidrs h = tt
  scanned_by-AllOf (some tool) read cidrs h = scan_ranges-AllOf tool read cidrs h

  module _ (is_ip : String → Bool) (submatch : String → String → List String) (now : String) where
    neigh_device-AllOf : (ws : List String) → AllOf (neigh_device is_ip site now ws)
    unfolding neigh_device
    neigh_device-AllOf [] = tt
    neigh_device-AllOf (a ∷ []) = tt
    neigh_device-AllOf (a ∷ b ∷ []) = tt
    neigh_device-AllOf (a ∷ b ∷ c ∷ []) = tt
    neigh_device-AllOf (a ∷ b ∷ c ∷ d ∷ []) = tt
    neigh_device-AllOf (a ∷ b ∷ c ∷ d ∷ e ∷ ws) = ground arith

    arp_device-AllOf : (ws : List String) → AllOf (arp_device is_ip submatch site now ws)
    arp_device-AllOf [] = tt
    arp_device-AllOf (a ∷ []) = tt
    arp_device-AllOf (a ∷ b ∷ []) = tt
    arp_device-AllOf (a ∷ b ∷ c ∷ []) = ground arith
    arp_device-AllOf (a ∷ b ∷ c ∷ d ∷ ws) = tt

    arp_scan_device-AllOf : (ws : List String) → AllOf (arp_scan_device is_ip site now ws)
    unfolding arp_scan_device
    arp_scan_device-AllOf [] = tt
    arp_scan_device-AllOf (a ∷ []) = tt
    arp_scan_device-AllOf (a ∷ b ∷ ws) = ground arith

    nmap_device-AllOf : (ws : List String) → AllOf (nmap_device is_ip submatch site now ws)
    unfolding nmap_device
    nmap_device-AllOf [] = tt
    nmap_device-AllOf (a ∷ []) = tt
    nmap_device-AllOf (a ∷ b ∷ []) = tt
    nmap_device-AllOf (a ∷ b ∷ c ∷ []) = ground arith
    nmap_device-AllOf (a ∷ b ∷ c ∷ d ∷ ws) = tt

    run_ip_neigh-AllOf : (o : Option String) → AllOf (run_ip_neigh is_ip site now o)
    unfolding run_ip_neigh
    run_ip_neigh-AllOf none = tt
    run_ip_neigh-AllOf (some out) =
        concat_map-AllOf _ (scan_lines out) (λ l. neigh_device-AllOf (fields l))

    run_arp-AllOf : (o : Option String) → AllOf (run_arp is_ip submatch site now o)
    unfolding run_arp
    run_arp-AllOf none = tt
    run_arp-AllOf (some out) =
        concat_map-AllOf _ (scan_lines out) (λ l. arp_device-AllOf (submatch _ l))

    all_found-AllOf :
        (configured : List String) (tools : Tools)
        → AllOf (all_found is_ip submatch configured tools site now)
    unfolding all_found run_arp_scan run_nmap_ping_sweep
    all_found-AllOf configured tools =
        All-append (OfSite site) _ _ (run_ip_neigh-AllOf tools.ip_neigh) (
          All-append (OfSite site) _ _ (run_arp-AllOf tools.arp) (
            All-append (OfSite site) _ _
              (scanned_by-AllOf tools.arp_scan _ _ (λ l. arp_scan_device-AllOf (fields l)))
              (scanned_by-AllOf tools.nmap _ _ (λ l. nmap_device-AllOf (submatch _ l)))))

  abbrev EntryOf : String × DeviceRow → Type 0
  EntryOf e = e.1.site_id ≡ site

  put_device-EntryOf :
      (next : DeviceRow) (o : Option DeviceRow) (ds : Dict DeviceRow)
      → OfSite site next
      → ((d : DeviceRow) → o ≡ some d → OfSite site d)
      → All EntryOf ds
      → All EntryOf (put_device next o ds)
  unfolding merge_device_fields
  put_device-EntryOf next none ds own old h = insert-All EntryOf (key_of next) next ds own h
  put_device-EntryOf next (some d) ds own old h =
      insert-All EntryOf (key_of next) _ ds (old d refl) h

  merged_in :
      (next : DeviceRow) (k : String) (ds : Dict DeviceRow)
      → OfSite site next
      → All EntryOf ds
      → All EntryOf (put_device next (lookup k ds) ds)
  merged_in next k ds own h =
      put_device-EntryOf next (lookup k ds) ds own (λ d e. lookup-All EntryOf k d ds h e) h

  find_ip-EntryOf :
      (ip k : String) (d : DeviceRow) (ds : Dict DeviceRow)
      → All EntryOf ds
      → find_ip ip ds ≡ some (k, d)
      → OfSite site d
  unfolding find_ip
  find_ip-EntryOf ip k d [] h e = absurd (cc)
  find_ip-EntryOf ip k d ((j, c) ∷ ds) h e = ground (arith, e, h.0, find_ip-EntryOf ip k d ds h.1)

  merge_device-EntryOf :
      (ds : Dict DeviceRow) (next : DeviceRow)
      → OfSite site next
      → All EntryOf ds
      → All EntryOf (merge_device ds next)
  unfolding merge_device
  merge_device-EntryOf ds next own h =
      either (All EntryOf) (str_eq next.mac "") _ _
        (of_address (find_ip next.ip ds) (λ k d. find_ip-EntryOf next.ip k d ds h))
        (of_mac (lookup next.ip ds))
    where
      of_address :
          (o : Option (String × DeviceRow))
          → ((k : String) (d : DeviceRow) → o ≡ some (k, d) → OfSite site d)
          → All EntryOf (merge_address next o ds)
      of_address none old = merged_in next (key_of next) ds own h
      of_address (some (k, d)) old =
          unfold merge_device_fields in insert-All EntryOf k _ ds (old k d refl) h

      of_mac : (o : Option DeviceRow) → All EntryOf (merge_mac next o ds)
      of_mac none = merged_in next (key_of next) ds own h
      of_mac (some d) =
          either (All EntryOf) (str_eq d.mac "") _ _
            (unfold merge_device_fields in
              insert-All EntryOf (key_of next) _ (delete next.ip ds) own
                (delete-All EntryOf next.ip ds h))
            (merged_in next (key_of next) ds own h)

  merge_all-EntryOf :
      (ds : Dict DeviceRow) (found : List DeviceRow)
      → AllOf found
      → All EntryOf ds
      → All EntryOf (merge_all ds found)
  unfolding merge_all
  merge_all-EntryOf ds [] own h = h
  merge_all-EntryOf ds (d ∷ found) own h =
      merge_all-EntryOf (merge_device ds d) found own.1 (merge_device-EntryOf ds d own.0 h)

  named-values :
      (is_ip : String → Bool) (lookup_addr : String → List String) (ds : Dict DeviceRow)
      → All EntryOf ds
      → AllOf (map (named is_ip lookup_addr) (values ds))
  unfolding values
  named-values is_ip lookup_addr [] h = tt
  named-values is_ip lookup_addr ((k, d) ∷ ds) h = (h.0, named-values is_ip lookup_addr ds h.1)

pub run-OfSite :
    (is_ip : String → Bool) (submatch : String → String → List String) (configured : List String)
    (tools : Tools) (site now : String)
    → All (OfSite site) (run is_ip submatch configured tools site now)
unfolding run
run-OfSite is_ip submatch configured tools site now =
    let found = all_found is_ip submatch configured tools site now in
    sort_with-All _ (OfSite site) _ (
      named-values site is_ip tools.lookup_addr (merge_all [] found) (
        merge_all-EntryOf site [] found (all_found-AllOf site is_ip submatch now configured tools)
          tt))
