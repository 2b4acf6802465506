-- ===== src/Discovery/Merge.antt =====
-- The merge of the discovered devices, and a run of the discovery (agent/internal/runner/discovery.go).
use infracheck_appliance.Base.{
  String, Bool, ◌||◌, not, Option, none, some, List, [], ◌∷◌, ◌++◌, map, if◌then◌else◌, str_eq,
}
use infracheck_appliance.Base.Text.{trim_space, text_lt, trim_dot, ◌<>◌}
use infracheck_appliance.Base.Sort.{sort_with}
use infracheck_appliance.Base.Dict.{Dict, lookup, insert, delete, values}
use infracheck_appliance.Devices.{DeviceRow}
use infracheck_appliance.Discovery.{
  found, Tools, run_ip_neigh, run_arp_scan, run_arp, run_nmap_ping_sweep, discovery_cidrs, or_next,
}

unfoldable pub merge_device_fields : DeviceRow → DeviceRow → DeviceRow
merge_device_fields current next = record current {
  ip = or_next current.ip next.ip;
  mac = or_next current.mac next.mac;
  vendor = or_next current.vendor next.vendor;
  hostname = or_next current.hostname next.hostname;
  source =
      if str_eq current.source next.source
      then current.source
      else current.source <> "," <> next.source;
  last_seen =
      if text_lt current.last_seen next.last_seen then next.last_seen else current.last_seen;
}

abbrev pub key_of : DeviceRow → String
key_of d = or_next d.mac d.ip

unfoldable pub find_ip : String → Dict DeviceRow → Option (String × DeviceRow)
find_ip ip [] = none
find_ip ip ((k, d) ∷ ds) = if str_eq d.ip ip then some (k, d) else find_ip ip ds

abbrev pub put_device : DeviceRow → Option DeviceRow → Dict DeviceRow → Dict DeviceRow
put_device next none ds = insert (key_of next) next ds
put_device next (some current) ds = insert (key_of next) (merge_device_fields current next) ds

-- A device that only its address names
abbrev pub merge_address : DeviceRow → Option (String × DeviceRow) → Dict DeviceRow → Dict DeviceRow
merge_address next (some (k, current)) ds = insert k (merge_device_fields current next) ds
merge_address next none ds = put_device next (lookup (key_of next) ds) ds

-- A device with a MAC, and what the map holds at its address
abbrev pub merge_mac : DeviceRow → Option DeviceRow → Dict DeviceRow → Dict DeviceRow
merge_mac next none ds = put_device next (lookup (key_of next) ds) ds
merge_mac next (some d) ds =
    if str_eq d.mac ""
    then insert (key_of next) (merge_device_fields next d) (delete next.ip ds)
    else put_device next (lookup (key_of next) ds) ds

unfoldable pub merge_device : Dict DeviceRow → DeviceRow → Dict DeviceRow
merge_device ds next =
    if str_eq next.mac ""
    then merge_address next (find_ip next.ip ds) ds
    else merge_mac next (lookup next.ip ds) ds

unfoldable pub merge_all : Dict DeviceRow → List DeviceRow → Dict DeviceRow
merge_all ds [] = ds
merge_all ds (d ∷ found) = merge_all (merge_device ds d) found

abbrev first_name : List String → String
first_name [] = ""
first_name (name ∷ names) = name

unfoldable pub reverse_hostname : (String → Bool) → (String → List String) → String → String
reverse_hostname is_ip lookup_addr ip =
    let name = trim_dot (trim_space (first_name (lookup_addr ip))) in
    if not (is_ip ip) || str_eq name ip then "" else name

abbrev pub named : (String → Bool) → (String → List String) → DeviceRow → DeviceRow
named is_ip lookup_addr d = record d {
  hostname = if str_eq d.hostname "" then reverse_hostname is_ip lookup_addr d.ip else d.hostname;
}

-- What the four programs find, one after the other
unfoldable pub all_found :
    (String → Bool)
    → (String → String → List String)
    → List String
    → Tools
    → String
    → String
    → List DeviceRow
all_found is_ip submatch configured tools site now =
    let cidrs = discovery_cidrs configured tools.interfaces in
    run_ip_neigh is_ip site now tools.ip_neigh
    ++ (run_arp is_ip submatch site now tools.arp
        ++ (run_arp_scan is_ip site now tools.arp_scan cidrs
            ++ run_nmap_ping_sweep is_ip submatch site now tools.nmap cidrs))

unfoldable pub run :
    (String → Bool)
    → (String → String → List String)
    → List String
    → Tools
    → String
    → String
    → List DeviceRow
run is_ip submatch configured tools site now =
    sort_with (λ (a : DeviceRow) b. text_lt a.ip b.ip)
      (map (named is_ip tools.lookup_addr)
        (values (merge_all [] (all_found is_ip submatch configured tools site now))))
