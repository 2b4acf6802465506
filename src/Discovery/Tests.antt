-- ===== src/Discovery/Tests.antt =====
-- A run of the discovery on two programs' output, and the theorems at concrete inputs.
use infracheck_appliance.Base.Text.{
  dashes_to_colons, join, to_lower, trim_dot, trim_left, trim_right, trim_space,
}
use infracheck_appliance.Base.{
  String, Bool, true, false, none, some, List, [], ◌∷◌, ◌≡◌, refl, map, any, count, All,
  if◌then◌else◌, arith,
}
use infracheck_appliance.Base.Sort.{sort_with, put_by}
use infracheck_appliance.Base.Dict.{values, insert, delete, lookup}
use infracheck_appliance.Base.Lines.{scan_lines, split, fields}
use infracheck_appliance.Discovery.{
  neigh_device, run_arp, run_arp_scan, scan_ranges, discovery_cidrs, arp_scan_device, nmap_device,
  run_nmap_ping_sweep, Tools, normalize_mac, run_ip_neigh,
}
use infracheck_appliance.Discovery.Merge.{
  merge_all, find_ip, merge_device, merge_device_fields, reverse_hostname, run, all_found,
}
use infracheck_appliance.Discovery.Networks.{Interface, local_networks}
use infracheck_appliance.Discovery.Macs.{mac_is, run-macs}
use infracheck_appliance.Discovery.Local.{IsScanned, local_networks-IsScanned}
use infracheck_appliance.Discovery.Printed.{
  Neighbour, IsPrintable, printed, neighbour_device, run_ip_neigh-printed,
}

abbrev any_ip : String → Bool
any_ip s = true

abbrev no_match : String → String → List String
no_match re s = []

abbrev phone : Neighbour
phone = record {
  ip = "10.0.0.7";
  interface = "eth0";
  mac = "AA-BB-CC-00-00-01";
  state = "REACHABLE";
}

abbrev nas : Neighbour
nas = record { ip = "10.0.0.8"; interface = "lladdr"; mac = "aa:bb:cc:00:00:02"; state = "STALE" }

abbrev tools : Tools
tools = record {
  ip_neigh =
      some
        "10.0.0.7 dev eth0 lladdr AA-BB-CC-00-00-01 REACHABLE\n10.0.0.8 dev lladdr lladdr aa:bb:cc:00:00:02 STALE\n";
  arp = none;
  arp_scan =
      some
        (λ cidr. record { stopped = false; output = "10.0.0.9\taa:bb:cc:00:00:01\tSome Vendor\n" });
  nmap = none;
  lookup_addr = λ ip. "phone.lan." ∷ [];
  interfaces = none;
}

run_test :
    map (λ d. d.vendor) (run any_ip no_match ("10.0.0.0/24" ∷ []) tools "site" "10")
    ≡ "Some Vendor" ∷ "" ∷ []
unfolding run sort_with values merge_all all_found run_ip_neigh scan_lines split neigh_device fields
    normalize_mac to_lower trim_space dashes_to_colons run_arp run_arp_scan scan_ranges
    discovery_cidrs delete insert lookup put_by join trim_dot trim_left trim_right arp_scan_device
    find_ip merge_device merge_device_fields nmap_device reverse_hostname run_nmap_ping_sweep
run_test = refl

run-macs_example :
    count (mac_is "aa:bb:cc:00:00:01") (run any_ip no_match ("10.0.0.0/24" ∷ []) tools "site" "10")
    ≡ (if any
          (mac_is "aa:bb:cc:00:00:01")
          (all_found any_ip no_match ("10.0.0.0/24" ∷ []) tools "site" "10")
        then 1
        else 0)
run-macs_example =
    run-macs any_ip no_match ("10.0.0.0/24" ∷ []) tools "site" "10" "aa:bb:cc:00:00:01" refl

phone_words : IsPrintable any_ip phone
unfolding normalize_mac to_lower trim_space dashes_to_colons
phone_words = record {
  ip_word = refl;
  interface_word = refl;
  mac_word = refl;
  state_word = refl;
  ip_read = refl;
  mac_given = refl;
  mac_plain = refl;
}

nas_words : IsPrintable any_ip nas
unfolding normalize_mac to_lower trim_space dashes_to_colons
nas_words = record {
  ip_word = refl;
  interface_word = refl;
  mac_word = refl;
  state_word = refl;
  ip_read = refl;
  mac_given = refl;
  mac_plain = refl;
}

run_ip_neigh-printed_example :
    run_ip_neigh any_ip "site" "10" (some (printed (phone ∷ nas ∷ [])))
    ≡ map (neighbour_device any_ip "site" "10") (phone ∷ nas ∷ [])
run_ip_neigh-printed_example =
    run_ip_neigh-printed any_ip "site" "10" (phone ∷ nas ∷ []) (phone_words, (nas_words, tt))

abbrev ethernet : Interface
ethernet = record {
  up = true;
  loopback = false;
  addresses = some (
      record { ip = some (record { a = 192; b = 168; c = 1; d = 77 }); ones = 16; bits = 32 }
      ∷ record { ip = some (record { a = 172; b = 17; c = 0; d = 1 }); ones = 16; bits = 32 }
      ∷ []);
}

local_networks_test :
    local_networks (ethernet ∷ [])
    ≡ record { first = record { a = 192; b = 168; c = 1; d = 0 }; ones = 24 } ∷ []
unfolding local_networks
local_networks_test = refl

local_networks-IsScanned_example : All IsScanned (local_networks (ethernet ∷ []))
local_networks-IsScanned_example =
    local_networks-IsScanned (ethernet ∷ []) ((omega arith, (omega arith, tt)), tt)
