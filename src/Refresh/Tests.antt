-- ===== src/Refresh/Tests.antt =====
-- A run of the discovery whose result is stored.
use infracheck_appliance.Base.Text.{dashes_to_colons, to_lower, trim_space}
use infracheck_appliance.Base.Lines.{fields, scan_lines, split}
use infracheck_appliance.Base.{true, false, none, some, [], ◌≡◌, refl, any}
use infracheck_appliance.Devices.{Inventory}
use infracheck_appliance.Devices.Classify.{Json}
use infracheck_appliance.Discovery.{Tools, neigh_device, normalize_mac, run_ip_neigh}
use infracheck_appliance.Discovery.Merge.{all_found}
use infracheck_appliance.Discovery.Macs.{mac_is}
use infracheck_appliance.Identity.Samples.{at_home}
use infracheck_appliance.Refresh.{World, RefreshState, run_discovery}
use infracheck_appliance.Refresh.Stored.{has_row, run_discovery-stored}

abbrev json : Json
json = record {
  texts = λ s. ([], false);
  ports = λ s. ([], true);
  encode_texts = λ ts. "[]";
  encode_ports = λ ps. "[]";
}

abbrev tools : Tools
tools = record {
  ip_neigh = some "10.0.0.7 dev eth0 lladdr aa:bb:cc:00:00:01 REACHABLE\n";
  arp = none;
  arp_scan = none;
  nmap = none;
  lookup_addr = λ ip. [];
  interfaces = none;
}

abbrev world : World
world = record {
  is_ip = λ ip. true;
  submatch = λ re s. [];
  json = json;
  tools = tools;
  surroundings = at_home;
  lease_paths = [];
}

abbrev empty_inventory : Inventory
empty_inventory = record {
  rows = [];
  intelligence = [];
  expectations = [];
  events = [];
  next_id = 1;
  fault = none;
}

abbrev fresh : RefreshState
fresh = record { inventory = empty_inventory; log = []; last_discovery = [] }

reported :
    any
      (mac_is "aa:bb:cc:00:00:01")
      (all_found world.is_ip world.submatch [] world.tools "site" "10")
    ≡ true
unfolding all_found run_ip_neigh scan_lines split neigh_device fields normalize_mac to_lower
    trim_space dashes_to_colons
reported = refl

run_discovery-stored_example :
    has_row "site" "aa:bb:cc:00:00:01" (run_discovery world [] "10" "site" fresh).0.inventory ≡ true
run_discovery-stored_example =
    run_discovery-stored world [] "10" "site" "aa:bb:cc:00:00:01" fresh refl refl reported
