-- ===== src/Current/Switches.antt =====
-- Where a device hangs on a managed switch (agent/internal/agent/diagnostics_api.go). Of a topology
-- the fields are kept that its uses here read, and the details of a result come decoded, where they
-- decode.
use infracheck_appliance.Base.{
  String, not, Option, none, some, List, [], ◌∷◌, ◌++◌, map, keep, str_eq,
}
use infracheck_appliance.Base.Int.{ℤ}
use infracheck_appliance.Base.Text.{
  ◌<>◌, to_lower, trim_space, text_lt, first_non_empty, dashes_to_colons,
}
use infracheck_appliance.Base.Sort.{sort_with}
use infracheck_appliance.Base.Dict.{Dict, lookup, values}
use infracheck_appliance.Base.Result.{Result, ok, err}
use infracheck_appliance.Verdict.{latest_in}
use infracheck_appliance.Health.Advanced.{AdvancedResult}
use infracheck_appliance.Devices.{Device}

pub record SwitchPortLocation : Type 0 where
  pub mac : String
  pub vlan : String
  pub bridge_port : String
  pub if_index : String
  pub if_name : String

pub record ManagedSwitchTopology : Type 0 where
  pub host : String
  pub timestamp : ℤ
  pub mac_table : List SwitchPortLocation

-- What a result's details hold: the host and the table of addresses.
pub record Details : Type 0 where
  pub host : String
  pub mac_table : List SwitchPortLocation

pub record ObservedLocation : Type 0 where
  pub mac : String
  pub host : String
  pub port : SwitchPortLocation
  pub at : ℤ

abbrev pub normal_mac : String → String
normal_mac mac = to_lower (dashes_to_colons (trim_space mac))

module _ {F : Type 0} where
  abbrev target_key : AdvancedResult F → String
  target_key r = r.target_name <> "|" <> r.target

  unfoldable pub latest_advanced_by_target : List (AdvancedResult F) → List (AdvancedResult F)
  latest_advanced_by_target rows = values (latest_in target_key (λ r. r.timestamp) [] rows)

module _ {F : Type 0} (details : String → Option Details) where
  abbrev topology_of : AdvancedResult F → Option Details → List ManagedSwitchTopology
  topology_of r none = []
  topology_of r (some d) =
      record {
        host = first_non_empty (d.host ∷ r.target ∷ []);
        timestamp = r.timestamp;
        mac_table = d.mac_table;
      }
      ∷ []

  abbrev topologies_of : List (AdvancedResult F) → List ManagedSwitchTopology
  topologies_of [] = []
  topologies_of (r ∷ rs) = topology_of r (details r.details) ++ topologies_of rs

  -- The argument is what the query for the results of SNMP answers.
  unfoldable pub latest_managed_switch_topology :
      Result (List (AdvancedResult F)) → List ManagedSwitchTopology
  latest_managed_switch_topology (err e) = []
  latest_managed_switch_topology (ok rows) =
      sort_with (λ (s : ManagedSwitchTopology) t. text_lt s.host t.host)
        (topologies_of (latest_advanced_by_target rows))

abbrev locations_of : ManagedSwitchTopology → List ObservedLocation
locations_of t =
    keep (λ (o : ObservedLocation). not (str_eq o.mac ""))
      (map
        (λ (l : SwitchPortLocation). record {
          mac = normal_mac l.mac;
          host = t.host;
          port = l;
          at = t.timestamp;
        })
        t.mac_table)

abbrev pub observed_locations : List ManagedSwitchTopology → List ObservedLocation
observed_locations [] = []
observed_locations (t ∷ ts) = locations_of t ++ observed_locations ts

abbrev pub location_mac : ObservedLocation → String
location_mac o = o.mac

abbrev pub location_time : ObservedLocation → ℤ
location_time o = o.at

-- The map `byMAC`.
unfoldable pub by_mac : List ManagedSwitchTopology → Dict ObservedLocation
by_mac ts = latest_in location_mac location_time [] (observed_locations ts)

abbrev located : Option ObservedLocation → Device → Device
located none d = d
located (some o) d = record d {
  switch_host = o.host;
  switch_port = o.port.bridge_port;
  switch_if_name = o.port.if_name;
  vlan = o.port.vlan;
}

unfoldable pub attach_managed_switch_locations :
    List ManagedSwitchTopology → List Device → List Device
attach_managed_switch_locations ts =
    map (λ (d : Device). located (lookup (normal_mac d.row.mac) (by_mac ts)) d)
