-- ===== src/Probe/Topology.antt =====
-- The test of the topology of a switch (agent/internal/runner/field.go).
use infracheck_appliance.Base.{
  String, true, false, Option, none, some, List, if◌then◌else◌, str_eq, length, ◌⊎◌, inl, inr,
}
use infracheck_appliance.Base.Int.{ℤ, pos}
use infracheck_appliance.Base.Text.{◌<>◌, trim_prefix}
use infracheck_appliance.Base.Decimal.{itoa}
use infracheck_appliance.Base.Float.{Floats}
use infracheck_appliance.Health.Advanced.{AdvancedResult}
use infracheck_appliance.Current.Switches.{SwitchPortLocation}
use infracheck_appliance.Probe.{base_advanced}
use infracheck_appliance.Probe.Snmp.{
  LldpNeighbor, lldp_remote_name_oid, lldp_remote_port_oid, q_bridge_fdb_port_oid,
  bridge_port_if_index_oid, if_name_oid, parse_snmp_table, build_switch_port_locations,
  neighbors_of,
}

module _ (fl : Floats) where
  open fl use {F}

  -- What a walk over a table printed, and its error.
  abbrev walked :
      (String → List LldpNeighbor → List SwitchPortLocation → String)
      → F
      → String
      → (String → String × Option String)
      → AdvancedResult F
      → AdvancedResult F
  walked encode duration host walk r =
      let table = (λ (oid : String). parse_snmp_table (walk (trim_prefix oid ".")).0 oid) in
      let neighbors = neighbors_of host (table lldp_remote_name_oid) (table lldp_remote_port_oid) in
      let locations =
        build_switch_port_locations (table q_bridge_fdb_port_oid) (table bridge_port_if_index_oid)
          (table if_name_oid) in
      let done : AdvancedResult F = record r {
        details = encode host neighbors locations;
        duration_ms = duration;
        success = true;
        summary =
            itoa (pos (length neighbors))
            <> " LLDP neighbor(s), "
            <> itoa (pos (length locations))
            <> " learned MAC location(s) from "
            <> host;
      } in
      elim (walk (trim_prefix lldp_remote_name_oid ".")).1 [
        | none ↦ done
        | some e ↦ record done {
          success = false;
          severity = "warning";
          error = e;
          summary = "SNMP/LLDP query failed";
        }
      ]

  -- `tool` is the error of the absence of snmpwalk, or what it answers for each table.
  unfoldable pub snmp_topology :
      (String → List LldpNeighbor → List SwitchPortLocation → String)
      → ℤ
      → F
      → String
      → String
      → String
      → String ⊎ (String → String × Option String)
      → AdvancedResult F
  snmp_topology encode now duration site host community tool =
      let r = base_advanced fl now site "snmp_topology" host host in
      if str_eq community ""
      then record r {
        severity = "warning";
        summary = "SNMP community not configured";
        error = "community is required";
      }
      else elim tool [
        | inl absent ↦ record r {
          severity = "warning";
          summary = "snmpwalk not installed";
          error = absent;
        }
        | inr walk ↦ walked encode duration host walk r
      ]
