-- ===== src/Probe.antt =====
-- The probes of the field tools (agent/internal/runner/field.go, and baseAdvanced of
-- agent/internal/runner/advanced.go). What the programs print is an argument, and so are the JSON of the
-- details, the hash of a path, net.ParseIP and the regular expressions. A duration is an argument too.
pub mod Dhcp
pub mod Route
pub mod Resolve
pub mod Snmp
pub mod Offers
pub mod Joined
pub mod Agreed
pub mod Hops
pub mod Mac
pub mod Located
mod Tests
pub mod Path
pub mod Topology
use infracheck_appliance.Base.{String, Bool, false, List, any, str_eq}
use infracheck_appliance.Base.Int.{ℤ, pos}
use infracheck_appliance.Base.Float.{Floats}
use infracheck_appliance.Health.Advanced.{AdvancedResult}

module _ (fl : Floats) where
  open fl use {F, of_int}

  abbrev pub base_advanced : ℤ → String → String → String → String → AdvancedResult F
  base_advanced now site check_type name target = record {
    id = pos 0;
    timestamp = now;
    site_id = site;
    check_type = check_type;
    target_name = name;
    target = target;
    success = false;
    duration_ms = of_int (pos 0);
    severity = "info";
    summary = "ok";
    details = "";
    error = "";
  }

abbrev pub contains_text : List String → String → Bool
contains_text values candidate = any (λ v. str_eq v candidate) values
