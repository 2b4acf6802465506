-- ===== src/Identity/Enrich.antt =====
-- What the sources of the identity of a device answer together (agent/internal/runner/identity.go).
use infracheck_appliance.Base.{String, Bool, List, [], ◌∷◌, ◌++◌, if◌then◌else◌}
use infracheck_appliance.Discovery.{normalize_mac}
use infracheck_appliance.Identity.{
  IdentityTarget, IdentitySource, IdentityResult, no_name, Surroundings, from_dhcp_leases,
  contains_string, or_else, from_mdns, from_net_bios, from_snmp, from_reverse_dns,
}

unfoldable pub add_services : List String → List String → List String
add_services out [] = out
add_services out (s ∷ services) =
    add_services (if contains_string out s then out else out ++ s ∷ []) services

abbrev pub with_source : IdentityResult → IdentitySource → IdentityResult
with_source r s = record r {
  hostname = or_else r.hostname s.hostname;
  vendor = or_else r.vendor s.vendor;
  services = add_services r.services s.services;
  sources = r.sources ++ s ∷ [];
}

unfoldable pub with_sources : IdentityResult → List IdentitySource → IdentityResult
with_sources r [] = r
with_sources r (s ∷ ss) = with_sources (with_source r s) ss

-- The five sources, in the order in which they are asked
unfoldable pub sources_of :
    (String → Bool) → List String → Surroundings → IdentityTarget → List IdentitySource
sources_of is_ip paths w target =
    from_dhcp_leases w.read_file paths target
    ∷ from_mdns w w.resolver_error target.ip
    ∷ from_net_bios w.netbios_names w.nmblookup target.ip
    ∷ from_snmp w.snmpget target.ip
    ∷ from_reverse_dns is_ip w.lookup_addr target.ip
    ∷ []

abbrev pub blank : IdentityTarget → IdentityResult
blank target = record {
  ip = target.ip;
  mac = normalize_mac target.mac;
  hostname = "";
  vendor = "";
  services = [];
  sources = [];
}

abbrev pub refused : IdentityTarget → IdentityResult
refused target = record (blank target) { sources = no_name "input" "skipped" "invalid IP" ∷ [] }

unfoldable pub enrich :
    (String → Bool) → List String → Surroundings → IdentityTarget → IdentityResult
enrich is_ip paths w target =
    if is_ip target.ip
    then with_sources (blank target) (sources_of is_ip paths w target)
    else refused target
