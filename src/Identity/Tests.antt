-- ===== src/Identity/Tests.antt =====
-- Runs of the parsers of names.
use infracheck_appliance.Identity.Samples.{at_home, phone_target}
use infracheck_appliance.Identity.Enriched.{IsCollected, enrich-IsCollected}
use infracheck_appliance.Discovery.{normalize_mac}
use infracheck_appliance.Base.Lines.{cut, fields, scan_lines, split, split_text, trim}
use infracheck_appliance.Base.Text.{
  contains, dashes_to_colons, has_prefix, to_lower, trim_dot, trim_left, trim_right, trim_space,
  trim_suffix,
}
use infracheck_appliance.Base.{true, some, [], ◌≡◌, refl}
use infracheck_appliance.Identity.{
  clean_hostname, lookup_isc_lease, lookup_dhcp_lease, parse_snmp_string, client_hostname, isc_name,
  lease_lines,
}
use infracheck_appliance.Identity.Enrich.{enrich}

clean_test : clean_hostname " \"printer.local.\"; " ≡ "printer.local"
unfolding clean_hostname trim_dot trim_suffix trim trim_right trim_left trim_space
clean_test = refl

isc_test :
    lookup_isc_lease
      "lease 10.0.0.7 {\n  hardware ethernet aa:bb:cc:00:00:01;\n  client-hostname \"nas\";\n}\n"
      "10.0.0.7" ""
    ≡ "nas"
unfolding lookup_isc_lease isc_name split_text cut has_prefix client_hostname split trim_space
    clean_hostname trim_dot trim_suffix trim
isc_test = refl

dnsmasq_test :
    lookup_dhcp_lease "1700000000 aa-bb-cc-00-00-01 10.0.0.7 nas *\n" "10.0.0.9" "aa:bb:cc:00:00:01"
    ≡ some "nas"
unfolding lookup_dhcp_lease contains lease_lines scan_lines split fields normalize_mac to_lower
    trim_space dashes_to_colons clean_hostname trim_dot trim_suffix trim
dnsmasq_test = refl

snmp_test : parse_snmp_string "SNMPv2-MIB::sysName.0 = STRING: core-switch\n" ≡ "core-switch"
unfolding parse_snmp_string cut clean_hostname trim_dot trim_suffix trim trim_right trim_left
    trim_space
snmp_test = refl

enrich-IsCollected_example : IsCollected (enrich (λ ip. true) [] at_home phone_target)
enrich-IsCollected_example = enrich-IsCollected (λ ip. true) [] at_home phone_target
