-- ===== src/Probe/Tests.antt =====
-- Runs of the parsers of the probes, and the theorems at concrete inputs.
use infracheck_appliance.Base.Int.{pos, pos_part}
use infracheck_appliance.Base.Result.{Result, ok}
use infracheck_appliance.Config.Samples.{whole_floats}
use infracheck_appliance.Probe.Route.{
  LineReader, PathRequest, TraceRun, trace_args, normalized, trace_samples, no_trace,
}
use infracheck_appliance.Probe.Hops.{IsPath, trace_samples-ends}
use infracheck_appliance.Probe.Resolve.{asked, or_example, dns_integrity}
use infracheck_appliance.Probe.Agreed.{AllGiven, AllAgree, dns_integrity-success}
use infracheck_appliance.Probe.Offers.{IsOffered, dhcp_integrity-success}
use infracheck_appliance.Probe.Dhcp.{
  dhcp_details, dhcp_integrity, extract_dhcp_values, add_values, commas_to_spaces, dhcp_lines,
}
use infracheck_appliance.Base.Sort.{sort_with}
use infracheck_appliance.Base.Decimal.{atoi, itoa}
use infracheck_appliance.Base.Dict.{insert, lookup}
use infracheck_appliance.Base.Text.{
  contains, has_prefix, join, trim_left, trim_prefix, trim_right, trim_space, to_lower,
}
use infracheck_appliance.Base.Lines.{cut, fields, split, trim}
use infracheck_appliance.Base.{
  ℕ, ◌≤◌, ◌<◌, ◌↔◌, List, inr, length, false, String, true, none, some, [], ◌∷◌, ◌≡◌, refl, arith,
}
use infracheck_appliance.Probe.Snmp.{
  parse_snmp_table, hex_bytes, first_number, build_switch_port_locations, all_locations, first_of,
  hex_byte, snmp_lines,
}

snmp_test :
    parse_snmp_table ".1.2.7.0 = STRING: \"eth 1\"\n.1.3.9 = INTEGER: 4\n.1.2.8 = No Such Instance"
      ".1.2"
    ≡ ("7.0", "eth 1") ∷ []
unfolding parse_snmp_table snmp_lines split has_prefix trim_space cut trim insert trim_prefix
snmp_test = refl

hex_test : hex_bytes ("0" ∷ "171" ∷ "255" ∷ []) ≡ some ("00" ∷ "ab" ∷ "ff" ∷ [])
unfolding hex_bytes atoi hex_byte
hex_test = refl

locations_test :
    build_switch_port_locations
      (("10.0.171.2.3.4.255", "12") ∷ [])
      (("12", "3 ") ∷ [])
      (("3", "ge3") ∷ [])
    ≡ record {
      mac = "00:ab:02:03:04:ff";
      vlan = "10";
      bridge_port = "12";
      if_index = "3";
      if_name = "ge3";
    }
      ∷ []
unfolding build_switch_port_locations sort_with all_locations split hex_bytes atoi join first_number
    lookup hex_byte first_of fields
locations_test = refl

dhcp_test :
    extract_dhcp_values (λ s. true) "|  Router: 10.0.0.2, 10.0.0.1\n|  Other: x" "Router"
    ≡ "10.0.0.1" ∷ "10.0.0.2" ∷ []
unfolding extract_dhcp_values sort_with dhcp_lines split contains add_values cut fields
    commas_to_spaces trim trim_right trim_left
dhcp_test = refl

abbrev offer : String
offer = "|   Server Identifier: 10.0.0.1\n|   Router: 10.0.0.1\n"

dhcp_integrity-success_example :
    ((dhcp_integrity whole_floats
        (λ s. true)
        (λ d. "{}")
        (pos 9)
        3
        "site"
        "10.0.0.1"
        (inr (none, offer))).success
      ≡ true)
    ↔ IsOffered (λ s. true) "10.0.0.1" none (dhcp_details (λ s. true) offer).servers
dhcp_integrity-success_example =
    dhcp_integrity-success whole_floats (λ s. true) (λ d. "{}") (pos 9) 3 "site" "10.0.0.1" none
      offer

abbrev two_resolvers : List (String × (String → Result (List String)))
two_resolvers =
    ("router", λ domain. ok ("1.1.1.1" ∷ "1.0.0.1" ∷ []))
    ∷ ("public", λ domain. ok ("1.0.0.1" ∷ "1.1.1.1" ∷ []))
    ∷ []

answers_given : AllGiven (asked (or_example "one.one") two_resolvers)
answers_given = (
  (omega arith, ((refl, refl), ((refl, refl), tt))),
  ((omega arith, ((refl, refl), ((refl, refl), tt))), tt),
)

dns_integrity-success_example :
    ((dns_integrity whole_floats (λ d. "{}") (pos 9) 3 "site" "one.one" two_resolvers).success
      ≡ true)
    ↔ ((0 < length two_resolvers)
        × ((addresses : List String) × AllAgree addresses
              (asked (or_example "one.one") two_resolvers)))
dns_integrity-success_example =
    dns_integrity-success whole_floats (λ d. "{}") (pos 9) 3 "site" "one.one" two_resolvers
      answers_given

abbrev reader : LineReader ℕ
reader = record {
  rtts = λ line. 4 ∷ [];
  addresses = λ line. "10.0.0.1" ∷ "10.0.0.1" ∷ [];
  is_ip = λ s. true;
}

abbrev request : PathRequest
request = record {
  name = "";
  host = "1.1.1.1";
  protocol = " TCP";
  port = pos 443;
  samples = pos 99;
  max_hops = pos 0;
  dscp = pos 46;
  discover_mtu = false;
}

abbrev one_hop : ℕ → TraceRun
one_hop sample = record { output = " 1  10.0.0.1  4 ms\n 2  *\n"; ended = none }

args_test :
    trace_args (normalized request)
    ≡ "-n" ∷ "-m" ∷ "16" ∷ "-q" ∷ "1" ∷ "-w" ∷ "1" ∷ "-T" ∷ "-p" ∷ "443" ∷ "-t" ∷ "184" ∷ "1.1.1.1"
      ∷ []
unfolding trace_args itoa normalized to_lower trim_space
args_test = refl

trace_samples-ends_example :
    (length (trace_samples reader (pos_part (normalized request).samples) one_hop 0 no_trace).raw
      ≤ 10)
    × IsPath reader
        (trace_samples reader (pos_part (normalized request).samples) one_hop 0 no_trace).hops
trace_samples-ends_example = trace_samples-ends reader request one_hop
