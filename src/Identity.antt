-- ===== src/Identity.antt =====
-- Who a device is (agent/internal/runner/identity.go). What the files hold, what the services of the
-- network answer and what the programs print are arguments, and so are net.ParseIP and the regular
-- expression for the names of NetBIOS.
pub mod Enriched
pub mod Samples
mod Tests
pub mod Enrich
use infracheck_appliance.Base.{
  ℕ, suc, ◌+◌, ◌-◌, String, Bool, true, false, ◌&&◌, ◌||◌, not, Option, none, some, List, [], ◌∷◌,
  ◌++◌, any, if◌then◌else◌, str_eq, leb, ◌==◌,
}
use infracheck_appliance.Base.Text.{
  ◌<>◌, to_lower, trim_space, trim_dot, trim_suffix, has_prefix, contains,
}
use infracheck_appliance.Base.Lines.{fields, scan_lines, split, split_text, trim, cut}
use infracheck_appliance.Discovery.{normalize_mac}
use infracheck_appliance.Discovery.Merge.{reverse_hostname}
use Prim.Native.Char.{Char, code}
use Prim.Native.String.{len, slice}

pub record IdentityTarget : Type 0 where
  pub ip : String
  pub mac : String

pub record IdentitySource : Type 0 where
  pub source : String
  pub hostname : String
  pub vendor : String
  pub services : List String
  pub status : String
  pub error : String

pub record IdentityResult : Type 0 where
  pub ip : String
  pub mac : String
  pub hostname : String
  pub vendor : String
  pub services : List String
  pub sources : List IdentitySource

-- A source that answers a name, and one that answers none.
abbrev pub found_name : String → String → IdentitySource
found_name source hostname = record {
  source = source;
  hostname = hostname;
  vendor = "";
  services = [];
  status = "ok";
  error = "";
}

abbrev pub no_name : String → String → String → IdentitySource
no_name source status error = record {
  source = source;
  hostname = "";
  vendor = "";
  services = [];
  status = status;
  error = error;
}

abbrev is_quote : Char → Bool
is_quote c = let n = code c in n == b'"' || (n == b'\'' || (n == b' ' || n == b';'))

unfoldable pub clean_hostname : String → String
clean_hostname value =
    let name = trim_dot (trim_suffix (trim is_quote (trim_space value)) ".local") in
    if str_eq name "*" || (str_eq name "-" || str_eq name "<unknown>") then "" else name

abbrev is_lease_quote : Char → Bool
is_lease_quote c = let n = code c in n == b'"' || (n == b';' || n == b' ')

-- The name that the first line of a block that names the client gives.
unfoldable pub client_hostname : List String → Option String
client_hostname [] = none
client_hostname (l ∷ lines) =
    let line = trim_space l in
    if has_prefix line "client-hostname "
    then some (clean_hostname (trim is_lease_quote (slice line 16 (len line))))
    else client_hostname lines

abbrev is_block_of : String → String → String → Bool
is_block_of ip mac block =
    has_prefix block (ip <> " ")
    || (not (str_eq mac "") && contains (to_lower block) (to_lower mac))

abbrev or_later : Option String → String → String
or_later none later = later
or_later (some name) later = name

unfoldable pub isc_name : List String → String → String → String
isc_name [] ip mac = ""
isc_name (block ∷ blocks) ip mac =
    let rest = isc_name blocks ip mac in
    if is_block_of ip mac block then or_later (client_hostname (split b'\n' block)) rest else rest

unfoldable pub lookup_isc_lease : String → String → String → String
lookup_isc_lease text ip mac = isc_name (split_text text "lease ") ip mac

-- A line of the leases of dnsmasq, and the name where it is of the device.
abbrev lease_name : List String → String → String → Option String
lease_name (expiry ∷ m ∷ row_ip ∷ name ∷ rest) ip mac =
    if str_eq row_ip ip || (not (str_eq mac "") && str_eq (normalize_mac m) mac)
    then some (clean_hostname name)
    else none
lease_name _ ip mac = none

unfoldable pub lease_lines : List String → String → String → Option String
lease_lines [] ip mac = none
lease_lines (line ∷ lines) ip mac = elim (lease_name (fields line) ip mac) [
  | none ↦ lease_lines lines ip mac
  | some name ↦ some name
]

abbrev given_name : String → Option String
given_name name = if str_eq name "" then none else some name

-- The name, where the file has an entry of the device. An empty name of dnsmasq counts as one.
unfoldable pub lookup_dhcp_lease : String → String → String → Option String
lookup_dhcp_lease text ip mac =
    if contains text "lease " && contains text "hardware ethernet"
    then given_name (lookup_isc_lease text ip mac)
    else lease_lines (scan_lines text) ip mac

abbrev default_paths : List String
default_paths =
    "/var/lib/infracheck/dhcp.leases" ∷ "/var/lib/misc/dnsmasq.leases" ∷ "/tmp/dhcp.leases"
    ∷ "/var/lib/dhcp/dhcpd.leases" ∷ []

-- An entry that a service of mDNS answers.
pub record ServiceEntry : Type 0 where
  pub host_name : String
  pub instance_name : String
  pub addresses : List String

-- What the enrichment meets. `read_file` answers nothing where reading fails; `browse` is the error of
-- a new resolver, or what each service answers, with nothing where browsing fails; `nmblookup` is
-- whether it failed, and its output; a program that is not installed is none.
pub record Surroundings : Type 0 where
  pub read_file : String → Option String
  pub resolver_error : Option String
  pub browse : String → Option (List ServiceEntry)
  pub nmblookup : Option (String → Bool × String)
  pub netbios_names : String → List String
  pub snmpget : Option (String → Option String)
  pub lookup_addr : String → List String

abbrev lease_in : Option String → String → String → Option String
lease_in none ip mac = none
lease_in (some text) ip mac = lookup_dhcp_lease text ip mac

unfoldable pub from_leases :
    (String → Option String) → List String → IdentityTarget → IdentitySource
from_leases read_file [] target = no_name "dhcp-leases" "not_found" ""
from_leases read_file (path ∷ paths) target =
    elim (lease_in (read_file path) target.ip (normalize_mac target.mac)) [
      | none ↦ from_leases read_file paths target
      | some host ↦ found_name "dhcp-leases" host
    ]

abbrev or_default : List String → List String
or_default [] = default_paths
or_default (p ∷ ps) = p ∷ ps

unfoldable pub from_dhcp_leases :
    (String → Option String) → List String → IdentityTarget → IdentitySource
from_dhcp_leases read_file paths = from_leases read_file (or_default paths)

abbrev pub contains_string : List String → String → Bool
contains_string values candidate = any (λ v. str_eq v candidate) values

abbrev mdns_services : List String
mdns_services =
    "_workstation._tcp" ∷ "_smb._tcp" ∷ "_ssh._tcp" ∷ "_http._tcp" ∷ "_ipp._tcp" ∷ "_airplay._tcp"
    ∷ "_googlecast._tcp" ∷ []

abbrev mdns_entry_has_ip : ServiceEntry → String → Bool
mdns_entry_has_ip e ip = contains_string e.addresses ip

abbrev pub or_else : String → String → String
or_else s t = if str_eq s "" then t else s

-- An entry of a service at the address
abbrev seen_entry : String → ServiceEntry → IdentitySource → IdentitySource
seen_entry service e f = record f {
  hostname =
      or_else f.hostname (or_else (clean_hostname e.host_name) (clean_hostname e.instance_name));
  services = if contains_string f.services service then f.services else f.services ++ service ∷ [];
  status = "ok";
}

unfoldable pub seen_entries : String → String → List ServiceEntry → IdentitySource → IdentitySource
seen_entries ip service [] f = f
seen_entries ip service (e ∷ es) f =
    seen_entries ip service es (if mdns_entry_has_ip e ip then seen_entry service e f else f)

abbrev seen_service : String → String → Option (List ServiceEntry) → IdentitySource → IdentitySource
seen_service ip service none f = f
seen_service ip service (some es) f = seen_entries ip service es f

unfoldable pub browse_services :
    (String → Option (List ServiceEntry)) → String → List String → IdentitySource → IdentitySource
browse_services browse ip [] f = f
browse_services browse ip (s ∷ services) f =
    browse_services browse ip services (seen_service ip s (browse s) f)

abbrev pub from_mdns : Surroundings → Option String → String → IdentitySource
from_mdns w (some e) ip = no_name "mdns" "not_available" e
from_mdns w none ip = browse_services w.browse ip mdns_services (no_name "mdns" "not_found" "")

-- The first name that is none of the group's
unfoldable pub netbios_name : List String → IdentitySource
netbios_name [] = no_name "netbios" "not_found" ""
netbios_name (n ∷ names) =
    let name = clean_hostname n in
    if not (str_eq name "") && not (str_eq (to_lower name) "workgroup")
    then found_name "netbios" name
    else netbios_name names

abbrev pub from_net_bios :
    (String → List String) → Option (String → Bool × String) → String → IdentitySource
from_net_bios names none ip = no_name "netbios" "not_available" "nmblookup not installed"
from_net_bios names (some nmblookup) ip =
    let (failed, out) = nmblookup ip in
    if failed && str_eq out ""
    then no_name "netbios" "not_found" (trim_space out)
    else netbios_name (names out)

unfoldable pub parse_snmp_string : String → String
parse_snmp_string out = elim (cut out "STRING:") [
  | none ↦ ""
  | some (before, after) ↦ clean_hostname (trim_space after)
]

abbrev snmp_answer : Option String → IdentitySource
snmp_answer none = no_name "snmp" "not_found" ""
snmp_answer (some out) =
    let host = parse_snmp_string out in
    if str_eq host "" then no_name "snmp" "not_found" "" else found_name "snmp" host

abbrev pub from_snmp : Option (String → Option String) → String → IdentitySource
from_snmp none ip = no_name "snmp" "not_available" "snmpget not installed"
from_snmp (some snmpget) ip = snmp_answer (snmpget ip)

abbrev pub from_reverse_dns : (String → Bool) → (String → List String) → String → IdentitySource
from_reverse_dns is_ip lookup_addr ip =
    let host = reverse_hostname is_ip lookup_addr ip in
    if str_eq host "" then no_name "reverse-dns" "not_found" "" else found_name "reverse-dns" host
