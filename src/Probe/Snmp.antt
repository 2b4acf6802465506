-- ===== src/Probe/Snmp.antt =====
-- The topology that a switch answers by SNMP (agent/internal/runner/field.go).
use infracheck_appliance.Base.{
  ℕ, zero, suc, ◌-◌, ◌/◌, ◌%◌, String, Bool, ◌&&◌, not, Option, none, some, List, [], ◌∷◌, ◌++◌,
  map, is_some, if◌then◌else◌, str_eq, ltb, leb, length, ◌==◌, take,
}
use infracheck_appliance.Base.Int.{ℤ, pos, negsuc}
use infracheck_appliance.Base.Text.{◌<>◌, trim_space, has_prefix, trim_prefix, join, text_lt}
use infracheck_appliance.Base.Decimal.{atoi}
use infracheck_appliance.Base.Lines.{split, fields, trim, cut}
use infracheck_appliance.Base.Sort.{sort_with}
use infracheck_appliance.Base.Dict.{Dict, lookup, insert}
use infracheck_appliance.Current.Switches.{SwitchPortLocation}
use Prim.Native.Char.{Char, code}
use Prim.Native.String.{char_at}

pub record LldpNeighbor : Type 0 where
  pub host : String
  pub local_index : String
  pub remote_name : String
  pub remote_port : String

abbrev pub lldp_remote_name_oid : String
lldp_remote_name_oid = ".1.0.8802.1.1.2.1.4.1.1.9"

abbrev pub lldp_remote_port_oid : String
lldp_remote_port_oid = ".1.0.8802.1.1.2.1.4.1.1.8"

abbrev pub q_bridge_fdb_port_oid : String
q_bridge_fdb_port_oid = ".1.3.6.1.2.1.17.7.1.2.2.1.2"

abbrev pub bridge_port_if_index_oid : String
bridge_port_if_index_oid = ".1.3.6.1.2.1.17.1.4.1.2"

abbrev pub if_name_oid : String
if_name_oid = ".1.3.6.1.2.1.31.1.1.1.1"

abbrev is_double_quote : Char → Bool
is_double_quote c = code c == b'"'

-- What stands behind the type of a value
abbrev after_type : String → Option (String × String) → String
after_type value none = value
after_type value (some (type, rest)) = rest

abbrev snmp_value : String → String
snmp_value value = trim is_double_quote (trim_space (after_type value (cut value ":")))

abbrev put_value : String → String → Dict String → Dict String
put_value key value out =
    if not (str_eq value "") && not (has_prefix value "No Such") then insert key value out else out

abbrev put_parts : String → Option (String × String) → Dict String → Dict String
put_parts base none out = out
put_parts base (some (name, value)) out = put_value (trim_prefix name base) (snmp_value value) out

-- `base` is the identifier of the table, with a dot behind it.
unfoldable pub snmp_lines : String → Dict String → List String → Dict String
snmp_lines base out [] = out
snmp_lines base out (l ∷ lines) =
    let line = trim_space l in
    snmp_lines base (if has_prefix line base then put_parts base (cut line " = ") out else out)
      lines

unfoldable pub parse_snmp_table : String → String → Dict String
parse_snmp_table raw base_oid = snmp_lines (base_oid <> ".") [] (split b'\n' raw)

unfoldable pub first_of : (String → Bool) → List String → Option String
first_of p [] = none
first_of p (s ∷ ss) = if p s then some s else first_of p ss

abbrev or_text : Option String → String → String
or_text none other = other
or_text (some s) other = s

unfoldable pub first_number : String → String
first_number value = or_text (first_of (λ s. is_some (atoi s)) (fields value)) (trim_space value)

abbrev pub hex_digit : ℕ → Char
hex_digit n = char_at "0123456789abcdef" (n % 16)

-- fmt.Sprintf("%02x", n), for a byte
unfoldable pub hex_byte : ℕ → String
hex_byte n = String.◌∷◌ (hex_digit (n / 16)) (String.◌∷◌ (hex_digit n) "")

abbrev pub byte_of : Option ℤ → Option ℕ
byte_of none = none
byte_of (some (negsuc n)) = none
byte_of (some (pos n)) = if leb n 255 then some n else none

abbrev pub with_byte : Option ℕ → Option (List String) → Option (List String)
with_byte none rest = none
with_byte (some n) none = none
with_byte (some n) (some texts) = some (hex_byte n ∷ texts)

-- The bytes of a MAC in decimal, none if one of them is no byte
unfoldable pub hex_bytes : List String → Option (List String)
hex_bytes [] = some []
hex_bytes (part ∷ parts) = with_byte (byte_of (atoi part)) (hex_bytes parts)

-- A list without its first elements
abbrev pub drop {ℓ} : {A : Type ℓ} → ℕ → List A → List A
drop zero xs = xs
drop (suc n) [] = []
drop (suc n) (x ∷ xs) = drop n xs

abbrev pub or_missing : Option String → String
or_missing none = ""
or_missing (some s) = s

abbrev pub location :
    Dict String
    → Dict String
    → String
    → List String
    → Option (List String)
    → List SwitchPortLocation
location bridge_ports if_names port vlan none = []
location bridge_ports if_names port vlan (some mac) =
    let if_index = first_number (or_missing (lookup port bridge_ports)) in
    record {
      mac = join mac ":";
      vlan = join vlan ".";
      bridge_port = port;
      if_index = if_index;
      if_name = or_missing (lookup if_index if_names);
    }
    ∷ []

-- An entry of the forwarding table: the VLAN and the MAC stand in its key.
abbrev pub locations_at : Dict String → Dict String → String → String → List SwitchPortLocation
locations_at bridge_ports if_names key port =
    let parts = split b'.' key in
    let rest = length parts - 6 in
    if ltb (length parts) 7
    then []
    else location bridge_ports if_names (first_number port) (take rest parts)
        (hex_bytes (drop rest parts))

unfoldable pub all_locations : Dict String → Dict String → Dict String → List SwitchPortLocation
all_locations bridge_ports if_names [] = []
all_locations bridge_ports if_names ((key, port) ∷ fdb) =
    locations_at bridge_ports if_names key port ++ all_locations bridge_ports if_names fdb

unfoldable pub build_switch_port_locations :
    Dict String → Dict String → Dict String → List SwitchPortLocation
build_switch_port_locations fdb bridge_ports if_names =
    sort_with (λ (a : SwitchPortLocation) b. text_lt a.mac b.mac)
      (all_locations bridge_ports if_names fdb)

abbrev last_but_one : List String → String → String
last_but_one [] key = key
last_but_one (a ∷ []) key = key
last_but_one (a ∷ b ∷ []) key = a
last_but_one (a ∷ b ∷ c ∷ rest) key = last_but_one (b ∷ c ∷ rest) key

unfoldable pub keys_of : Dict String → List String
keys_of [] = []
keys_of ((k, v) ∷ d) = k ∷ keys_of d

abbrev pub neighbor : String → Dict String → Dict String → String → LldpNeighbor
neighbor host names ports key = record {
  host = host;
  local_index = last_but_one (split b'.' key) key;
  remote_name = or_missing (lookup key names);
  remote_port = or_missing (lookup key ports);
}

unfoldable pub neighbors_of : String → Dict String → Dict String → List LldpNeighbor
neighbors_of host names ports = map (neighbor host names ports) (sort_with text_lt (keys_of names))
