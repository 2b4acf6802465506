-- ===== src/Discovery/Networks.antt =====
-- The ranges of the host's own networks (agent/internal/runner/discovery.go). An address is its four
-- bytes, and a mask is what Size answers of it.
use infracheck_appliance.Base.{
  ℕ, ◌-◌, ◌%◌, ◌^◌, String, Bool, ◌&&◌, ◌||◌, not, Option, none, some, List, [], ◌∷◌, ◌++◌, map,
  any, if◌then◌else◌, str_eq, ltb, leb, ◌==◌,
}
use infracheck_appliance.Base.Int.{pos}
use infracheck_appliance.Base.Text.{◌<>◌, text_lt}
use infracheck_appliance.Base.Decimal.{itoa}
use infracheck_appliance.Base.Sort.{sort_with}

pub record Ipv4 : Type 0 where
  pub a : ℕ
  pub b : ℕ
  pub c : ℕ
  pub d : ℕ

-- An address of an interface: none for one that is not of IPv4, and the mask of its network.
pub record Address : Type 0 where
  pub ip : Option Ipv4
  pub ones : ℕ
  pub bits : ℕ

-- No addresses where the interface does not answer them.
pub record Interface : Type 0 where
  pub up : Bool
  pub loopback : Bool
  pub addresses : Option (List Address)

-- A range: its first address, and the length of its prefix.
pub record Network : Type 0 where
  pub first : Ipv4
  pub ones : ℕ

abbrev pub is_loopback : Ipv4 → Bool
is_loopback ip = ip.a == 127

abbrev pub is_link_local_unicast : Ipv4 → Bool
is_link_local_unicast ip = ip.a == 169 && ip.b == 254

abbrev pub is_docker_bridge_ipv4 : Ipv4 → Bool
is_docker_bridge_ipv4 ip = ip.a == 172 && (leb 17 ip.b && leb ip.b 31)

-- A byte under a mask that keeps the first `n` of its eight bits.
abbrev pub masked_byte : ℕ → ℕ → ℕ
masked_byte n x = x - x % 2 ^ (8 - n)

-- Of a mask with `ones` bits, at least 24, only the last byte is not full.
abbrev pub masked : ℕ → Ipv4 → Ipv4
masked ones ip = record ip { d = masked_byte (ones - 24) ip.d }

abbrev pub prefix_length : ℕ → ℕ → ℕ
prefix_length ones bits = if not (bits == 32) || ltb ones 24 then 24 else ones

abbrev pub network_of : Address → Option Ipv4 → List Network
network_of address none = []
network_of address (some ip) =
    let ones = prefix_length address.ones address.bits in
    if is_loopback ip || (is_link_local_unicast ip || is_docker_bridge_ipv4 ip)
    then []
    else record { first = masked ones ip; ones = ones } ∷ []

abbrev pub networks_of : List Address → List Network
networks_of [] = []
networks_of (x ∷ xs) = network_of x x.ip ++ networks_of xs

abbrev pub of_interface : Option (List Address) → List Network
of_interface none = []
of_interface (some xs) = networks_of xs

unfoldable pub local_networks : List Interface → List Network
local_networks [] = []
local_networks (i ∷ is) =
    let rest = local_networks is in
    if not i.up || i.loopback then rest else of_interface i.addresses ++ rest

abbrev number : ℕ → String
number n = itoa (pos n)

unfoldable pub cidr_text : Network → String
cidr_text n =
    number n.first.a
    <> "."
    <> number n.first.b
    <> "."
    <> number n.first.c
    <> "."
    <> number n.first.d
    <> "/"
    <> number n.ones

-- The keys of the map `cidrs`
unfoldable pub distinct_texts : List String → List String → List String
distinct_texts out [] = out
distinct_texts out (t ∷ ts) = distinct_texts (if any (str_eq t) out then out else out ++ t ∷ []) ts

abbrev of_interfaces : Option (List Interface) → List Network
of_interfaces none = []
of_interfaces (some is) = local_networks is

unfoldable pub local_ipv4_cidrs : Option (List Interface) → List String
local_ipv4_cidrs interfaces =
    sort_with text_lt (distinct_texts [] (map cidr_text (of_interfaces interfaces)))
