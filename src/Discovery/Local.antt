-- ===== src/Discovery/Local.antt =====
-- Which ranges of its own networks the host scans (agent/internal/runner/discovery.go).
use infracheck_appliance.Base.{
  ◌≤◌, false, ◌&&◌, ◌||◌, not, Option, none, some, List, [], ◌∷◌, ◌≡◌, arith, ◌==◌, All, All-append,
  either, ◌++◌,
}
use infracheck_appliance.Discovery.Networks.{
  Ipv4, Address, Interface, Network, is_docker_bridge_ipv4, local_networks, networks_of,
  of_interface, network_of,
}

-- A mask has at most as many leading ones as bits.
abbrev pub IsMask : Address → Type 0
IsMask x = x.ones ≤ x.bits

abbrev pub AllMasks : Option (List Address) → Type 0
AllMasks none = Unit
AllMasks (some xs) = All IsMask xs

abbrev pub HasMasks : Interface → Type 0
HasMasks i = AllMasks i.addresses

-- At most 256 addresses, which are not those of the host itself, of a link or of a bridge of Docker.
pub record IsScanned (n : Network) : Type 0 where
  pub at_least : 24 ≤ n.ones
  pub at_most : n.ones ≤ 32
  pub not_loopback : (n.first.a == 127) ≡ false
  pub not_link_local : (n.first.a == 169 && n.first.b == 254) ≡ false
  pub not_docker : is_docker_bridge_ipv4 n.first ≡ false

network_of-IsScanned : (x : Address) (o : Option Ipv4) → IsMask x → All IsScanned (network_of x o)
network_of-IsScanned x none h = tt
network_of-IsScanned x (some ip) h = ground (arith, h)

networks_of-IsScanned : (xs : List Address) → All IsMask xs → All IsScanned (networks_of xs)
networks_of-IsScanned [] h = tt
networks_of-IsScanned (x ∷ xs) h =
    All-append IsScanned (network_of x x.ip) (networks_of xs) (network_of-IsScanned x x.ip h.0)
      (networks_of-IsScanned xs h.1)

of_interface-IsScanned : (o : Option (List Address)) → AllMasks o → All IsScanned (of_interface o)
of_interface-IsScanned none h = tt
of_interface-IsScanned (some xs) h = networks_of-IsScanned xs h

-- Where each mask has at most as many ones as bits, every range of the host's own networks has a prefix
-- of 24 to 32 bits, and is none of the loopback, of the addresses of a link or of the bridges of Docker.
pub local_networks-IsScanned :
    (is : List Interface) → All HasMasks is → All IsScanned (local_networks is)
unfolding local_networks
local_networks-IsScanned [] h = tt
local_networks-IsScanned (i ∷ is) h =
    let rest = local_networks-IsScanned is h.1 in
    either (All IsScanned) (not i.up || i.loopback) (local_networks is)
      (of_interface i.addresses ++ local_networks is) rest
      (All-append IsScanned (of_interface i.addresses) (local_networks is)
        (of_interface-IsScanned i.addresses h.0) rest)
