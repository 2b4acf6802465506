-- ===== src/Discovery/Printed.antt =====
-- What the discovery reads of the table of neighbours (agent/internal/runner/discovery.go).
use infracheck_appliance.Base.{
  String, Bool, true, false, some, List, [], ◌∷◌, ◌≡◌, refl, ◌∙◌, ap, map, str_eq, All,
}
use infracheck_appliance.Base.Text.{join}
use infracheck_appliance.Base.Lines.{
  fields, fields-join, is_word, is_line, lines, scan_lines-lines, join-is_line,
}
use infracheck_appliance.Devices.{DeviceRow}
use infracheck_appliance.Discovery.{run_ip_neigh, neigh_device, normalize_mac, found, concat_map}

-- An entry of the table of neighbours, as `ip neigh show` prints it.
pub record Neighbour : Type 0 where
  pub ip : String
  pub interface : String
  pub mac : String
  pub state : String

abbrev words_of : Neighbour → List String
words_of n = n.ip ∷ "dev" ∷ n.interface ∷ "lladdr" ∷ n.mac ∷ n.state ∷ []

pub printed : List Neighbour → String
printed ns = lines (map (λ (n : Neighbour). join (words_of n) " ") ns)

-- The parts are words, the address is one that net.ParseIP reads, and there is a MAC.
pub record IsPrintable (is_ip : String → Bool) (n : Neighbour) : Type 0 where
  pub ip_word : is_word n.ip ≡ true
  pub interface_word : is_word n.interface ≡ true
  pub mac_word : is_word n.mac ≡ true
  pub state_word : is_word n.state ≡ true
  pub ip_read : is_ip n.ip ≡ true
  pub mac_given : str_eq (normalize_mac n.mac) "" ≡ false
  pub mac_plain : str_eq n.mac "lladdr" ≡ false

module _ (is_ip : String → Bool) (site now : String) where
  abbrev pub neighbour_device : Neighbour → DeviceRow
  neighbour_device n = found site now "arp" n.ip (normalize_mac n.mac) "" ""

  words_of-All : (n : Neighbour) → IsPrintable is_ip n → All (λ w. is_word w ≡ true) (words_of n)
  words_of-All n p =
      (p.ip_word, (refl, (p.interface_word, (refl, (p.mac_word, (p.state_word, tt))))))

  neigh_device-words_of :
      (n : Neighbour)
      → IsPrintable is_ip n
      → neigh_device is_ip site now (words_of n) ≡ neighbour_device n ∷ []
  unfolding neigh_device
  neigh_device-words_of n p = rw (p.mac_plain, p.ip_read, p.mac_given) refl

  lines-All :
      (ns : List Neighbour)
      → All (IsPrintable is_ip) ns
      → All (λ s. is_line s ≡ true) (map (λ (n : Neighbour). join (words_of n) " ") ns)
  lines-All [] h = tt
  lines-All (n ∷ ns) h = (join-is_line (words_of n) (words_of-All n h.0), lines-All ns h.1)

  read-lines :
      (ns : List Neighbour)
      → All (IsPrintable is_ip) ns
      → concat_map
          (λ line. neigh_device is_ip site now (fields line))
          (map (λ (n : Neighbour). join (words_of n) " ") ns)
        ≡ map neighbour_device ns
  read-lines [] h = refl
  read-lines (n ∷ ns) h =
      rw (fields-join (words_of n) (words_of-All n h.0), neigh_device-words_of n h.0)
        (ap (λ (t : List DeviceRow). neighbour_device n ∷ t) (read-lines ns h.1))

  -- Of a table of neighbours whose parts are words without white space, with addresses that the parser
  -- reads and with MACs, the discovery reads back each entry, in the order in which they are printed.
  pub run_ip_neigh-printed :
      (ns : List Neighbour)
      → All (IsPrintable is_ip) ns
      → run_ip_neigh is_ip site now (some (printed ns)) ≡ map neighbour_device ns
  unfolding run_ip_neigh printed
  run_ip_neigh-printed ns h =
      ap (concat_map (λ line. neigh_device is_ip site now (fields line)))
        (scan_lines-lines _ (lines-All ns h))
      ∙ read-lines ns h
