-- ===== src/Discovery.antt =====
-- The discovery of devices (agent/internal/runner/discovery.go). What the programs print, the names
-- that DNS answers and the interfaces of the host are arguments, and so are net.ParseIP and the
-- regular expressions.
pub mod Networks
pub mod Merged
pub mod Macs
pub mod Local
pub mod Site
mod Tests
pub mod Printed
pub mod Held
pub mod Merge
use infracheck_appliance.Base.{
  ℕ, suc, ◌+◌, String, Bool, true, false, ◌&&◌, ◌||◌, not, Option, none, some, List, [], ◌∷◌, ◌++◌,
  map, if◌then◌else◌, str_eq, leb,
}
use infracheck_appliance.Base.Text.{
  to_lower, trim_space, text_lt, dashes_to_colons, join, trim_dot, ◌<>◌,
}
use infracheck_appliance.Base.Lines.{fields, scan_lines}
use infracheck_appliance.Base.Sort.{sort_with}
use infracheck_appliance.Base.Dict.{Dict, lookup, insert, delete, values}
use infracheck_appliance.Devices.{DeviceRow}
use infracheck_appliance.Discovery.Networks.{Interface, local_ipv4_cidrs}

unfoldable pub normalize_mac : String → String
normalize_mac mac =
    let m = to_lower (trim_space mac) in
    if str_eq m "" || str_eq m "(incomplete)" || str_eq m "<incomplete>"
    then ""
    else dashes_to_colons m

-- The values that a device has when a program finds it.
abbrev pub found : String → String → String → String → String → String → String → DeviceRow
found site now source ip mac vendor hostname = record {
  id = 0;
  site_id = site;
  ip = ip;
  mac = mac;
  vendor = vendor;
  hostname = hostname;
  first_seen = now;
  last_seen = now;
  seen_count = 0;
  source = source;
  open_ports = "";
  services = "";
  notes = "";
  monitor_missing = false;
  known_at = "";
}

-- The word after the last "lladdr", normalized.
abbrev pub lladdr : String → List String → String
lladdr mac [] = mac
lladdr mac (w ∷ []) = mac
lladdr mac (w ∷ v ∷ ws) = lladdr (if str_eq w "lladdr" then normalize_mac v else mac) (v ∷ ws)

-- What a program answered for one range: whether it failed after the time had run out, and its output.
pub record Scan : Type 0 where
  pub stopped : Bool
  pub output : String

-- A program that is not installed, or fails, answers nothing.
pub record Tools : Type 0 where
  pub ip_neigh : Option String
  pub arp : Option String
  pub arp_scan : Option (String → Scan)
  pub nmap : Option (String → Scan)
  pub lookup_addr : String → List String
  pub interfaces : Option (List Interface)

abbrev pub concat_map {ℓ κ} : {A : Type ℓ} {B : Type κ} → (A → List B) → List A → List B
concat_map f [] = []
concat_map f (x ∷ xs) = f x ++ concat_map f xs

abbrev pub or_nothing : Option String → (String → List DeviceRow) → List DeviceRow
or_nothing none f = []
or_nothing (some out) f = f out

-- The loop over the ranges, which stops with what was found when the time has run out.
unfoldable pub scan_ranges :
    (String → Scan) → (String → List DeviceRow) → List String → List DeviceRow
scan_ranges tool read [] = []
scan_ranges tool read (cidr ∷ cidrs) =
    let rest = scan_ranges tool read cidrs in
    if (tool cidr).stopped then [] else concat_map read (scan_lines (tool cidr).output) ++ rest

abbrev pub scanned_by :
    Option (String → Scan) → (String → List DeviceRow) → List String → List DeviceRow
scanned_by none read cidrs = []
scanned_by (some tool) read cidrs = scan_ranges tool read cidrs

abbrev arp_line_re : String
arp_line_re = "\\(([^)]+)\\)\\s+at\\s+([0-9a-fA-F:.-]+)"

abbrev nmap_report_re : String
nmap_report_re = "^Nmap scan report for (?:(.*?)\\s+\\()?([0-9]{1,3}(?:\\.[0-9]{1,3}){3})\\)?$"

-- `is_ip` says whether net.ParseIP reads a text.
module _ (is_ip : String → Bool) (site now : String) where
  -- A line of `ip neigh show`
  unfoldable pub neigh_device : List String → List DeviceRow
  neigh_device (ip ∷ a ∷ b ∷ c ∷ d ∷ rest) =
      let mac = lladdr "" (ip ∷ a ∷ b ∷ c ∷ d ∷ rest) in
      if not (is_ip ip) || str_eq mac "" then [] else found site now "arp" ip mac "" "" ∷ []
  neigh_device _ = []

  unfoldable pub run_ip_neigh : Option String → List DeviceRow
  run_ip_neigh out =
      or_nothing out (λ o. concat_map (λ line. neigh_device (fields line)) (scan_lines o))

  unfoldable pub arp_scan_device : List String → List DeviceRow
  arp_scan_device (ip ∷ m ∷ vendor) =
      let mac = normalize_mac m in
      if not (is_ip ip) || str_eq mac ""
      then []
      else found site now "arp-scan" ip mac (join vendor " ") "" ∷ []
  arp_scan_device _ = []

  unfoldable pub run_arp_scan : Option (String → Scan) → List String → List DeviceRow
  run_arp_scan tool cidrs = scanned_by tool (λ line. arp_scan_device (fields line)) cidrs

-- `submatch` is FindStringSubmatch of an expression.
module _ (is_ip : String → Bool) (submatch : String → String → List String)
    (site now : String) where
  -- The groups of `arpLineRE`
  abbrev pub arp_device : List String → List DeviceRow
  arp_device (all ∷ ip ∷ m ∷ []) =
      let mac = normalize_mac m in
      if not (is_ip ip) || (str_eq mac "" || str_eq mac "<incomplete>")
      then []
      else found site now "arp" ip mac "" "" ∷ []
  arp_device _ = []

  unfoldable pub run_arp : Option String → List DeviceRow
  run_arp out =
      or_nothing out
        (λ o. concat_map (λ line. arp_device (submatch arp_line_re line)) (scan_lines o))

  -- The groups of `nmapReportRE`
  unfoldable pub nmap_device : List String → List DeviceRow
  nmap_device (all ∷ name ∷ ip ∷ []) =
      let hostname = trim_space name in
      if not (is_ip ip)
      then []
      else found site now "nmap-ping" ip "" "" (if str_eq hostname ip then "" else hostname) ∷ []
  nmap_device _ = []

  unfoldable pub run_nmap_ping_sweep : Option (String → Scan) → List String → List DeviceRow
  run_nmap_ping_sweep tool cidrs =
      scanned_by tool (λ line. nmap_device (submatch nmap_report_re line)) cidrs

abbrev is_empty_list {ℓ} : {A : Type ℓ} → List A → Bool
is_empty_list [] = true
is_empty_list (x ∷ xs) = false

unfoldable pub discovery_cidrs : List String → Option (List Interface) → List String
discovery_cidrs configured interfaces =
    if not (is_empty_list configured)
    then sort_with text_lt configured
    else local_ipv4_cidrs interfaces

abbrev pub or_next : String → String → String
or_next current next = if str_eq current "" then next else current
