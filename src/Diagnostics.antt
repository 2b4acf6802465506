-- ===== src/Diagnostics.antt =====
-- The history of open ports and the traces (agent/internal/agent/diagnostics_api.go). What the queries
-- answer is an argument. Go goes through a map in no fixed order and sorts what it collects; here the
-- map is in the order of insertion.
pub mod Grouped
pub mod History
mod Tests
use infracheck_appliance.Base.{
  ◌-◌, ◌^◌, ◌||◌, ◌==◌, String, Bool, not, Option, none, some, List, [], ◌∷◌, ◌++◌, map, keep, take,
  if◌then◌else◌,
}
use infracheck_appliance.Base.Int.{ℤ, pos, ltb_ℤ}
use infracheck_appliance.Base.Text.{trim_space}
use infracheck_appliance.Base.Lines.{split, fields, trim}
use infracheck_appliance.Base.Decimal.{atoi}
use infracheck_appliance.Base.Sort.{sort_with}
use infracheck_appliance.Base.Dict.{Dict, lookup, insert}
use infracheck_appliance.Base.Result.{Result, ok, err, Response, answer, refuse}
use infracheck_appliance.Health.Advanced.{AdvancedResult}
use infracheck_appliance.Devices.{Device}
use infracheck_appliance.Devices.Classify.{Json}
use infracheck_appliance.Devices.Persist.{parse_port_list}
use infracheck_appliance.Field.{has_port}
use infracheck_appliance.Current.Switches.{latest_advanced_by_target}
use Prim.Native.Char.{Char, code}

pub record PortPoint : Type 0 where
  pub timestamp : ℤ
  pub ports : List ℤ

pub record PortHistoryRow : Type 0 where
  pub device_ip : String
  pub hostname : String
  pub mac : String
  pub vendor : String
  pub latest_ports : List ℤ
  pub previous_ports : List ℤ
  pub opened_ports : List ℤ
  pub closed_ports : List ℤ
  pub latest_at : ℤ
  pub history : List PortPoint

-- The ports of the first list that are not in the second
unfoldable pub port_diff : List ℤ → List ℤ → List ℤ
port_diff a b = keep (λ p. not (has_port p b)) a

abbrev pub or_empty {ℓ} : {A : Type ℓ} → Option (List A) → List A
or_empty none = []
or_empty (some xs) = xs

-- The loop over rows that appends each one to the entry of its key
unfoldable pub group_by {ℓ} : {A : Type ℓ} → (A → String) → Dict (List A) → List A → Dict (List A)
group_by key grouped [] = grouped
group_by key grouped (r ∷ rows) =
    group_by key (insert (key r) (or_empty (lookup (key r) grouped) ++ r ∷ []) grouped) rows

-- `devByIP`: the last device with an address is kept.
unfoldable pub dev_by_ip : Dict Device → List Device → Dict Device
dev_by_ip by_ip [] = by_ip
dev_by_ip by_ip (d ∷ ds) = dev_by_ip (insert d.row.ip d by_ip) ds

-- A field of `devByIP[ip]`, empty for the zero value
abbrev pub device_text : (Device → String) → Option Device → String
device_text field none = ""
device_text field (some d) = field d

abbrev pub later : {F : Type 0} → AdvancedResult F → AdvancedResult F → Bool
later a b = ltb_ℤ b.timestamp a.timestamp

module _ {F : Type 0} (json : Json) where
  abbrev ports_of : AdvancedResult F → List ℤ
  ports_of r = parse_port_list json r.details

  -- `previous`: the ports of the second result, if there is one
  abbrev pub second_ports : List (AdvancedResult F) → List ℤ
  second_ports [] = []
  second_ports (r ∷ rs) = ports_of r

  -- The row of an address, from its results, the latest one first. No entry of the map is empty.
  abbrev pub history_row : String → Option Device → List (AdvancedResult F) → List PortHistoryRow
  history_row ip device [] = []
  history_row ip device (r ∷ rs) =
      let latest = ports_of r in
      let previous = second_ports rs in
      record {
        device_ip = ip;
        hostname = device_text (λ (d : Device). d.row.hostname) device;
        mac = device_text (λ (d : Device). d.row.mac) device;
        vendor = device_text (λ (d : Device). d.row.vendor) device;
        latest_ports = latest;
        previous_ports = previous;
        opened_ports = port_diff latest previous;
        closed_ports = port_diff previous latest;
        latest_at = r.timestamp;
        history =
            map (λ (x : AdvancedResult F). record { timestamp = x.timestamp; ports = ports_of x })
              (take 12 (r ∷ rs));
      }
      ∷ []

  unfoldable pub history_rows : Dict Device → Dict (List (AdvancedResult F)) → List PortHistoryRow
  history_rows by_ip [] = []
  history_rows by_ip ((ip, items) ∷ grouped) =
      history_row ip (lookup ip by_ip) (sort_with later items) ++ history_rows by_ip grouped

  -- A query for the devices that fails leaves none.
  unfoldable pub port_history :
      Result (List (AdvancedResult F)) → List Device → Response (List PortHistoryRow)
  port_history (err e) devices = refuse 500 e
  port_history (ok rows) devices = answer (
      sort_with (λ (a : PortHistoryRow) b. ltb_ℤ b.latest_at a.latest_at)
        (history_rows (dev_by_ip [] devices)
          (group_by (λ (r : AdvancedResult F). r.target) [] rows)))

pub record TraceHop : Type 0 where
  pub hop : ℤ
  pub host : String
  pub address : String
  pub raw : String

pub record TraceDiagnostic : Type 0 where
  pub target_name : String
  pub target : String
  pub success : Bool
  pub severity : String
  pub summary : String
  pub error : String
  pub timestamp : ℤ
  pub hops : List TraceHop
  pub raw : String

-- The groups that the two regular expressions find, and net.ParseIP: the number and the rest of a
-- line, and the address in a text, if it has one.
pub record HopReader : Type 0 where
  pub hop_line : String → Option (String × String)
  pub address : String → Option String
  pub is_ip : String → Bool

abbrev pub is_parenthesis : Char → Bool
is_parenthesis c = code c == b'(' || code c == b')'

-- `hop, _ := strconv.Atoi(...)`, of digits: the largest int where the number is larger
abbrev or_largest : Option ℤ → ℤ
or_largest none = pos (2 ^ 63 - 1)
or_largest (some n) = n

abbrev first_word : List String → String
first_word [] = ""
first_word (w ∷ ws) = trim is_parenthesis w

module _ (reader : HopReader) where
  abbrev hop_address : Option String → String
  hop_address none = ""
  hop_address (some ip) = if reader.is_ip ip then ip else ""

  abbrev hop_of : String → Option (String × String) → List TraceHop
  hop_of line none = []
  hop_of line (some (number, rest)) =
      let body = trim_space rest in
      record {
        hop = or_largest (atoi number);
        host = first_word (fields body);
        address = hop_address (reader.address body);
        raw = line;
      }
      ∷ []

  unfoldable pub hops_of : List String → List TraceHop
  hops_of [] = []
  hops_of (l ∷ lines) =
      let line = trim_space l in hop_of line (reader.hop_line line) ++ hops_of lines

  unfoldable pub parse_trace_hops : String → List TraceHop
  parse_trace_hops raw = hops_of (split b'\n' raw)

  abbrev pub diagnosed : {F : Type 0} → AdvancedResult F → TraceDiagnostic
  diagnosed r = record {
    target_name = r.target_name;
    target = r.target;
    success = r.success;
    severity = r.severity;
    summary = r.summary;
    error = r.error;
    timestamp = r.timestamp;
    hops = parse_trace_hops r.details;
    raw = r.details;
  }

  unfoldable pub trace_diagnostics :
      {F : Type 0} → Result (List (AdvancedResult F)) → Response (List TraceDiagnostic)
  trace_diagnostics (err e) = refuse 500 e
  trace_diagnostics (ok rows) = answer (
      sort_with (λ (a : TraceDiagnostic) b. ltb_ℤ b.timestamp a.timestamp)
        (map diagnosed (latest_advanced_by_target rows)))
