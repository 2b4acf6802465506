-- ===== src/Runner.antt =====
-- Advanced tests (agent/internal/runner/advanced.go). What the network, the programs and the files
-- answer is an argument, and so are the duration of a test and net.ParseIP.
use infracheck_appliance.Base.{
  String, Bool, true, false, not, Option, none, some, List, [], ◌∷◌, ◌++◌, keep, length,
  if◌then◌else◌, str_eq,
}
use infracheck_appliance.Base.Int.{ℤ, pos}
use infracheck_appliance.Base.Text.{◌<>◌, trim_space, to_lower, contains}
use infracheck_appliance.Base.Lines.{fields, split}
use infracheck_appliance.Base.Decimal.{itoa}
use infracheck_appliance.Base.Float.{Floats}
use infracheck_appliance.Health.Advanced.{AdvancedResult}
use infracheck_appliance.Devices.Classify.{Json}
use infracheck_appliance.Probe.{base_advanced}

-- net.JoinHostPort
unfoldable pub join_host_port : String → String → String
join_host_port host port =
    if contains host ":" then "[" <> host <> "]:" <> port else host <> ":" <> port

-- What a connection to an address answers: the error, if it fails.
abbrev pub Dial : Type 0
Dial = String → Option String

abbrev pub connects : Dial → String → Bool
connects dial address = elim (dial address) [ none ↦ true | some e ↦ false ]

-- The MAC behind the first "lladdr"
unfoldable pub lladdr_of : List String → String
lladdr_of [] = ""
lladdr_of (w ∷ []) = ""
lladdr_of (w ∷ v ∷ ws) =
    let rest = lladdr_of (v ∷ ws) in if str_eq w "lladdr" then to_lower v else rest

-- The argument is what `ip neigh show` prints, where it does not fail.
abbrev pub gateway_mac : Option String → String
gateway_mac none = ""
gateway_mac (some out) = lladdr_of (fields out)

abbrev nameserver : List String → List String
nameserver (w ∷ address ∷ []) = if str_eq w "nameserver" then address ∷ [] else []
nameserver _ = []

unfoldable pub nameservers : List String → List String
nameservers [] = []
nameservers (l ∷ lines) = nameserver (fields l) ++ nameservers lines

-- A file that is not read is empty.
unfoldable pub resolv_conf_nameservers : String → List String
resolv_conf_nameservers raw = nameservers (split b'\n' raw)

-- Which of the two programs is installed.
pub record Programs : Type 0 where
  pub tracepath : Bool
  pub traceroute : Bool

unfoldable pub trace_command : Programs → String → String × List String
trace_command p host =
    let args = "-n" ∷ "-m" ∷ "8" ∷ host ∷ [] in
    if p.tracepath
    then ("tracepath", args)
    else (if p.traceroute then ("traceroute", args) else ("", []))

-- `body` is the answer of the server, cut at 128 bytes, or the error of the request.
pub data Fetched : Type 0 where
  failed : String → Fetched
  body : String → Fetched

-- The ports of the list that a connection is made to
unfoldable pub open_ports : Dial → String → List ℤ → List ℤ
open_ports dial ip = keep (λ port. connects dial (join_host_port ip (itoa port)))

-- json.Marshal of a list to which nothing was appended is "null".
abbrev pub marshal_open : Json → List ℤ → String
marshal_open json [] = "null"
marshal_open json (p ∷ ps) = json.encode_ports (p ∷ ps)

module _ (fl : Floats) (now : ℤ) (site : String) (duration : fl.F) where
  open fl use {F}

  abbrev tcp_result : AdvancedResult F → Option String → AdvancedResult F
  tcp_result r none = record r { success = true; summary = "TCP connect ok" }
  tcp_result r (some e) = record r {
    error = e;
    summary = "TCP connect failed";
    severity = "warning";
  }

  unfoldable pub tcp : Dial → String → String → ℤ → AdvancedResult F
  tcp dial name host port =
      let address = join_host_port host (itoa port) in
      tcp_result (record (base_advanced fl now site "tcp" name address) { duration_ms = duration })
        (dial address)

  abbrev fetched_ip : (String → Bool) → AdvancedResult F → Fetched → AdvancedResult F
  fetched_ip is_ip r (failed e) = record r {
    error = e;
    severity = "warning";
    summary = "Public IP lookup failed";
  }
  fetched_ip is_ip r (body text) =
      let ip = trim_space text in
      let seen : AdvancedResult F = record r {
        success = is_ip ip;
        summary = "Public IP: " <> ip;
        details = ip;
      } in
      if is_ip ip
      then seen
      else record seen { severity = "warning"; error = "invalid public IP response" }

  unfoldable pub public_ip : (String → Bool) → Fetched → AdvancedResult F
  public_ip is_ip answer =
      let r = base_advanced fl now site "public_ip" "Public IP" "https://api.ipify.org" in
      fetched_ip is_ip (record r { duration_ms = duration }) answer

  -- The gateway, and what the table of neighbours prints of it
  unfoldable pub gateway_identity : String → (String → Option String) → AdvancedResult F
  gateway_identity gateway neigh =
      let r = base_advanced fl now site "gateway_identity" "Gateway identity" "default gateway" in
      let mac = gateway_mac (neigh gateway) in
      let seen : AdvancedResult F = record r {
        target = gateway;
        success = not (str_eq mac "");
        summary = "Gateway " <> gateway;
        details = mac;
      } in
      if str_eq gateway ""
      then record r {
        severity = "warning";
        summary = "Default gateway not found";
        error = "no default gateway";
      }
      else (if not (str_eq mac "")
          then record seen { summary = "Gateway " <> gateway <> " MAC " <> mac }
          else record seen {
            severity = "warning";
            error = "gateway MAC not found in neighbor table";
          })

  abbrev trace_result : AdvancedResult F → String × Option String → AdvancedResult F
  trace_result r (out, none) = record r {
    duration_ms = duration;
    details = out;
    success = true;
    summary = "Trace completed";
  }
  trace_result r (out, some e) = record r {
    duration_ms = duration;
    details = out;
    success = false;
    summary = "Trace failed";
    severity = "warning";
    error = e;
  }

  -- `run` answers the output of a program, and its error.
  unfoldable pub trace :
      Programs
      → (String → List String → String × Option String)
      → String
      → String
      → AdvancedResult F
  trace programs run name host =
      let r = base_advanced fl now site "trace" name host in
      let (tool, args) = trace_command programs host in
      if str_eq tool ""
      then record r {
        severity = "warning";
        summary = "Traceroute tool not installed";
        error = "missing tracepath/traceroute";
      }
      else trace_result r (run tool args)

  unfoldable pub port_scan : Json → Dial → String → List ℤ → AdvancedResult F
  port_scan json dial ip ports =
      let accepting = open_ports dial ip ports in
      record (base_advanced fl now site "port_scan" ip ip) {
        duration_ms = duration;
        success = true;
        summary = itoa (pos (length accepting)) <> " open common ports";
        details = marshal_open json accepting;
      }
