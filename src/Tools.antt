-- ===== src/Tools.antt =====
-- The tools on demand (agent/internal/agent/tools_api.go), but for the enrichment of a device. The body
-- of a request comes decoded, the runners of ping and DNS are arguments, and the metrics are left out.
pub mod Summaries
pub mod Asked
pub mod Scanned
mod Tests
use infracheck_appliance.Base.{
  ℕ, String, Bool, true, false, ◌&&◌, ◌||◌, not, Option, none, some, List, [], ◌∷◌, ◌++◌, map,
  length, if◌then◌else◌, str_eq,
}
use infracheck_appliance.Base.Int.{ℤ, pos, leb_ℤ, ltb_ℤ}
use infracheck_appliance.Base.Text.{◌<>◌, trim_space, trim_suffix}
use infracheck_appliance.Base.Decimal.{itoa}
use infracheck_appliance.Base.Float.{Floats}
use infracheck_appliance.Base.Result.{Result, ok, err, Response, answer, refuse, unless_fault}
use infracheck_appliance.Health.Advanced.{AdvancedResult}
use infracheck_appliance.Verdict.{PingResult, DnsResult}
use infracheck_appliance.Field.{sanitize_ports}
use infracheck_appliance.Devices.{Device, DeviceRow, Inventory}
use infracheck_appliance.Devices.Select.{devices}
use infracheck_appliance.Devices.Classify.{Json}
use infracheck_appliance.Devices.Persist.{parse_port_list, persist_device_port_scan}
use infracheck_appliance.Refresh.{World, RefreshState, run_discovery}
use infracheck_appliance.Refresh.Handlers.{or_none}
use infracheck_appliance.Diagnostics.{HopReader, TraceHop, parse_trace_hops}
use infracheck_appliance.Runner.{Dial, Programs, tcp, trace, port_scan}
use Summaries.{
  non_empty, sanitize_record_types, ping_tool_summary, dns_tool_summary, trace_tool_summary,
  tcp_tool_summary, port_scan_summary,
}

pub record PingTarget : Type 0 where
  pub name : String
  pub host : String
  pub type : String

pub record DnsTarget : Type 0 where
  pub resolver_name : String
  pub resolver_address : String
  pub domain : String
  pub record_type : String

pub record ToolPingRequest : Type 0 where
  pub host : String
  pub name : String
  pub count : ℤ

pub record ToolTcpRequest : Type 0 where
  pub host : String
  pub port : ℤ
  pub name : String

pub record ToolDnsRequest : Type 0 where
  pub domain : String
  pub resolver_name : String
  pub resolver_address : String
  pub record_types : List String

pub record ToolTraceRequest : Type 0 where
  pub host : String
  pub name : String

pub record ToolPortScanRequest : Type 0 where
  pub host : String
  pub ports : List ℤ
  pub name : String

pub record WithSummary (R : Type 0) : Type 0 where
  pub result : R
  pub summary : String

pub record TraceAnswer (F : Type 0) : Type 0 where
  pub result : AdvancedResult F
  pub hops : List TraceHop
  pub summary : String

pub record ScanAnswer (F : Type 0) : Type 0 where
  pub host : String
  pub ports : List ℤ
  pub open_ports : List ℤ
  pub result : AdvancedResult F
  pub summary : String

pub record TopologyAnswer : Type 0 where
  pub summary : String
  pub run_devices : List DeviceRow
  pub known_devices : List Device
  pub gateway : String

-- The tables that the tools write: a row is added without its number.
pub record ToolState (F : Type 0) : Type 0 where
  pub inventory : Inventory
  pub advanced : List (AdvancedResult F)
  pub dns : List (DnsResult F)

-- The runners, the clock with its text for a time, and the parsers.
pub record ToolWorld (F : Type 0) : Type 0 where
  pub is_ip : String → Bool
  pub ping : ℤ → PingTarget → PingResult F
  pub dns : DnsTarget → DnsResult F
  pub dial : Dial
  pub programs : Programs
  pub run : String → List String → String × Option String
  pub duration : F
  pub now : ℤ
  pub stamp : ℤ → String
  pub json : Json
  pub reader : HopReader

-- The error of a save is only logged.
abbrev pub save_advanced : {F : Type 0} → AdvancedResult F → ToolState F → ToolState F
save_advanced r s = record s {
  advanced = unless_fault s.inventory.fault (λ e. s.advanced) (s.advanced ++ r ∷ []);
}

abbrev pub save_dns : {F : Type 0} → DnsResult F → ToolState F → ToolState F
save_dns r s = record s { dns = unless_fault s.inventory.fault (λ e. s.dns) (s.dns ++ r ∷ []) }

abbrev pub or_common : List ℤ → List ℤ
or_common [] = pos 22 ∷ pos 80 ∷ pos 443 ∷ pos 445 ∷ pos 3389 ∷ pos 8080 ∷ pos 8443 ∷ []
or_common (p ∷ ps) = p ∷ ps

abbrev or_both : List String → List String
or_both [] = "A" ∷ "AAAA" ∷ []
or_both (t ∷ ts) = t ∷ ts

abbrev pub named_as : {F : Type 0} → String → AdvancedResult F → AdvancedResult F
named_as name r = if str_eq name "" then r else record r { target_name = trim_space name }

module _ (fl : Floats) (site : String) (w : ToolWorld fl.F) where
  open fl use {F}

  unfoldable pub tool_ping : Result ToolPingRequest → Response (WithSummary (PingResult F))
  tool_ping (err e) = refuse 400 e
  tool_ping (ok req) =
      let host = trim_space req.host in
      let count =
        if leb_ℤ req.count (pos 0) || ltb_ℤ (pos 10) req.count then pos 3 else req.count in
      let result =
        w.ping count (record { name = non_empty req.name host; host = host; type = "ad_hoc" }) in
      if not (w.is_ip host) && str_eq host ""
      then refuse 400 "host is required"
      else answer (record { result = result; summary = ping_tool_summary fl result })

  unfoldable pub tool_tcp : Result ToolTcpRequest → Response (WithSummary (AdvancedResult F))
  tool_tcp (err e) = refuse 400 e
  tool_tcp (ok req) =
      let host = trim_space req.host in
      let name = non_empty req.name (req.host <> ":" <> itoa req.port) in
      let result = tcp fl w.now site w.duration w.dial name host req.port in
      if str_eq host "" || (leb_ℤ req.port (pos 0) || ltb_ℤ (pos 65535) req.port)
      then refuse 400 "valid host and port are required"
      else answer (record { result = result; summary = tcp_tool_summary fl result })

  -- The loop over the types of record
  unfoldable pub dns_each : DnsTarget → List String → ToolState F → ToolState F × List (DnsResult F)
  dns_each target [] s = (s, [])
  dns_each target (t ∷ ts) s =
      let result = w.dns (record target { record_type = t }) in
      let (after, results) = dns_each target ts (save_dns result s) in (after, result ∷ results)

  abbrev dns_answer :
      ToolState F × List (DnsResult F) → ToolState F × Response (WithSummary (List (DnsResult F)))
  dns_answer (s, results) =
      (s, answer (record { result = results; summary = dns_tool_summary fl results }))

  unfoldable pub tool_dns :
      Result ToolDnsRequest
      → ToolState F
      → ToolState F × Response (WithSummary (List (DnsResult F)))
  tool_dns (err e) s = (s, refuse 400 e)
  tool_dns (ok req) s =
      let domain = trim_space (trim_suffix req.domain ".") in
      let address = trim_space req.resolver_address in
      let target : DnsTarget = record {
        resolver_name = non_empty req.resolver_name (non_empty address "system");
        resolver_address = address;
        domain = domain;
        record_type = "";
      } in
      if str_eq domain ""
      then (s, refuse 400 "domain is required")
      else dns_answer (dns_each target (or_both (sanitize_record_types req.record_types)) s)

  unfoldable pub tool_trace :
      Result ToolTraceRequest → ToolState F → ToolState F × Response (TraceAnswer F)
  tool_trace (err e) s = (s, refuse 400 e)
  tool_trace (ok req) s =
      let host = trim_space req.host in
      let result = trace fl w.now site w.duration w.programs w.run (non_empty req.name host) host in
      if str_eq host "" then (s, refuse 400 "host is required") else (
        save_advanced result s,
        answer (record {
          result = result;
          hops = parse_trace_hops w.reader result.details;
          summary = trace_tool_summary fl w.reader result;
        }),
      )

  -- The first device at the address, if there is one, gets what the scan found.
  unfoldable pub persist_first : String → AdvancedResult F → List Device → Inventory → Inventory
  persist_first host result [] db = db
  persist_first host result (d ∷ ds) db =
      if str_eq d.row.ip host
      then (persist_device_port_scan w.json (w.stamp w.now) site d result.details
          (w.stamp result.timestamp) db).0
      else persist_first host result ds db

  abbrev scanned_at : String → List ℤ → String → ToolState F → ToolState F × Response (ScanAnswer F)
  scanned_at host ports name s =
      let result = named_as name (port_scan fl w.now site w.duration w.json w.dial host ports) in
      let found = parse_port_list w.json result.details in
      let saved = save_advanced result s in
      (
        record saved {
          inventory =
              persist_first host result (or_none (devices site saved.inventory)) saved.inventory;
        },
        answer (record {
          host = host;
          ports = ports;
          open_ports = found;
          result = result;
          summary = port_scan_summary host found (length ports);
        }),
      )

  unfoldable pub tool_port_scan :
      Result ToolPortScanRequest → ToolState F → ToolState F × Response (ScanAnswer F)
  tool_port_scan (err e) s = (s, refuse 400 e)
  tool_port_scan (ok req) s =
      let host = trim_space req.host in
      if str_eq host ""
      then (s, refuse 400 "host is required")
      else scanned_at host (or_common (sanitize_ports req.ports)) req.name s

-- The gateway of the targets, or else that of the host
unfoldable pub tool_topology_refresh :
    World
    → List String
    → String
    → String
    → String
    → RefreshState
    → RefreshState × Response TopologyAnswer
tool_topology_refresh w cidrs now site gateway s =
    let (after, found) = run_discovery w cidrs now site s in
    let known = or_none (devices site after.inventory) in
    (
      after,
      answer (record {
        summary =
            "Topology refreshed: "
            <> itoa (pos (length found))
            <> " device(s) seen in this run, "
            <> itoa (pos (length known))
            <> " total known device(s).";
        run_devices = found;
        known_devices = known;
        gateway = gateway;
      }),
    )
