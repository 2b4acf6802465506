-- ===== src/Tools/Tests.antt =====
-- Runs of the tools, and the theorem on a scan at a concrete input.
use infracheck_appliance.Base.Lines.{fields, split}
use infracheck_appliance.Base.{
  ℕ, ◌<◌, true, false, ◌&&◌, none, some, List, [], ◌∷◌, ◌++◌, ◌≡◌, refl, ap, length, if◌then◌else◌,
  str_eq,
}
use infracheck_appliance.Base.Int.{ℤ, pos}
use infracheck_appliance.Base.Text.{trim_space}
use infracheck_appliance.Base.Result.{ok, answer, unless_fault}
use infracheck_appliance.Config.Samples.{whole_floats}
use infracheck_appliance.Verdict.{PingResult, DnsResult}
use infracheck_appliance.Devices.Samples.{port_texts, read-written}
use infracheck_appliance.Field.{has_port}
use infracheck_appliance.Field.Throughput.{IsSanitized}
use infracheck_appliance.Runner.{Dial, trace_command, resolv_conf_nameservers, nameservers}
use infracheck_appliance.Tools.{
  ToolPortScanRequest, ToolState, ToolWorld, ScanAnswer, PingTarget, DnsTarget, tool_port_scan,
}
use infracheck_appliance.Tools.Summaries.{sanitize_record_types, to_upper, types_loop}
use infracheck_appliance.Tools.Asked.{IsAsked}
use infracheck_appliance.Tools.Scanned.{ReadsPorts, accepts, tool_port_scan-open}

ReadsPorts-port_texts : ReadsPorts port_texts
ReadsPorts-port_texts = record {
  null = refl;
  list = λ p ps. ap (λ (r : ℕ × List ℤ). (r.1, false)) (read-written (p ∷ ps));
}

abbrev answers_https : Dial
answers_https = λ address. if str_eq address "192.0.2.1:443" then none else some "refused"

abbrev unanswered : PingTarget → PingResult ℕ
unanswered t = record {
  id = pos 0;
  timestamp = pos 5;
  site_id = "site";
  target_name = t.name;
  target_host = t.host;
  target_type = t.type;
  up = false;
  latency_ms = 0;
  loss_percent = 100;
  jitter_ms = 0;
  error = "";
}

abbrev unresolved : DnsTarget → DnsResult ℕ
unresolved t = record {
  id = pos 0;
  timestamp = pos 5;
  site_id = "site";
  resolver_name = t.resolver_name;
  resolver_address = t.resolver_address;
  domain = t.domain;
  record_type = t.record_type;
  success = false;
  duration_ms = 0;
  answer_count = pos 0;
  error = "";
}

abbrev world : ToolWorld ℕ
world = record {
  is_ip = λ s. true;
  ping = λ n. unanswered;
  dns = unresolved;
  dial = answers_https;
  programs = record { tracepath = false; traceroute = true };
  run = λ tool args. ("", none);
  duration = 3;
  now = pos 5;
  stamp = λ n. "2026-01-01T09:00:00Z";
  json = port_texts;
  reader = record { hop_line = λ l. none; address = λ b. none; is_ip = λ ip. true };
}

abbrev empty_tables : ToolState ℕ
empty_tables = record {
  inventory = record {
    rows = [];
    intelligence = [];
    expectations = [];
    events = [];
    next_id = 1;
    fault = none;
  };
  advanced = [];
  dns = [];
}

abbrev https_scan : ToolPortScanRequest
https_scan = record { host = " 192.0.2.1"; ports = pos 80 ∷ pos 443 ∷ []; name = "" }

given_host : str_eq (trim_space https_scan.host) "" ≡ false
unfolding trim_space
given_host = refl

tool_port_scan-open_example :
    (a : ScanAnswer ℕ) × ((tool_port_scan whole_floats "site" world (ok https_scan) empty_tables).1
      ≡ answer a)
    × (0 < length a.ports)
    × IsSanitized a.ports
    × IsAsked https_scan.ports a.ports
    × ((v : ℤ)
        → has_port v a.open_ports
          ≡ (has_port v a.ports && accepts world.dial (trim_space https_scan.host) v))
    × ((tool_port_scan whole_floats "site" world (ok https_scan) empty_tables).0.advanced
        ≡ unless_fault empty_tables.inventory.fault
            (λ e. empty_tables.advanced)
            (empty_tables.advanced ++ a.result ∷ []))
tool_port_scan-open_example =
    tool_port_scan-open whole_floats "site" world https_scan empty_tables ReadsPorts-port_texts
      given_host

types : sanitize_record_types ("aaaa" ∷ "MX" ∷ " A " ∷ "AAAA" ∷ []) ≡ "AAAA" ∷ "A" ∷ []
unfolding sanitize_record_types types_loop to_upper trim_space
types = refl

traceroute_only :
    trace_command (record { tracepath = false; traceroute = true }) "h"
    ≡ ("traceroute", "-n" ∷ "-m" ∷ "8" ∷ "h" ∷ [])
unfolding trace_command
traceroute_only = refl

resolvers :
    resolv_conf_nameservers "nameserver 192.0.2.53\nsearch home\nnameserver 192.0.2.54 x\n"
    ≡ "192.0.2.53" ∷ []
unfolding resolv_conf_nameservers nameservers split fields
resolvers = refl
