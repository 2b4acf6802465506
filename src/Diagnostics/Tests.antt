-- ===== src/Diagnostics/Tests.antt =====
-- Runs of the history of ports, and the theorem about it at concrete scans.
use infracheck_appliance.Base.Decimal.{atoi}
use infracheck_appliance.Base.Text.{trim_space}
use infracheck_appliance.Base.Lines.{fields, split, trim}
use infracheck_appliance.Base.{
  ℕ, String, true, none, some, List, [], ◌∷◌, ◌≡◌, refl, if◌then◌else◌, str_eq,
}
use infracheck_appliance.Base.Int.{ℤ, pos}
use infracheck_appliance.Health.Advanced.{AdvancedResult}
use infracheck_appliance.Devices.Samples.{written}
use infracheck_appliance.Diagnostics.{HopReader, port_diff, parse_trace_hops, hops_of}

abbrev scan_of : ℤ → String → List ℤ → AdvancedResult ℕ
scan_of at ip ports = record {
  id = pos 0;
  timestamp = at;
  site_id = "site";
  check_type = "port_scan";
  target_name = ip;
  target = ip;
  success = true;
  duration_ms = 0;
  severity = "info";
  summary = "";
  details = written ports;
  error = "";
}

abbrev scans : List (AdvancedResult ℕ)
scans =
    scan_of (pos 7) "192.0.2.1" (pos 22 ∷ pos 80 ∷ [])
    ∷ scan_of (pos 9) "192.0.2.2" []
    ∷ scan_of (pos 8) "192.0.2.1" (pos 80 ∷ pos 443 ∷ [])
    ∷ []

opened : port_diff (pos 80 ∷ pos 443 ∷ []) (pos 22 ∷ pos 80 ∷ []) ≡ pos 443 ∷ []
unfolding port_diff
opened = refl

-- A reader for lines such as "1 192.0.2.1", which takes every line for one of hop 3.
abbrev reader : HopReader
reader = record {
  hop_line = λ line. if str_eq line "" then none else some ("3", line);
  address = λ body. some body;
  is_ip = λ ip. str_eq ip "192.0.2.1";
}

hops :
    parse_trace_hops reader " 192.0.2.1\n\nhost (x)"
    ≡ record { hop = pos 3; host = "192.0.2.1"; address = "192.0.2.1"; raw = "192.0.2.1" }
      ∷ record { hop = pos 3; host = "host"; address = ""; raw = "host (x)" }
      ∷ []
unfolding parse_trace_hops hops_of split trim_space atoi fields trim
hops = refl
