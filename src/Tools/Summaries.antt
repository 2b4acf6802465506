-- ===== src/Tools/Summaries.antt =====
-- The texts that sum up what the tools found, and what a request may ask for
-- (agent/internal/agent/tools_api.go).
use infracheck_appliance.Base.{
  ℕ, ◌-◌, String, Bool, not, ◌&&◌, ◌||◌, List, [], ◌∷◌, ◌++◌, map, any, keep, count, length,
  if◌then◌else◌, str_eq, leb,
}
use infracheck_appliance.Base.Int.{ℤ, pos}
use infracheck_appliance.Base.Text.{◌<>◌, trim_space, join}
use infracheck_appliance.Base.Decimal.{itoa}
use infracheck_appliance.Base.Float.{Floats}
use infracheck_appliance.Health.Advanced.{AdvancedResult}
use infracheck_appliance.Verdict.{PingResult, DnsResult}
use infracheck_appliance.Diagnostics.{HopReader, parse_trace_hops}
use Prim.Native.Char.{Char, code}
use Prim.Native.String.{char_at}

unfoldable pub non_empty : String → String → String
non_empty value fallback =
    let trimmed = trim_space value in if str_eq trimmed "" then fallback else trimmed

abbrev is_lower : Char → Bool
is_lower c = leb b'a' (code c) && leb (code c) b'z'

abbrev upper_char : Char → Char
upper_char c = if is_lower c then char_at "ABCDEFGHIJKLMNOPQRSTUVWXYZ" (code c - b'a') else c

-- strings.ToUpper
unfoldable pub to_upper : String → String
to_upper String.[] = ""
to_upper (String.◌∷◌ c s) = String.◌∷◌ (upper_char c) (to_upper s)

abbrev is_record_type : String → Bool
is_record_type t = str_eq t "A" || str_eq t "AAAA"

-- The loop; the set `seen` holds exactly what was put out.
unfoldable pub types_loop : List String → List String → List String
types_loop out [] = out
types_loop out (item ∷ input) =
    let t = to_upper (trim_space item) in
    types_loop (if not (is_record_type t) || any (λ o. str_eq o t) out then out else out ++ t ∷ [])
      input

unfoldable pub sanitize_record_types : List String → List String
sanitize_record_types input = types_loop [] input

unfoldable pub port_scan_summary : String → List ℤ → ℕ → String
port_scan_summary host [] total =
    host <> " has no open ports among " <> itoa (pos total) <> " checked common ports."
port_scan_summary host (p ∷ ps) total =
    host
    <> " has "
    <> itoa (pos (length (p ∷ ps)))
    <> " open port(s): "
    <> join (map itoa (p ∷ ps)) ", "
    <> "."

module _ (fl : Floats) where
  open fl use {F, of_int, lt, fixed}

  -- The text that follows the error's, where there is one
  abbrev with_error : String → String → String → String → String
  with_error text before error otherwise =
      if str_eq error "" then text <> otherwise else text <> before <> error

  unfoldable pub ping_tool_summary : PingResult F → String
  ping_tool_summary r =
      if r.up
      then r.target_host
        <> " is reachable: "
        <> fixed 1 r.latency_ms
        <> " ms average latency, "
        <> fixed 1 r.loss_percent
        <> "% loss, "
        <> fixed 1 r.jitter_ms
        <> " ms jitter."
      else with_error
          (r.target_host <> " is not reachable: " <> fixed 1 r.loss_percent <> "% loss.") " Error: "
          r.error ""

  abbrev failed_lookup : DnsResult F → String
  failed_lookup r = r.record_type <> ": " <> non_empty r.error "failed"

  unfoldable pub slowest : F → List (DnsResult F) → F
  slowest longest [] = longest
  slowest longest (r ∷ rs) =
      slowest (if lt longest r.duration_ms then r.duration_ms else longest) rs

  abbrev failures : List String → String
  failures [] = ""
  failures (f ∷ fs) = " Failed: " <> join (f ∷ fs) "; "

  unfoldable pub dns_tool_summary : List (DnsResult F) → String
  dns_tool_summary [] = "DNS diagnostic returned no result."
  dns_tool_summary (first ∷ rest) =
      let results = first ∷ rest in
      "DNS "
      <> first.domain
      <> " via "
      <> non_empty first.resolver_address first.resolver_name
      <> ": "
      <> itoa (pos (count (λ (r : DnsResult F). r.success) results))
      <> "/"
      <> itoa (pos (length results))
      <> " lookup(s) succeeded, slowest "
      <> fixed 0 (slowest (of_int (pos 0)) results)
      <> " ms."
      <> failures (map failed_lookup (keep (λ (r : DnsResult F). not r.success) results))

  unfoldable pub trace_tool_summary : HopReader → AdvancedResult F → String
  trace_tool_summary reader r =
      if r.success
      then "Trace to "
        <> r.target
        <> " completed in "
        <> fixed 0 r.duration_ms
        <> " ms with "
        <> itoa (pos (length (parse_trace_hops reader r.details)))
        <> " parsed hop(s)."
      else with_error
          ("Trace to " <> r.target <> " failed after " <> fixed 0 r.duration_ms <> " ms") ": "
          r.error "."

  unfoldable pub tcp_tool_summary : AdvancedResult F → String
  tcp_tool_summary r =
      if r.success
      then r.target_name
        <> " is reachable on "
        <> r.target
        <> " in "
        <> fixed 0 r.duration_ms
        <> " ms."
      else with_error (r.target_name <> " is not reachable on " <> r.target <> ".") " Error: "
          r.error ""
