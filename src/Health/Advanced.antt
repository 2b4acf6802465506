-- ===== src/Health/Advanced.antt =====
-- The advanced checks that count for the health (agent/internal/agent/advanced_health.go; the type of
-- a result stands in agent/internal/storage/storage.go).
use infracheck_appliance.Base.{
  String, Bool, ◌&&◌, ◌||◌, not, List, [], ◌∷◌, ◌++◌, map, any, if◌then◌else◌, str_eq,
}
use infracheck_appliance.Base.Int.{ℤ}
use infracheck_appliance.Base.Text.{◌<>◌}
use infracheck_appliance.Base.Decimal.{itoa}
use infracheck_appliance.Base.Dict.{values}
use infracheck_appliance.Base.Float.{Floats}
use infracheck_appliance.Config.{TargetsConfig, HttpTarget, HostTarget, TcpTarget, DnsExpectation}
use infracheck_appliance.Verdict.{latest_in}
use infracheck_appliance.Verdict.Rules.{Verdict}
use infracheck_appliance.Health.Limits.{threshold_verdict}

pub record AdvancedResult (F : Type 0) : Type 0 where
  pub id : ℤ
  pub timestamp : ℤ
  pub site_id : String
  pub check_type : String
  pub target_name : String
  pub target : String
  pub success : Bool
  pub duration_ms : F
  pub severity : String
  pub summary : String
  pub details : String
  pub error : String

abbrev pub one_if : Bool → String → List String
one_if b key = if b then key ∷ [] else []

-- The keys of the map.
unfoldable pub active_advanced_checks : TargetsConfig → List String
active_advanced_checks targets =
    let a = targets.advanced in
    "speed_history|WAN speed trend|speedtest" ∷ []
    ++ one_if a.public_ip_enabled "public_ip|Public IP|https://api.ipify.org"
    ++ one_if a.gateway_identity "gateway_identity"
    ++ one_if a.network_env "network_env|Network environment|local"
    ++ one_if a.probe_health "probe_health|Appliance health|local"
    ++ (if a.tls_details
        then map (λ (t : HttpTarget). "tls_details|" <> t.name <> "|" <> t.url) targets.http
        else [])
    ++ map (λ (t : TcpTarget). "tcp|" <> t.name <> "|" <> t.host <> ":" <> itoa t.port) a.tcp
    ++ map (λ (t : HostTarget). "trace|" <> t.name <> "|" <> t.host) a.trace
    ++ map (λ (t : HostTarget). "ntp|" <> t.name <> "|" <> t.host) a.ntp
    ++ map
        (λ (e : DnsExpectation).
          "dns_correctness|" <> (if str_eq e.name "" then e.domain else e.name) <> "|" <> e.domain)
        a.dns_expectations

unfoldable pub advanced_title : String → String
advanced_title check_type =
    if str_eq check_type "tcp"
    then "TCP port check failed"
    else if str_eq check_type "public_ip"
    then "Public IP check failed"
    else if str_eq check_type "gateway_identity"
    then "Gateway identity check failed"
    else if str_eq check_type "trace"
    then "Trace check failed"
    else if str_eq check_type "ntp"
    then "NTP check failed"
    else if str_eq check_type "speed_history"
    then "WAN speed below baseline"
    else if str_eq check_type "dns_correctness"
    then "DNS correctness check failed"
    else check_type <> " check needs attention"

unfoldable pub advanced_recommendation : String → String
advanced_recommendation check_type =
    if str_eq check_type "tcp"
    then "Confirm this port is expected to be reachable from the probe; otherwise disable this TCP target or correct the host/port."
    else if str_eq check_type "public_ip"
    then "Public IP checks need outbound HTTPS/DNS; disable this check if the probe has restricted internet access."
    else if str_eq check_type "gateway_identity"
    then "Run discovery or ping the gateway so the neighbor table contains its MAC; disable if the gateway is on a routed segment."
    else if str_eq check_type "trace"
    then "Traceroute often needs ICMP/UDP support through firewalls; disable it if path tracing is blocked by policy."
    else if str_eq check_type "ntp"
    then "Check DNS and outbound UDP/123, or use an internal NTP server target."
    else if str_eq check_type "speed_history"
    then "Review recent speedtest results; adjust the baseline threshold if this speed is acceptable for the site."
    else if str_eq check_type "dns_correctness"
    then "Compare the expected DNS answers with the resolver result and update the expectation if the record changed intentionally."
    else "Review this check in the dashboard and adjust its target or threshold if it is not applicable."

abbrev has_key : String → List String → Bool
has_key k = any (str_eq k)

module _ {F : Type 0} where
  abbrev pub advanced_key : AdvancedResult F → String
  advanced_key r = r.check_type <> "|" <> r.target_name <> "|" <> r.target

  unfoldable pub latest_advanced_per_target : List (AdvancedResult F) → List (AdvancedResult F)
  latest_advanced_per_target rs = values (latest_in advanced_key (λ r. r.timestamp) [] rs)

  unfoldable pub active_advanced_result : List String → AdvancedResult F → Bool
  active_advanced_result active r = has_key (advanced_key r) active || has_key r.check_type active

module _ (fl : Floats) where
  open fl use {F}

  abbrev advanced_verdict : ℤ → AdvancedResult F → Verdict F
  advanced_verdict now r =
      threshold_verdict fl now r.severity "advanced" r.check_type (advanced_title r.check_type)
        r.summary
        (("type: " <> r.check_type) ∷ ("target: " <> r.target) ∷ ("error: " <> r.error) ∷ [])
        (advanced_recommendation r.check_type)

  -- The additions, in the order of the latest results.
  unfoldable pub advanced_verdicts : ℤ → List String → List (AdvancedResult F) → List (Verdict F)
  advanced_verdicts now active [] = []
  advanced_verdicts now active (r ∷ latest) =
      let rest = advanced_verdicts now active latest in
      if not (active_advanced_result active r)
      then rest
      else (if not (str_eq r.severity "warning") && not (str_eq r.severity "critical")
          then rest
          else advanced_verdict now r ∷ rest)
