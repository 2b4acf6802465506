-- ===== src/Verdict/Rules.antt =====
-- The rules that draw the verdicts (agent/internal/verdict/verdict.go).
use infracheck_appliance.Base.{
  ℕ, String, Bool, ◌&&◌, ◌||◌, not, Option, none, some, List, [], ◌∷◌, ◌++◌, if◌then◌else◌,
}
use infracheck_appliance.Base.Int.{ℤ, pos, ltb_ℤ, leb_ℤ}
use infracheck_appliance.Base.Text.{◌<>◌}
use infracheck_appliance.Base.Decimal.{itoa}
use infracheck_appliance.Base.Float.{Floats}
use infracheck_appliance.Verdict.{PingResult, HttpResult, Summary, is_empty}

pub record Metrics (F : Type 0) : Type 0 where
  pub gateway_up : Option Bool
  pub gateway_latency_ms : Option F
  pub gateway_loss_percent : Option F
  pub internet_up_ratio : Option F
  pub internet_max_loss : Option F
  pub system_dns_success : Option F
  pub public_dns_success : Option F
  pub http_up_ratio : Option F
  pub http_max_duration_ms : Option F
  pub min_tls_days : Option ℤ

pub record Verdict (F : Type 0) : Type 0 where
  pub severity : String
  pub category : String
  pub code : String
  pub title : String
  pub summary : String
  pub evidence : List String
  pub recommendation : String
  pub timestamp : ℤ
  pub metrics : Metrics F

-- `%t`
abbrev bool_text : Bool → String
bool_text b = if b then "true" else "false"

module _ (fl : Floats) where
  open fl use {F, ratio, mul, lt, le, eq, fixed}

  unfoldable pub metrics_for : Summary F → Metrics F
  metrics_for s = record {
    gateway_up = elim s.gateway [ none ↦ none | some g ↦ some g.up ];
    gateway_latency_ms = elim s.gateway [ none ↦ none | some g ↦ some g.latency_ms ];
    gateway_loss_percent = elim s.gateway [ none ↦ none | some g ↦ some g.loss_percent ];
    internet_up_ratio = some s.internet_up_ratio;
    internet_max_loss = some s.internet_max_loss;
    system_dns_success = if s.has_dns then some s.system_dns_success else none;
    public_dns_success = if s.has_dns then some s.public_dns_success else none;
    http_up_ratio = if is_empty s.http then none else some s.http_up_ratio;
    http_max_duration_ms = if is_empty s.http then none else some s.http_max_duration;
    min_tls_days = if is_empty s.http then none else s.min_tls_days;
  }

  abbrev whole : ℕ → F
  whole n = ratio n 1

  -- `a > b`
  abbrev gt : F → F → Bool
  gt a b = lt b a

  abbrev percent : F → String
  percent x = fixed 0 (mul x (whole 100)) <> "%"

  -- The rules that look at the gateway: one for a gateway that is unstable, one for packet loss
  -- behind a gateway without any.
  abbrev gateway_unstable : PingResult F → Bool
  gateway_unstable g = not g.up || gt g.loss_percent (whole 1) || gt g.latency_ms (whole 20)

  abbrev loss_upstream : Summary F → PingResult F → Bool
  loss_upstream s g = g.up && eq g.loss_percent (whole 0) && gt s.internet_max_loss (whole 3)

  module _ (now : ℤ) (s : Summary F) where
    -- `base`, with the summary's metrics and the texts of the rule
    abbrev verdict : String → String → String → String → String → List String → String → Verdict F
    verdict severity category code title summary evidence recommendation = record {
      severity = severity;
      category = category;
      code = code;
      title = title;
      summary = summary;
      evidence = evidence;
      recommendation = recommendation;
      timestamp = now;
      metrics = metrics_for s;
    }

    abbrev when : Bool → Verdict F → List (Verdict F)
    when b v = if b then v ∷ [] else []

    unfoldable pub gateway_rules : Option (PingResult F) → List (Verdict F)
    gateway_rules none = []
    gateway_rules (some g) =
        when (gateway_unstable g) (
          verdict "critical" "gateway" "local_gateway_unstable" "Local gateway unstable"
            "The local gateway is unreachable, dropping packets, or responding with high latency."
            (("gateway up: " <> bool_text g.up)
              ∷ ("gateway latency: " <> fixed 2 g.latency_ms <> " ms")
              ∷ ("gateway packet loss: " <> fixed 2 g.loss_percent <> "%")
              ∷ [])
            "Check the router, switch path, cabling, VLAN, and local gateway load before escalating to the ISP.")
        ++ when (loss_upstream s g) (
            verdict "warning" "wan" "upstream_packet_loss" "Upstream packet loss detected"
              "The local gateway looks healthy while internet targets show packet loss."
              ("gateway packet loss: 0.00%"
                ∷ ("internet max packet loss: " <> fixed 2 s.internet_max_loss <> "%")
                ∷ [])
              "Collect WAN latency/loss evidence and check ISP handoff, modem, firewall WAN interface, and provider status.")

    unfoldable pub internet_rules : List (Verdict F)
    internet_rules = when (not (is_empty s.internet) && eq s.internet_up_ratio (whole 0)) (
        verdict "critical" "wan" "internet_unreachable" "Internet unreachable"
          "All configured internet ping targets are currently unreachable."
          (("internet targets reachable: " <> percent s.internet_up_ratio) ∷ [])
          "Check WAN connectivity, firewall egress policy, DNS-independent routing, and ISP status.")

    abbrev dns_evidence : List String
    dns_evidence =
        ("system DNS success: " <> percent s.system_dns_success)
        ∷ ("public DNS success: " <> percent s.public_dns_success)
        ∷ []

    unfoldable pub dns_rules : List (Verdict F)
    dns_rules =
        when
          (s.has_dns
            && lt s.system_dns_success (ratio 9 10)
            && le (ratio 95 100) s.public_dns_success)
          (verdict "warning" "dns" "local_dns_problem" "Local DNS problem"
            "The system resolver is failing while public resolvers are working." dns_evidence
            "Check DNS configured on the router/DHCP scope or temporarily compare clients against 1.1.1.1 and 8.8.8.8.")
        ++ when
            (s.has_dns
              && lt s.system_dns_success (ratio 9 10)
              && lt s.public_dns_success (ratio 9 10))
            (verdict "critical" "dns" "dns_general_outage" "DNS resolution failing"
              "Both system and public resolver checks are failing." dns_evidence
              "Check WAN reachability, firewall UDP/TCP 53 policy, and resolver availability.")

    unfoldable pub service_rules : HttpResult F → List (Verdict F)
    service_rules service =
        when (not service.up) (
          verdict "warning" "service" "service_down" "Service unavailable"
            "A configured HTTP service check is failing."
            (("service: " <> service.name)
              ∷ ("url: " <> service.url)
              ∷ ("status code: " <> itoa service.status_code)
              ∷ ("error: " <> service.error)
              ∷ [])
            "Check the remote service, firewall policy, proxy path, DNS result, and certificate chain for this URL.")
        ++ when (service.up && gt service.duration_ms (whole 3000)) (
            verdict "warning" "service" "service_slow" "Service response slow"
              "A configured HTTP service is responding slowly."
              (("service: " <> service.name)
                ∷ ("duration: " <> fixed 2 service.duration_ms <> " ms")
                ∷ [])
              "Compare with WAN latency and check application, proxy, and upstream service performance.")
        ++ when (not service.tls_valid) (
            verdict "critical" "service" "tls_invalid" "TLS certificate invalid"
              "A configured HTTPS endpoint presented an invalid certificate or TLS validation failed."
              (("service: " <> service.name) ∷ ("url: " <> service.url) ∷ service.error ∷ [])
              "Inspect the certificate chain, hostname, expiry, and any TLS interception devices.")
        ++ when
            (service.tls_valid
              && ltb_ℤ (pos 0) service.tls_days_until_expiry
              && leb_ℤ service.tls_days_until_expiry (pos 14))
            (verdict "warning" "service" "tls_expiring" "TLS certificate expiring soon"
              "A configured HTTPS endpoint certificate is close to expiry."
              (("service: " <> service.name)
                ∷ ("days until expiry: " <> itoa service.tls_days_until_expiry)
                ∷ [])
              "Renew or replace the certificate before expiry and confirm the served chain after deployment.")

    unfoldable pub services_rules : List (HttpResult F) → List (Verdict F)
    services_rules [] = []
    services_rules (service ∷ services) = service_rules service ++ services_rules services

    -- Every verdict on something wrong, in the order of the rules.
    unfoldable pub problems : List (Verdict F)
    problems = gateway_rules s.gateway ++ internet_rules ++ dns_rules ++ services_rules s.http

    unfoldable pub all_healthy : Verdict F
    all_healthy =
        verdict "info" "overall" "healthy" "Network checks healthy"
          "No active gateway, WAN, or DNS problems were detected from the latest samples."
          ("latest gateway, internet, and DNS checks are within current thresholds" ∷ [])
          "Continue monitoring and review trends if users report intermittent symptoms."

    unfoldable pub rules : List (Verdict F)
    rules = if is_empty problems then all_healthy ∷ [] else problems
