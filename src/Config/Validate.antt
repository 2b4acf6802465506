-- ===== src/Config/Validate.antt =====
-- `Validate` (agent/internal/config/config.go). A result is the text of the first check that fails.
use infracheck_appliance.Base.{
  String, Bool, ◌&&◌, ◌||◌, not, Option, none, some, List, [], ◌∷◌, if◌then◌else◌, str_eq,
}
use infracheck_appliance.Base.Text.{◌<>◌}
use infracheck_appliance.Base.Int.{ℤ, pos, ltb_ℤ, leb_ℤ}
use infracheck_appliance.Config.{
  Config, TestsConfig, HostTarget, HttpTarget, TcpTarget, ResolverRef, SpeedtestTarget,
  TargetsConfig,
}
use infracheck_appliance.Config.Interval.{duration}

-- `nil`, or the text of an error.
abbrev pub Outcome : Type 0
Outcome = Option String

-- `if test { return errors.New(text) }`
abbrev pub Check : Type 0
Check = Bool × String

-- The checks in their order; the first that fails is answered.
unfoldable pub first_error : List Check → Outcome
first_error [] = none
first_error ((test, text) ∷ rest) = if test then some text else first_error rest

infixr 5 ◌>>◌
abbrev pub ◌>>◌ : Outcome → Outcome → Outcome
none >> k = k
some e >> k = some e

abbrev pub is_empty : String → Bool
is_empty s = str_eq s ""

abbrev not_positive : ℤ → Bool
not_positive n = leb_ℤ n (pos 0)

abbrev negative : ℤ → Bool
negative n = ltb_ℤ n (pos 0)

abbrev bad_port : ℤ → Bool
bad_port n = not_positive n || ltb_ℤ (pos 65535) n

-- the range loops: the first element that fails ends the call
unfoldable pub each {ℓ} : {A : Type ℓ} → (A → Bool) → (A → String) → List A → Outcome
each test text [] = none
each test text (x ∷ xs) = if test x then some (text x) else each test text xs

module _ {F : Type 0} where
  unfoldable pub base_checks : Config F → List Check
  base_checks c =
      (is_empty c.site.id, "site.id is required")
      ∷ (is_empty c.agent.bind_address, "agent.bind_address is required")
      ∷ (bad_port c.agent.port, "agent.port must be between 1 and 65535")
      ∷ (is_empty c.storage.path, "storage.path is required")
      ∷ (is_empty c.reports.path, "reports.path is required")
      ∷ (negative c.reports.retention_days, "reports.retention_days must be zero or greater")
      ∷ (
        negative c.reports.alert_history_retention_days,
        "reports.alert_history_retention_days must be zero or greater",
      )
      ∷ (
        c.security.protect_metrics
            && is_empty c.security.read_token
            && is_empty c.security.admin_token,
        "security.protect_metrics requires security.read_token or security.admin_token",
      )
      ∷ (
        not c.security.allow_public_reads
            && is_empty c.security.read_token
            && is_empty c.security.admin_token,
        "private read endpoints require security.read_token or security.admin_token",
      )
      ∷ []

unfoldable pub tests_checks : TestsConfig → List Check
tests_checks t =
    (not_positive t.ping.timeout_seconds, "tests.ping.timeout_seconds must be positive")
    ∷ (not_positive (duration t.ping), "tests.ping interval must be positive")
    ∷ (not_positive t.dns.timeout_seconds, "tests.dns.timeout_seconds must be positive")
    ∷ (not_positive (duration t.dns), "tests.dns interval must be positive")
    ∷ (not_positive t.http.timeout_seconds, "tests.http.timeout_seconds must be positive")
    ∷ (not_positive (duration t.http), "tests.http interval must be positive")
    ∷ (not_positive t.speedtest.timeout_seconds, "tests.speedtest.timeout_seconds must be positive")
    ∷ (not_positive (duration t.speedtest), "tests.speedtest interval must be positive")
    ∷ (not_positive t.advanced.timeout_seconds, "tests.advanced.timeout_seconds must be positive")
    ∷ (not_positive (duration t.advanced), "tests.advanced interval must be positive")
    ∷ (
      not_positive t.tls_details.timeout_seconds,
      "tests.tls_details.timeout_seconds must be positive",
    )
    ∷ (not_positive (duration t.tls_details), "tests.tls_details interval must be positive")
    ∷ []

unfoldable pub speedtest_checks : SpeedtestTarget → List Check
speedtest_checks s =
    if s.enabled
    then (
      is_empty s.name || is_empty s.download_url,
      "enabled speedtest requires name and download_url",
    )
      ∷ (not_positive s.download_bytes, "enabled speedtest requires positive download_bytes")
      ∷ (
        not (is_empty s.upload_url) && not_positive s.upload_bytes,
        "enabled speedtest upload_url requires positive upload_bytes",
      )
      ∷ []
    else []

abbrev pub no_host : HostTarget → Bool
no_host x = is_empty x.name || is_empty x.host

abbrev pub no_url : HttpTarget → Bool
no_url x = is_empty x.name || is_empty x.url

abbrev pub bad_tcp : TcpTarget → Bool
bad_tcp x = is_empty x.name || is_empty x.host || bad_port x.port

abbrev pub no_address : ResolverRef → Bool
no_address x = is_empty x.name || is_empty x.address

-- What the check asks of the `net` and `fmt` packages: whether net.ParseCIDR accepts a text, and the
-- quoted form of a text.
pub record Net : Type 0 where
  pub parses_cidr : String → Bool
  pub quote : String → String

module _ (net : Net) where
  abbrev pub bad_cidr : String → Bool
  bad_cidr x = not (net.parses_cidr x)

  abbrev pub cidr_text : String → String
  cidr_text x = "targets.discovery.cidrs contains invalid CIDR " <> net.quote x

  unfoldable pub validate_targets : TargetsConfig → Outcome
  validate_targets t =
      each no_host (λ _. "internet targets require name and host") t.internet
      >> each no_url (λ _. "http targets require name and url") t.http
      >> each bad_tcp (λ _. "tcp targets require name, host, and valid port") t.advanced.tcp
      >> each is_empty (λ _. "dns domains cannot be empty") t.dns.domains
      >> each no_address (λ _. "dns resolvers require name and address") t.dns.resolvers
      >> first_error (speedtest_checks t.speedtest)
      >> each bad_cidr cidr_text t.discovery.cidrs

  unfoldable pub validate : {F : Type 0} → Config F → Outcome
  validate c =
      first_error (base_checks c)
      >> first_error (tests_checks c.tests)
      >> validate_targets c.targets
