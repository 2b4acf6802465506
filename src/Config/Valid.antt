-- ===== src/Config/Valid.antt =====
-- What `Validate` (agent/internal/config/config.go) accepts, as a predicate without its code.
use infracheck_appliance.Base.{
  All-map, String, Bool, true, false, none, some, List, [], ◌∷◌, ◌≡◌, ◌≢◌, ◌⊎◌, ◌↔◌, refl, arith,
  eq_iff, All, not,
}
use infracheck_appliance.Base.Int.{pos, ◌≤ℤ◌, ◌<ℤ◌}
use infracheck_appliance.Config.{
  Config, SecurityConfig, IntervalConfig, TestsConfig, HostTarget, HttpTarget, TcpTarget,
  ResolverRef, SpeedtestTarget, TargetsConfig,
}
use infracheck_appliance.Config.Interval.{duration}
use infracheck_appliance.Config.Validate.{
  Outcome, Check, first_error, each, Net, base_checks, tests_checks, speedtest_checks,
  validate_targets, validate, ◌>>◌, no_host, no_url, bad_tcp, no_address, is_empty, bad_cidr,
  cidr_text,
}

abbrev pub Filled : String → Type 0
Filled s = s ≢ ""

abbrev pub HasToken : SecurityConfig → Type 0
HasToken s = Filled s.read_token ⊎ Filled s.admin_token

pub record BaseIsValid {F : Type 0} (c : Config F) : Type 0 where
  pub id : Filled c.site.id
  pub bind_address : Filled c.agent.bind_address
  pub port_low : pos 0 <ℤ c.agent.port
  pub port_high : c.agent.port ≤ℤ pos 65535
  pub storage : Filled c.storage.path
  pub reports : Filled c.reports.path
  pub retention : pos 0 ≤ℤ c.reports.retention_days
  pub alert_retention : pos 0 ≤ℤ c.reports.alert_history_retention_days
  pub metrics : (c.security.protect_metrics ≡ false) ⊎ HasToken c.security
  pub reads : (c.security.allow_public_reads ≡ true) ⊎ HasToken c.security

abbrev pub IntervalIsValid : IntervalConfig → Type 0
IntervalIsValid i = (pos 0 <ℤ i.timeout_seconds) × (pos 0 <ℤ duration i)

pub record TestsIsValid (t : TestsConfig) : Type 0 where
  pub ping : IntervalIsValid t.ping
  pub dns : IntervalIsValid t.dns
  pub http : IntervalIsValid t.http
  pub speedtest : IntervalIsValid t.speedtest
  pub advanced : IntervalIsValid t.advanced
  pub tls_details : IntervalIsValid t.tls_details

abbrev pub HostIsValid : HostTarget → Type 0
HostIsValid x = Filled x.name × Filled x.host

abbrev pub HttpIsValid : HttpTarget → Type 0
HttpIsValid x = Filled x.name × Filled x.url

abbrev pub TcpIsValid : TcpTarget → Type 0
TcpIsValid x = Filled x.name × Filled x.host × (pos 0 <ℤ x.port) × (x.port ≤ℤ pos 65535)

abbrev pub ResolverIsValid : ResolverRef → Type 0
ResolverIsValid x = Filled x.name × Filled x.address

abbrev pub SpeedtestIsValid : SpeedtestTarget → Type 0
SpeedtestIsValid s =
    (s.enabled ≡ false)
    ⊎ Filled s.name
      × Filled s.download_url
      × (pos 0 <ℤ s.download_bytes)
      × ((s.upload_url ≡ "") ⊎ (pos 0 <ℤ s.upload_bytes))

pub record TargetsIsValid (net : Net) (t : TargetsConfig) : Type 0 where
  pub internet : All HostIsValid t.internet
  pub http : All HttpIsValid t.http
  pub tcp : All TcpIsValid t.advanced.tcp
  pub domains : All Filled t.dns.domains
  pub resolvers : All ResolverIsValid t.dns.resolvers
  pub speedtest : SpeedtestIsValid t.speedtest
  pub cidrs : All (λ x. net.parses_cidr x ≡ true) t.discovery.cidrs

pub record IsValid {F : Type 0} (net : Net) (c : Config F) : Type 0 where
  pub base : BaseIsValid c
  pub tests : TestsIsValid c.tests
  pub targets : TargetsIsValid net c.targets

-- A sequence of checks succeeds exactly if none of its tests is met.
first_error_iff : (cs : List Check) → (first_error cs ≡ none) ↔ All (λ (c : Check). c.0 ≡ false) cs
unfolding first_error
first_error_iff [] = (λ h. tt, λ h. refl)
first_error_iff ((test, text) ∷ rest) =
    let (to, from) = first_error_iff rest in (λ h. ground (arith, to), λ h. ground (arith, from))

each_iff :
    {A : Type 0} (test : A → Bool) (text : A → String) (xs : List A)
    → (each test text xs ≡ none) ↔ All (λ x. test x ≡ false) xs
unfolding each
each_iff test text [] = (λ h. tt, λ h. refl)
each_iff test text (x ∷ xs) =
    let (to, from) = each_iff test text xs in (λ h. ground (arith, to), λ h. ground (arith, from))

then_iff : (a b : Outcome) → ((a >> b) ≡ none) ↔ ((a ≡ none) × (b ≡ none))
then_iff none b = ground arith
then_iff (some e) b = ground arith

base_iff :
    {F : Type 0} (c : Config F) → All (λ (k : Check). k.0 ≡ false) (base_checks c) ↔ BaseIsValid c
unfolding base_checks
base_iff c = (
  λ h. ground (
    arith,
    eq_iff c.site.id "",
    eq_iff c.agent.bind_address "",
    eq_iff c.storage.path "",
    eq_iff c.reports.path "",
    eq_iff c.security.read_token "",
    eq_iff c.security.admin_token "",
  ),
  λ h. ground (
    arith,
    eq_iff c.site.id "",
    eq_iff c.agent.bind_address "",
    eq_iff c.storage.path "",
    eq_iff c.reports.path "",
    eq_iff c.security.read_token "",
    eq_iff c.security.admin_token "",
  ),
)

tests_iff : (t : TestsConfig) → All (λ (k : Check). k.0 ≡ false) (tests_checks t) ↔ TestsIsValid t
unfolding tests_checks
tests_iff t = (λ h. ground arith, λ h. ground arith)

-- A loop of checks succeeds exactly if every element has what the test asks of one.
loop_iff :
    {A : Type 0} (test : A → Bool) (text : A → String) (P : A → Type 0)
    → ((x : A) → (test x ≡ false) ↔ P x)
    → (xs : List A) → (each test text xs ≡ none) ↔ All P xs
loop_iff test text P one xs =
    let (to, from) = each_iff test text xs in
    (
      λ h. All-map (λ x. test x ≡ false) P (λ x. (one x).0) xs (to h),
      λ p. from (All-map P (λ x. test x ≡ false) (λ x. (one x).1) xs p),
    )

host_iff : (x : HostTarget) → (no_host x ≡ false) ↔ HostIsValid x
host_iff x = ground (arith, eq_iff x.name "", eq_iff x.host "")

http_iff : (x : HttpTarget) → (no_url x ≡ false) ↔ HttpIsValid x
http_iff x = ground (arith, eq_iff x.name "", eq_iff x.url "")

tcp_iff : (x : TcpTarget) → (bad_tcp x ≡ false) ↔ TcpIsValid x
tcp_iff x = ground (arith, eq_iff x.name "", eq_iff x.host "")

resolver_iff : (x : ResolverRef) → (no_address x ≡ false) ↔ ResolverIsValid x
resolver_iff x = ground (arith, eq_iff x.name "", eq_iff x.address "")

Filled-iff : (x : String) → (is_empty x ≡ false) ↔ Filled x
Filled-iff x = ground (arith, eq_iff x "")

not_iff : (b : Bool) → (not b ≡ false) ↔ (b ≡ true)
not_iff b = ground arith

speedtest_iff :
    (s : SpeedtestTarget) → (first_error (speedtest_checks s) ≡ none) ↔ SpeedtestIsValid s
unfolding speedtest_checks first_error
speedtest_iff s = ground (arith, eq_iff s.name "", eq_iff s.download_url "", eq_iff s.upload_url "")

module _ (net : Net) where
  cidr_iff : (x : String) → (bad_cidr net x ≡ false) ↔ (net.parses_cidr x ≡ true)
  cidr_iff x = ground arith

  targets_iff : (t : TargetsConfig) → (validate_targets net t ≡ none) ↔ TargetsIsValid net t
  unfolding validate_targets
  targets_iff t =
      let hosts =
        loop_iff no_host (λ _. "internet targets require name and host") HostIsValid host_iff
          t.internet in
      let urls =
        loop_iff no_url (λ _. "http targets require name and url") HttpIsValid http_iff t.http in
      let ports =
        loop_iff bad_tcp (λ _. "tcp targets require name, host, and valid port") TcpIsValid tcp_iff
          t.advanced.tcp in
      let domains =
        loop_iff is_empty (λ _. "dns domains cannot be empty") Filled Filled-iff t.dns.domains in
      let resolvers =
        loop_iff no_address (λ _. "dns resolvers require name and address") ResolverIsValid
          resolver_iff t.dns.resolvers in
      let speedtest = speedtest_iff t.speedtest in
      let cidrs =
        loop_iff (bad_cidr net) (cidr_text net) (λ x. net.parses_cidr x ≡ true) cidr_iff
          t.discovery.cidrs in
      (
        λ h. ground (arith, hosts, urls, ports, domains, resolvers, speedtest, cidrs),
        λ h. ground (arith, hosts, urls, ports, domains, resolvers, speedtest, cidrs),
      )

  -- `Validate` reports no error exactly for the configurations that meet every condition of
  -- `IsValid`: nonempty names and paths, ports in 1 to 65535, no negative retention, a token where
  -- reads or metrics are protected, positive timeouts and intervals, and targets that are complete.
  pub validate_iff : {F : Type 0} (c : Config F) → (validate net c ≡ none) ↔ IsValid net c
  unfolding validate
  validate_iff c =
      let base = first_error_iff (base_checks c) in
      let tests = first_error_iff (tests_checks c.tests) in
      (
        λ h.
            let (b, rest) = (then_iff (first_error (base_checks c)) _).0 h in
            let (t, g) = (then_iff (first_error (tests_checks c.tests)) _).0 rest in
            record {
              base = (base_iff c).0 (base.0 b);
              tests = (tests_iff c.tests).0 (tests.0 t);
              targets = (targets_iff c.targets).0 g;
            },
        λ h. (then_iff (first_error (base_checks c)) _).1 (
          base.1 ((base_iff c).1 h.base),
          (then_iff (first_error (tests_checks c.tests)) _).1
              (tests.1 ((tests_iff c.tests).1 h.tests), (targets_iff c.targets).1 h.targets),
        ),
      )
