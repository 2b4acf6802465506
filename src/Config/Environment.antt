-- ===== src/Config/Environment.antt =====
-- `applyEnv` (agent/internal/config/config.go). The environment is a function: os.Getenv answers the
-- empty text for a variable that is not set.
use infracheck_appliance.Base.{
  String, Bool, true, false, Option, none, some, ◌≡◌, ◌≢◌, ◌⊎◌, arith, if◌then◌else◌, str_eq,
  eq_iff,
}
use infracheck_appliance.Base.Int.{ℤ, pos, ◌≤ℤ◌, ◌<ℤ◌}
use infracheck_appliance.Base.Decimal.{atoi, parse_bool}
use infracheck_appliance.Config.{Config, SecurityConfig}
use infracheck_appliance.Config.Valid.{Filled, HasToken, BaseIsValid}

abbrev pub Environment : Type 0
Environment = String → String

-- `if v := os.Getenv(key); v != "" { field = v }`
abbrev pub set_text : String → String → String
set_text v old = if str_eq v "" then old else v

-- The same for a text that is parsed, where a text that does not parse changes nothing.
abbrev pub set_parsed {ℓ} : {A : Type ℓ} → (String → Option A) → String → A → A
set_parsed parse v old = if str_eq v "" then old else elim (parse v) [ none ↦ old | some a ↦ a ]

unfoldable pub apply_env : {F : Type 0} → Environment → Config F → Config F
apply_env env cfg = record cfg {
  site = record cfg.site {
    id = set_text (env "INFRACHECK_SITE_ID") cfg.site.id;
    name = set_text (env "INFRACHECK_SITE_NAME") cfg.site.name;
    location = set_text (env "INFRACHECK_SITE_LOCATION") cfg.site.location;
  };
  security = record cfg.security {
    admin_token = set_text (env "INFRACHECK_ADMIN_TOKEN") cfg.security.admin_token;
    read_token = set_text (env "INFRACHECK_READ_TOKEN") cfg.security.read_token;
    protect_metrics =
        set_parsed parse_bool (env "INFRACHECK_PROTECT_METRICS") cfg.security.protect_metrics;
    allow_public_reads =
        set_parsed parse_bool (env "INFRACHECK_ALLOW_PUBLIC_READS") cfg.security.allow_public_reads;
  };
  storage = record cfg.storage { path = set_text (env "INFRACHECK_STORAGE_PATH") cfg.storage.path };
  agent = record cfg.agent { port = set_parsed atoi (env "INFRACHECK_PORT") cfg.agent.port };
}

set_text_idem : (v old : String) → set_text v (set_text v old) ≡ set_text v old
set_text_idem v old = ground arith

set_parsed_idem :
    {A : Type 0} (parse : String → Option A) (v : String) (old : A)
    → set_parsed parse v (set_parsed parse v old) ≡ set_parsed parse v old
set_parsed_idem parse v old = ground arith

-- Reading the environment twice is reading it once.
pub apply_env_idem :
    {F : Type 0} (env : Environment) (c : Config F)
    → apply_env env (apply_env env c) ≡ apply_env env c
unfolding apply_env
apply_env_idem env c = simp (set_text_idem, set_parsed_idem)

set_text-Filled : (v old : String) → Filled old → Filled (set_text v old)
set_text-Filled v old h = ground (arith, eq_iff v "")

set_text-HasToken :
    (v w old old' : String)
    → (Filled old ⊎ Filled old')
    → Filled (set_text v old) ⊎ Filled (set_text w old')
set_text-HasToken v w old old' h = ground (arith, eq_iff v "", eq_iff w "")

abbrev pub PortInRange : Option ℤ → Type 0
PortInRange none = Unit
PortInRange (some p) = (pos 0 <ℤ p) × (p ≤ℤ pos 65535)

set_parsed-InRange :
    (v : String) (old : ℤ)
    → PortInRange (atoi v)
    → PortInRange (some old)
    → PortInRange (some (set_parsed atoi v old))
set_parsed-InRange v old p h = ground arith

set_metrics :
    (v : String) (old : Bool) (s s' : SecurityConfig)
    → (HasToken s → HasToken s')
    → (parse_bool v ≢ some true) ⊎ HasToken s
    → (old ≡ false) ⊎ HasToken s
    → (set_parsed parse_bool v old ≡ false) ⊎ HasToken s'
set_metrics v old s s' f p h = ground arith

set_reads :
    (v : String) (old : Bool) (s s' : SecurityConfig)
    → (HasToken s → HasToken s')
    → (parse_bool v ≢ some false) ⊎ HasToken s
    → (old ≡ true) ⊎ HasToken s
    → (set_parsed parse_bool v old ≡ true) ⊎ HasToken s'
set_reads v old s s' f p h = ground arith

-- The port that the environment gives, if it gives one that parses, is in range, and neither
-- variable that turns a protection on is set unless the configuration has a token.
pub record IsSafe {F : Type 0} (env : Environment) (c : Config F) : Type 0 where
  pub port : PortInRange (atoi (env "INFRACHECK_PORT"))
  pub metrics : (parse_bool (env "INFRACHECK_PROTECT_METRICS") ≢ some true) ⊎ HasToken c.security
  pub reads : (parse_bool (env "INFRACHECK_ALLOW_PUBLIC_READS") ≢ some false) ⊎ HasToken c.security

-- A safe environment keeps a valid base configuration valid, whatever else it sets.
pub apply_env-BaseIsValid :
    {F : Type 0} (env : Environment) (c : Config F)
    → IsSafe env c
    → BaseIsValid c
    → BaseIsValid (apply_env env c)
unfolding apply_env
apply_env-BaseIsValid env c s h =
    let tokens =
      set_text-HasToken (env "INFRACHECK_READ_TOKEN") (env "INFRACHECK_ADMIN_TOKEN")
        c.security.read_token c.security.admin_token in
    record {
      id = set_text-Filled (env "INFRACHECK_SITE_ID") _ h.id;
      bind_address = h.bind_address;
      port_low = (set_parsed-InRange _ _ s.port (h.port_low, h.port_high)).0;
      port_high = (set_parsed-InRange _ _ s.port (h.port_low, h.port_high)).1;
      storage = set_text-Filled (env "INFRACHECK_STORAGE_PATH") _ h.storage;
      reports = h.reports;
      retention = h.retention;
      alert_retention = h.alert_retention;
      metrics = set_metrics _ _ c.security (apply_env env c).security tokens s.metrics h.metrics;
      reads = set_reads _ _ c.security (apply_env env c).security tokens s.reads h.reads;
    }
