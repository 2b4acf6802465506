-- ===== src/Runtime.antt =====
-- The runtime configuration (agent/internal/agent/config_api.go): what the database stores above
-- the file's configuration, and how parts of it are laid over the file's.
pub mod Cidrs
pub mod Update
pub mod Effective
pub mod Stored
pub mod Discovery
mod Tests
pub mod Layers
use infracheck_appliance.Base.{
  ℕ, String, Bool, true, false, ◌&&◌, not, Option, none, some, List, [], ◌∷◌, if◌then◌else◌, str_eq,
  ltb,
}
use infracheck_appliance.Base.Int.{ℤ, pos, ltb_ℤ, eq_ℤ}
use infracheck_appliance.Base.Float.{Floats}
use infracheck_appliance.Base.Dict.{Dict}
use infracheck_appliance.Base.Result.{Result, ok, err}
use infracheck_appliance.Settings.{Settings, Found, found, absent, broken, setting}
use infracheck_appliance.Config.{
  Config, TargetsConfig, ThresholdsConfig, ThresholdSet, ReportsConfig, TestsConfig,
  AdvancedTargets, IntervalConfig,
}
use infracheck_appliance.Config.Default.{default_config}
use infracheck_appliance.Config.Interval.{duration}
use infracheck_appliance.Config.Validate.{Outcome, Net, validate}
use Cidrs.{normalize_cidrs}

pub record RuntimeConfig (F : Type 0) : Type 0 where
  pub targets : TargetsConfig
  pub thresholds : ThresholdsConfig F
  pub reports : ReportsConfig
  pub tests : TestsConfig

abbrev pub discovery_cidrs_setting : String
discovery_cidrs_setting = "discovery.cidrs"

abbrev pub runtime_config_setting : String
runtime_config_setting = "runtime.config"

abbrev pub admin_token_setting : String
admin_token_setting = "security.admin_token"

-- `len(xs) == 0`
abbrev pub is_nil {ℓ} : {A : Type ℓ} → List A → Bool
is_nil [] = true
is_nil (x ∷ xs) = false

abbrev pub zero_ℤ : ℤ → Bool
zero_ℤ n = eq_ℤ n (pos 0)

unfoldable pub reports_config_empty : ReportsConfig → Bool
reports_config_empty r =
    str_eq r.path "" && zero_ℤ r.retention_days && zero_ℤ r.alert_history_retention_days

unfoldable pub tests_config_empty : TestsConfig → Bool
tests_config_empty t =
    zero_ℤ (duration t.ping)
    && zero_ℤ (duration t.dns)
    && zero_ℤ (duration t.http)
    && zero_ℤ (duration t.discovery)
    && zero_ℤ (duration t.speedtest)
    && zero_ℤ (duration t.advanced)
    && zero_ℤ (duration t.tls_details)

abbrev pub pick : IntervalConfig → IntervalConfig → IntervalConfig
pick base override = if ltb_ℤ (pos 0) (duration override) then override else base

unfoldable pub merge_tests : TestsConfig → TestsConfig → TestsConfig
merge_tests base override = record {
  ping = pick base.ping override.ping;
  dns = pick base.dns override.dns;
  http = pick base.http override.http;
  discovery = pick base.discovery override.discovery;
  speedtest = pick base.speedtest override.speedtest;
  advanced = pick base.advanced override.advanced;
  tls_details = pick base.tls_details override.tls_details;
}

unfoldable pub advanced_config_empty : AdvancedTargets → Bool
advanced_config_empty a =
    is_nil a.tcp
    && not a.public_ip_enabled
    && not a.gateway_identity
    && not a.network_env
    && not a.probe_health
    && not a.tls_details
    && is_nil a.trace
    && is_nil a.ntp
    && not a.port_scan.enabled
    && is_nil a.dns_expectations

unfoldable pub overlay_targets : TargetsConfig → TargetsConfig → TargetsConfig
overlay_targets base r = record {
  gateway = if str_eq r.gateway.address "" then base.gateway else r.gateway;
  internet = if is_nil r.internet then base.internet else r.internet;
  http = if is_nil r.http then base.http else r.http;
  dns = if is_nil r.dns.domains && is_nil r.dns.resolvers then base.dns else r.dns;
  speedtest = if str_eq r.speedtest.name "" then base.speedtest else r.speedtest;
  discovery = if is_nil r.discovery.cidrs then base.discovery else r.discovery;
  advanced = if advanced_config_empty r.advanced then base.advanced else r.advanced;
}

-- `json.Marshal` and `json.Unmarshal` at the types that the database holds.
pub record Codec (F : Type 0) : Type 0 where
  pub encode : RuntimeConfig F → Result String
  pub decode : String → Result (RuntimeConfig F)
  pub encode_cidrs : List String → Result String
  pub decode_cidrs : String → Result (List String)
  -- the fields `effective` and `yaml` of a wrapped request
  pub decode_wrapped : String → Result (RuntimeConfig F × RuntimeConfig F)
