-- ===== src/Config.antt =====
-- The configuration (agent/internal/config/config.go): its types. `F` is float64.
-- The records that hold one another are declared inside out.
pub mod Interval
pub mod Environment
pub mod Validate
pub mod Valid
pub mod Samples
mod Tests
pub mod Default
use infracheck_appliance.Base.{ℕ, String, Bool, true, false, Option, none, some, List, [], ◌∷◌}
use infracheck_appliance.Base.Int.{ℤ, pos}
use infracheck_appliance.Base.Float.{Floats}
use infracheck_appliance.Base.Dict.{Dict}

pub record SiteConfig : Type 0 where
  pub id : String
  pub name : String
  pub location : String

pub record AgentConfig : Type 0 where
  pub bind_address : String
  pub port : ℤ
  pub log_level : String

pub record StorageConfig : Type 0 where
  pub path : String

pub record ReportsConfig : Type 0 where
  pub path : String
  pub retention_days : ℤ
  pub alert_history_retention_days : ℤ

pub record SecurityConfig : Type 0 where
  pub read_token : String
  pub admin_token : String
  pub protect_metrics : Bool
  pub allow_public_reads : Bool

pub record GatewayTarget : Type 0 where
  pub enabled : Bool
  pub address : String

pub record HostTarget : Type 0 where
  pub name : String
  pub host : String

pub record HttpTarget : Type 0 where
  pub name : String
  pub url : String
  pub expected_status : ℤ
  pub expected_text : String

pub record ResolverRef : Type 0 where
  pub name : String
  pub address : String

pub record DnsTargets : Type 0 where
  pub domains : List String
  pub resolvers : List ResolverRef

pub record SpeedtestTarget : Type 0 where
  pub enabled : Bool
  pub name : String
  pub download_url : String
  pub upload_url : String
  pub download_bytes : ℤ
  pub upload_bytes : ℤ

pub record DiscoveryTarget : Type 0 where
  pub cidrs : List String

pub record TcpTarget : Type 0 where
  pub name : String
  pub host : String
  pub port : ℤ

pub record PortScanConfig : Type 0 where
  pub enabled : Bool
  pub ports : List ℤ
  pub limit : ℤ

pub record DnsExpectation : Type 0 where
  pub name : String
  pub resolver_name : String
  pub resolver_address : String
  pub domain : String
  pub record_type : String
  pub expected : List String

pub record AdvancedTargets : Type 0 where
  pub tcp : List TcpTarget
  pub public_ip_enabled : Bool
  pub gateway_identity : Bool
  pub network_env : Bool
  pub probe_health : Bool
  pub tls_details : Bool
  pub trace : List HostTarget
  pub ntp : List HostTarget
  pub port_scan : PortScanConfig
  pub dns_expectations : List DnsExpectation

pub record TargetsConfig : Type 0 where
  pub gateway : GatewayTarget
  pub internet : List HostTarget
  pub http : List HttpTarget
  pub dns : DnsTargets
  pub speedtest : SpeedtestTarget
  pub discovery : DiscoveryTarget
  pub advanced : AdvancedTargets

pub record ThresholdSet (F : Type 0) : Type 0 where
  pub packet_loss_warning_percent : F
  pub packet_loss_critical_percent : F
  pub latency_warning_ms : F
  pub latency_critical_ms : F
  pub latency_relative_warning_percent : F
  pub latency_relative_window_days : ℤ
  pub dns_duration_warning_ms : F
  pub dns_duration_critical_ms : F
  pub http_duration_warning_ms : F
  pub http_duration_critical_ms : F
  pub http_relative_warning_percent : F
  pub http_relative_window_days : ℤ
  pub tls_expiry_warning_days : ℤ
  pub tls_expiry_critical_days : ℤ
  pub speed_download_warning_mbps : F
  pub speed_upload_warning_mbps : F
  pub speed_relative_warning_percent : F

-- The map may be `nil`.
pub record ThresholdsConfig (F : Type 0) : Type 0 where
  pub global : ThresholdSet F
  pub per_target : Option (Dict (ThresholdSet F))

pub record IntervalConfig : Type 0 where
  pub interval_seconds : ℤ
  pub interval_minutes : ℤ
  pub interval_hours : ℤ
  pub timeout_seconds : ℤ

pub record TestsConfig : Type 0 where
  pub ping : IntervalConfig
  pub dns : IntervalConfig
  pub http : IntervalConfig
  pub discovery : IntervalConfig
  pub speedtest : IntervalConfig
  pub advanced : IntervalConfig
  pub tls_details : IntervalConfig

pub record Config (F : Type 0) : Type 0 where
  pub site : SiteConfig
  pub agent : AgentConfig
  pub storage : StorageConfig
  pub reports : ReportsConfig
  pub security : SecurityConfig
  pub targets : TargetsConfig
  pub thresholds : ThresholdsConfig F
  pub tests : TestsConfig
