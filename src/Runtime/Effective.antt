-- ===== src/Runtime/Effective.antt =====
-- The validity of the configuration in effect (agent/internal/agent/config_api.go).
use infracheck_appliance.Base.{
  String, true, none, some, ◌≡◌, arith, if◌then◌else◌, eq_iff, All, either, str_eq, ◌&&◌,
}
use infracheck_appliance.Base.Int.{pos, ◌≤ℤ◌}
use infracheck_appliance.Base.Float.{Floats}
use infracheck_appliance.Settings.{Settings}
use infracheck_appliance.Config.{Config, TargetsConfig, TestsConfig, IntervalConfig, ReportsConfig}
use infracheck_appliance.Config.Default.{default_config}
use infracheck_appliance.Config.Validate.{Net}
use infracheck_appliance.Config.Valid.{
  IsValid, TestsIsValid, TargetsIsValid, IntervalIsValid, validate_iff, Filled, TcpIsValid,
  ResolverIsValid, SpeedtestIsValid,
}
use infracheck_appliance.Runtime.{
  RuntimeConfig, Codec, pick, merge_tests, tests_config_empty, reports_config_empty,
  overlay_targets, is_nil, advanced_config_empty,
}
use infracheck_appliance.Runtime.Layers.{
  effective_runtime_config, runtime_config_from_db, overlay, validate_runtime_config,
  yaml_runtime_config,
}

-- An override that is valid on top of some base is valid on top of every valid base.
pick-IsValid :
    (d r b : IntervalConfig)
    → IntervalIsValid (pick d r)
    → IntervalIsValid b
    → IntervalIsValid (pick b r)
pick-IsValid d r b h k = ground arith

merge_tests-IsValid :
    (d r b : TestsConfig)
    → TestsIsValid (merge_tests d r)
    → TestsIsValid b
    → TestsIsValid (merge_tests b r)
unfolding merge_tests
merge_tests-IsValid d r b h k = record {
  ping = pick-IsValid d.ping r.ping b.ping h.ping k.ping;
  dns = pick-IsValid d.dns r.dns b.dns h.dns k.dns;
  http = pick-IsValid d.http r.http b.http h.http k.http;
  speedtest = pick-IsValid d.speedtest r.speedtest b.speedtest h.speedtest k.speedtest;
  advanced = pick-IsValid d.advanced r.advanced b.advanced h.advanced k.advanced;
  tls_details = pick-IsValid d.tls_details r.tls_details b.tls_details h.tls_details k.tls_details;
}

path-Filled : (p d : String) → Filled d → Filled (if str_eq p "" then d else p)
path-Filled p d h = ground (arith, eq_iff p "")

overlay_targets-IsValid :
    (net : Net) (b r : TargetsConfig)
    → TargetsIsValid net b
    → TargetsIsValid net r
    → TargetsIsValid net (overlay_targets b r)
unfolding overlay_targets
overlay_targets-IsValid net b r h k = record {
  internet = either (All _) (is_nil r.internet) _ _ h.internet k.internet;
  http = either (All _) (is_nil r.http) _ _ h.http k.http;
  tcp =
      either (λ a. All TcpIsValid a.tcp) (advanced_config_empty r.advanced) b.advanced r.advanced
        h.tcp k.tcp;
  domains =
      either (λ d. All Filled d.domains) (is_nil r.dns.domains && is_nil r.dns.resolvers) b.dns
        r.dns h.domains k.domains;
  resolvers =
      either (λ d. All ResolverIsValid d.resolvers) (is_nil r.dns.domains && is_nil r.dns.resolvers)
        b.dns r.dns h.resolvers k.resolvers;
  speedtest =
      either SpeedtestIsValid (str_eq r.speedtest.name "") b.speedtest r.speedtest h.speedtest
        k.speedtest;
  cidrs =
      either (λ d. All (λ x. net.parses_cidr x ≡ true) d.cidrs) (is_nil r.discovery.cidrs)
        b.discovery r.discovery h.cidrs k.cidrs;
}

abbrev ReportsIsValid : ReportsConfig → Type 0
ReportsIsValid r =
    Filled r.path × (pos 0 ≤ℤ r.retention_days) × (pos 0 ≤ℤ r.alert_history_retention_days)

module _ (fl : Floats) (net : Net) where
  open fl use {F}

  -- The agent's configuration with the given runtime configuration in effect.
  abbrev pub in_effect : Config F → RuntimeConfig F → Config F
  in_effect cfg r = record cfg {
    targets = r.targets;
    thresholds = r.thresholds;
    reports = r.reports;
    tests = r.tests;
  }

  overlay-IsValid :
      (cfg : Config F) (r : RuntimeConfig F)
      → IsValid net cfg
      → validate_runtime_config fl net r ≡ none
      → IsValid net (in_effect cfg (overlay fl (yaml_runtime_config fl cfg) r))
  unfolding overlay validate_runtime_config
  overlay-IsValid cfg r h v =
      let k = (validate_iff net _).0 v in
      let reports =
        either ReportsIsValid (reports_config_empty r.reports) cfg.reports
          (record r.reports {
            path = if str_eq r.reports.path "" then cfg.reports.path else r.reports.path;
          })
          (h.base.reports, h.base.retention, h.base.alert_retention)
          (
            path-Filled r.reports.path cfg.reports.path h.base.reports,
            k.base.retention,
            k.base.alert_retention,
          ) in
      record {
        base = record {
          id = h.base.id;
          bind_address = h.base.bind_address;
          port_low = h.base.port_low;
          port_high = h.base.port_high;
          storage = h.base.storage;
          reports = reports.0;
          retention = reports.1;
          alert_retention = reports.2;
          metrics = h.base.metrics;
          reads = h.base.reads;
        };
        tests =
            either TestsIsValid (tests_config_empty r.tests) cfg.tests
              (merge_tests cfg.tests r.tests) h.tests
              (merge_tests-IsValid (default_config fl).tests r.tests cfg.tests k.tests h.tests);
        targets = overlay_targets-IsValid net cfg.targets r.targets h.targets k.targets;
      }

  -- If the file's configuration is valid, and the database holds a runtime configuration that
  -- passes the check that an update makes, then the configuration in effect is valid.
  pub effective-IsValid :
      (codec : Codec F) (cfg : Config F) (db : Settings) (r : RuntimeConfig F)
      → IsValid net cfg
      → runtime_config_from_db fl codec db ≡ some r
      → validate_runtime_config fl net r ≡ none
      → IsValid net (in_effect cfg (effective_runtime_config fl codec cfg db))
  unfolding effective_runtime_config
  effective-IsValid codec cfg db r h stored v = rw stored (overlay-IsValid cfg r h v)
