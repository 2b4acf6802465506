-- ===== src/Runtime/Layers.antt =====
-- The configuration in effect: what is stored, laid over the file (agent/internal/agent/config_api.go).
use infracheck_appliance.Base.{
  String, Bool, ◌&&◌, Option, none, some, List, [], if◌then◌else◌, str_eq,
}
use infracheck_appliance.Base.Float.{Floats}
use infracheck_appliance.Base.Dict.{Dict}
use infracheck_appliance.Base.Result.{Result, ok, err}
use infracheck_appliance.Settings.{Settings, Found, found, absent, broken, setting}
use infracheck_appliance.Config.{Config, ThresholdsConfig, ThresholdSet}
use infracheck_appliance.Config.Default.{default_config}
use infracheck_appliance.Config.Validate.{Outcome, Net, validate}
use infracheck_appliance.Runtime.Cidrs.{normalize_cidrs}
use infracheck_appliance.Runtime.{
  RuntimeConfig, is_nil, discovery_cidrs_setting, runtime_config_setting, zero_ℤ,
  reports_config_empty, tests_config_empty, merge_tests, advanced_config_empty, overlay_targets,
  Codec,
}

module _ (fl : Floats) where
  open fl use {F, ratio, eq}

  abbrev is_zero : F → Bool
  is_zero x = eq x (ratio 0 1)

  unfoldable pub threshold_set_empty : ThresholdSet F → Bool
  threshold_set_empty s =
      is_zero s.packet_loss_warning_percent
      && is_zero s.packet_loss_critical_percent
      && is_zero s.latency_warning_ms
      && is_zero s.latency_critical_ms
      && is_zero s.latency_relative_warning_percent
      && zero_ℤ s.latency_relative_window_days
      && is_zero s.dns_duration_warning_ms
      && is_zero s.dns_duration_critical_ms
      && is_zero s.http_duration_warning_ms
      && is_zero s.http_duration_critical_ms
      && is_zero s.http_relative_warning_percent
      && zero_ℤ s.http_relative_window_days
      && zero_ℤ s.tls_expiry_warning_days
      && zero_ℤ s.tls_expiry_critical_days
      && is_zero s.speed_download_warning_mbps
      && is_zero s.speed_upload_warning_mbps
      && is_zero s.speed_relative_warning_percent

  unfoldable pub runtime_config_looks_empty : RuntimeConfig F → Bool
  runtime_config_looks_empty r =
      str_eq r.targets.gateway.address ""
      && is_nil r.targets.internet
      && is_nil r.targets.http
      && is_nil r.targets.dns.domains
      && is_nil r.targets.dns.resolvers
      && str_eq r.targets.speedtest.name ""
      && is_nil r.targets.discovery.cidrs
      && advanced_config_empty r.targets.advanced
      && reports_config_empty r.reports
      && tests_config_empty r.tests

  -- The agent's file configuration, as a runtime configuration.
  abbrev pub yaml_runtime_config : Config F → RuntimeConfig F
  yaml_runtime_config cfg = record {
    targets = cfg.targets;
    thresholds = cfg.thresholds;
    reports = cfg.reports;
    tests = cfg.tests;
  }

  abbrev or_base :
      Option (Dict (ThresholdSet F))
      → Option (Dict (ThresholdSet F))
      → Option (Dict (ThresholdSet F))
  or_base base none = base
  or_base base (some m) = some m

  unfoldable pub overlay : RuntimeConfig F → RuntimeConfig F → RuntimeConfig F
  overlay base r = record {
    targets = overlay_targets base.targets r.targets;
    thresholds = record {
      global =
          if threshold_set_empty r.thresholds.global
          then base.thresholds.global
          else r.thresholds.global;
      per_target = or_base base.thresholds.per_target r.thresholds.per_target;
    };
    reports = if reports_config_empty r.reports then base.reports else record r.reports {
      path = if str_eq r.reports.path "" then base.reports.path else r.reports.path;
    };
    tests = if tests_config_empty r.tests then base.tests else merge_tests base.tests r.tests;
  }

  -- `validateRuntimeConfig`: the runtime configuration put into the default one.
  unfoldable pub validate_runtime_config : Net → RuntimeConfig F → Outcome
  validate_runtime_config net r =
      let base = default_config fl in
      validate net (record base {
        targets = r.targets;
        thresholds = r.thresholds;
        reports = record r.reports {
          path = if str_eq r.reports.path "" then base.reports.path else r.reports.path;
        };
        tests = merge_tests base.tests r.tests;
      })

  module _ (codec : Codec F) where
    -- A map that is `nil` is made an empty one.
    abbrev pub fill_per_target : RuntimeConfig F → RuntimeConfig F
    fill_per_target r = record r {
      thresholds = record r.thresholds { per_target = or_base (some []) r.thresholds.per_target };
    }

    abbrev pub from_decoded : Result (RuntimeConfig F) → Option (RuntimeConfig F)
    from_decoded (ok r) = some (fill_per_target r)
    from_decoded (err e) = none

    abbrev from_found : Found → Option (RuntimeConfig F)
    from_found (found raw) = from_decoded (codec.decode raw)
    from_found absent = none
    from_found (broken e) = none

    -- `none` is the answer `ok == false`.
    unfoldable pub runtime_config_from_db : Settings → Option (RuntimeConfig F)
    runtime_config_from_db db = from_found (setting runtime_config_setting db)

    abbrev cidrs_decoded : Config F → Result (List String) → List String × String
    cidrs_decoded cfg (ok cidrs) = (normalize_cidrs cidrs, "database")
    cidrs_decoded cfg (err e) = (normalize_cidrs cfg.targets.discovery.cidrs, "yaml")

    abbrev cidrs_found : Config F → Found → List String × String
    cidrs_found cfg (found raw) = cidrs_decoded cfg (codec.decode_cidrs raw)
    cidrs_found cfg absent = (normalize_cidrs cfg.targets.discovery.cidrs, "yaml")
    cidrs_found cfg (broken e) = (normalize_cidrs cfg.targets.discovery.cidrs, "yaml")

    unfoldable pub discovery_cidrs_with_source : Config F → Settings → List String × String
    discovery_cidrs_with_source cfg db = cidrs_found cfg (setting discovery_cidrs_setting db)

    abbrev with_cidrs : RuntimeConfig F → List String × String → RuntimeConfig F
    with_cidrs out (cidrs, source) =
        if str_eq source "database"
        then record out { targets = record out.targets { discovery = record { cidrs = cidrs } } }
        else out

    abbrev effective_with : Config F → Settings → Option (RuntimeConfig F) → RuntimeConfig F
    effective_with cfg db (some r) = overlay (yaml_runtime_config cfg) r
    effective_with cfg db none =
        with_cidrs (yaml_runtime_config cfg) (discovery_cidrs_with_source cfg db)

    unfoldable pub effective_runtime_config : Config F → Settings → RuntimeConfig F
    effective_runtime_config cfg db = effective_with cfg db (runtime_config_from_db db)

    -- `effectiveThresholds` gives a map that is not `nil`.
    unfoldable pub effective_thresholds : Config F → Settings → ThresholdsConfig F
    effective_thresholds cfg db =
        let t = (effective_runtime_config cfg db).thresholds in
        record t { per_target = or_base (some []) t.per_target }
