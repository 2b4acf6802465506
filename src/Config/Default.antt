-- ===== src/Config/Default.antt =====
-- The default configuration (agent/internal/config/config.go).
use infracheck_appliance.Base.{ℕ, true, false, some, [], ◌∷◌}
use infracheck_appliance.Base.Int.{pos}
use infracheck_appliance.Base.Float.{Floats}
use infracheck_appliance.Config.{TargetsConfig, ThresholdSet, IntervalConfig, TestsConfig, Config}

abbrev every_seconds : ℕ → ℕ → IntervalConfig
every_seconds n t = record {
  interval_seconds = pos n;
  interval_minutes = pos 0;
  interval_hours = pos 0;
  timeout_seconds = pos t;
}

abbrev every_minutes : ℕ → ℕ → IntervalConfig
every_minutes n t = record {
  interval_seconds = pos 0;
  interval_minutes = pos n;
  interval_hours = pos 0;
  timeout_seconds = pos t;
}

abbrev every_hours : ℕ → ℕ → IntervalConfig
every_hours n t = record {
  interval_seconds = pos 0;
  interval_minutes = pos 0;
  interval_hours = pos n;
  timeout_seconds = pos t;
}

unfoldable pub default_targets : TargetsConfig
default_targets = record {
  gateway = record { enabled = true; address = "auto" };
  internet =
      record { name = "Cloudflare DNS"; host = "1.1.1.1" }
      ∷ record { name = "Google DNS"; host = "8.8.8.8" }
      ∷ [];
  http =
      record {
        name = "Google";
        url = "https://www.google.com";
        expected_status = pos 0;
        expected_text = "";
      }
      ∷ record {
        name = "Microsoft";
        url = "https://www.microsoft.com";
        expected_status = pos 0;
        expected_text = "";
      }
      ∷ [];
  dns = record {
    domains = "google.com" ∷ "cloudflare.com" ∷ "microsoft.com" ∷ [];
    resolvers =
        record { name = "system"; address = "auto" }
        ∷ record { name = "cloudflare"; address = "1.1.1.1" }
        ∷ record { name = "google"; address = "8.8.8.8" }
        ∷ [];
  };
  speedtest = record {
    enabled = true;
    name = "Cloudflare Speed";
    download_url = "https://speed.cloudflare.com/__down?bytes=25000000";
    upload_url = "https://speed.cloudflare.com/__up";
    download_bytes = pos 25_000_000;
    upload_bytes = pos 5_000_000;
  };
  discovery = record { cidrs = [] };
  advanced = record {
    tcp = [];
    public_ip_enabled = false;
    gateway_identity = true;
    network_env = true;
    probe_health = true;
    tls_details = true;
    trace = [];
    ntp = [];
    port_scan = record {
      enabled = false;
      ports = pos 22 ∷ pos 80 ∷ pos 443 ∷ pos 445 ∷ pos 3389 ∷ pos 8080 ∷ pos 8443 ∷ [];
      limit = pos 32;
    };
    dns_expectations = [];
  };
}

unfoldable pub default_tests : TestsConfig
default_tests = record {
  ping = every_seconds 30 3;
  dns = every_seconds 60 3;
  http = every_seconds 60 5;
  discovery = every_minutes 15 30;
  speedtest = every_hours 6 120;
  advanced = every_minutes 5 90;
  tls_details = every_hours 24 20;
}

module _ (fl : Floats) where
  open fl use {F, ratio}

  abbrev whole : ℕ → F
  whole n = ratio n 1

  unfoldable pub default_thresholds : ThresholdSet F
  default_thresholds = record {
    packet_loss_warning_percent = whole 2;
    packet_loss_critical_percent = whole 10;
    latency_warning_ms = whole 150;
    latency_critical_ms = whole 400;
    latency_relative_warning_percent = whole 200;
    latency_relative_window_days = pos 7;
    dns_duration_warning_ms = whole 750;
    dns_duration_critical_ms = whole 2000;
    http_duration_warning_ms = whole 2500;
    http_duration_critical_ms = whole 8000;
    http_relative_warning_percent = whole 400;
    http_relative_window_days = pos 7;
    tls_expiry_warning_days = pos 30;
    tls_expiry_critical_days = pos 7;
    speed_download_warning_mbps = whole 0;
    speed_upload_warning_mbps = whole 0;
    speed_relative_warning_percent = whole 50;
  }

  -- `Default`
  unfoldable pub default_config : Config F
  unfolding default_targets default_tests default_thresholds
  default_config = record {
    site = record { id = "default-site"; name = "Infracheck Site"; location = "Unknown" };
    agent = record { bind_address = "0.0.0.0"; port = pos 8080; log_level = "info" };
    storage = record { path = "/var/lib/infracheck/infracheck.db" };
    reports = record {
      path = "/var/lib/infracheck/reports";
      retention_days = pos 30;
      alert_history_retention_days = pos 90;
    };
    security = record {
      read_token = "";
      admin_token = "";
      protect_metrics = false;
      allow_public_reads = true;
    };
    targets = default_targets;
    thresholds = record { global = default_thresholds; per_target = some [] };
    tests = default_tests;
  }
