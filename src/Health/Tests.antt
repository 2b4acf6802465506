-- ===== src/Health/Tests.antt =====
-- A run of the health on whole numbers, and the theorems about it at concrete inputs.
use infracheck_appliance.Base.{
  ℕ, String, Bool, true, false, none, some, [], ◌∷◌, ◌≡◌, refl, if◌then◌else◌,
}
use infracheck_appliance.Base.Int.{pos}
use infracheck_appliance.Base.Result.{ok}
use infracheck_appliance.Config.{ThresholdsConfig}
use infracheck_appliance.Config.Default.{default_thresholds}
use infracheck_appliance.Config.Samples.{whole_floats, standard}
use infracheck_appliance.Verdict.{PingResult}
use infracheck_appliance.Verdict.Score.{Health, evaluate}
use infracheck_appliance.Verdict.Status.{worst}
use infracheck_appliance.Health.Overlay.{Queries, evaluate_health, overlaid}
use infracheck_appliance.Health.Shown.{IsBounded, evaluate_health-worst, evaluate_health-IsBounded}

abbrev ping : String → ℕ → Bool → PingResult ℕ
ping name time up = record {
  id = pos time;
  timestamp = pos time;
  site_id = "site";
  target_name = name;
  target_host = "192.0.2.1";
  target_type = "internet";
  up = up;
  latency_ms = 5;
  loss_percent = if up then 0 else 100;
  jitter_ms = 0;
  error = "";
}

-- A printer in the shop is down, and nothing else is wrong.
abbrev queries : Queries ℕ
queries = record {
  gateway = ok (ping "gateway" 3 true ∷ []);
  internet = ok (ping "a" 2 true ∷ []);
  recent_dns = ok [];
  recent_http = ok [];
  new_devices = ok [];
  missing_devices = ok [];
  latest_ping = ok (ping "printer" 4 false ∷ ping "printer" 3 true ∷ []);
  all_dns = ok [];
  all_http = ok [];
  latest_advanced = ok [];
}

abbrev limits : ThresholdsConfig ℕ
limits = record { global = default_thresholds whole_floats; per_target = none }

-- What is shown for the answers of the queries, which differ only in their overlays.
abbrev health_of : Queries ℕ → Health ℕ
health_of q = overlaid whole_floats (pos 9) limits standard.targets q (
    evaluate whole_floats (pos 9) (record {
      gateway = ping "gateway" 3 true ∷ [];
      internet = ping "a" 2 true ∷ [];
      dns = [];
      http = [];
      now = some (pos 9);
    }))

abbrev shown_health : Health ℕ
shown_health = health_of queries

is_shown : evaluate_health whole_floats (pos 9) limits standard.targets queries ≡ ok shown_health
unfolding evaluate_health
is_shown = refl

-- The printer answers, but slowly.
abbrev slow_queries : Queries ℕ
slow_queries = record queries {
  latest_ping = ok (record (ping "printer" 4 true) { latency_ms = 9000 } ∷ []);
}

evaluate_health-worst_example :
    shown_health.status ≡ worst whole_floats "healthy" shown_health.verdicts
evaluate_health-worst_example =
    evaluate_health-worst whole_floats (pos 9) limits standard.targets queries shown_health is_shown

evaluate_health-IsBounded_example : IsBounded whole_floats shown_health
evaluate_health-IsBounded_example =
    evaluate_health-IsBounded whole_floats (pos 9) limits standard.targets queries shown_health
      is_shown
