-- ===== src/Verdict/Tests.antt =====
-- Runs of the verdicts on whole numbers, and the theorems about them at concrete inputs.
use infracheck_appliance.Base.{
  ℕ, String, Bool, true, false, none, some, [], ◌∷◌, ◌≡◌, ◌↔◌, refl, if◌then◌else◌, any,
}
use infracheck_appliance.Base.Int.{ℤ, pos}
use infracheck_appliance.Base.Dict.{lookup, insert, values}
use infracheck_appliance.Config.Samples.{whole_floats}
use infracheck_appliance.Verdict.{
  PingResult, Input, summarize, latest_per_target, latest_dns_per_key, latest_http_per_target,
  latest_in, sort_by,
}
use infracheck_appliance.Verdict.Rules.{
  rules, problems, all_healthy, gateway_rules, internet_rules, dns_rules, services_rules,
}
use infracheck_appliance.Verdict.Score.{
  evaluate, score, wan_score, wan_bounded, clamp, minimum, status_of,
}
use infracheck_appliance.Verdict.Status.{evaluate-healthy}
use infracheck_appliance.Verdict.Bounds.{is_wan_outage}

abbrev ping : String → ℕ → Bool → PingResult ℕ
ping name time up = record {
  id = pos 0;
  timestamp = pos time;
  site_id = "site";
  target_name = name;
  target_host = "192.0.2.1";
  target_type = "internet";
  up = up;
  latency_ms = 5;
  loss_percent = if up then 0 else 100;
  jitter_ms = 0;
  error = "";
}

abbrev calm : Input ℕ
calm = record {
  gateway = ping "gateway" 3 true ∷ [];
  internet = ping "a" 1 false ∷ ping "a" 2 true ∷ [];
  dns = [];
  http = [];
  now = none;
}

abbrev outage : Input ℕ
outage = record {
  gateway = ping "gateway" 3 false ∷ ping "gateway" 2 true ∷ [];
  internet = ping "a" 1 true ∷ ping "a" 2 false ∷ [];
  dns = [];
  http = [];
  now = some (pos 9);
}

newest_kept : latest_per_target calm.internet ≡ ping "a" 2 true ∷ []
unfolding latest_per_target latest_in lookup insert values sort_by
newest_kept = refl

calm_status : (evaluate whole_floats (pos 7) calm).status ≡ "healthy"
unfolding evaluate rules problems gateway_rules internet_rules dns_rules services_rules status_of
    summarize latest_per_target latest_dns_per_key latest_http_per_target latest_in lookup insert
    values sort_by all_healthy
calm_status = refl

outage_wan : (evaluate whole_floats (pos 7) outage).wan_score ≡ 0
unfolding evaluate score wan_bounded minimum wan_score clamp rules problems gateway_rules
    internet_rules dns_rules services_rules summarize latest_per_target latest_dns_per_key
    latest_http_per_target latest_in lookup insert values sort_by
outage_wan = refl

outage_seen :
    any (is_wan_outage whole_floats) (evaluate whole_floats (pos 7) outage).verdicts ≡ true
unfolding evaluate rules problems gateway_rules internet_rules dns_rules services_rules summarize
    latest_per_target latest_dns_per_key latest_http_per_target latest_in lookup insert values
    sort_by
outage_seen = refl

evaluate-healthy_example : ((evaluate whole_floats (pos 7) calm).status ≡ "healthy") ↔ (
    problems whole_floats
      (evaluate whole_floats (pos 7) calm).timestamp
      (summarize whole_floats calm)
    ≡ [])
evaluate-healthy_example = evaluate-healthy whole_floats (pos 7) calm

abbrev taken : PingResult ℕ → ℤ
taken r = r.timestamp
