-- ===== src/Config/Tests.antt =====
-- Runs of the configuration's checks, and the theorems about it at concrete inputs.
use infracheck_appliance.Base.{none, some, ◌≡◌, ◌↔◌, inl, refl, arith, if◌then◌else◌, str_eq}
use infracheck_appliance.Base.Int.{pos}
use infracheck_appliance.Base.Decimal.{atoi, parse_bool}
use infracheck_appliance.Config.{IntervalConfig}
use infracheck_appliance.Config.Default.{default_config}
use infracheck_appliance.Config.Samples.{any_net, standard}
use infracheck_appliance.Config.Interval.{duration}
use infracheck_appliance.Config.Environment.{Environment, apply_env, apply_env-BaseIsValid, IsSafe}
use infracheck_appliance.Config.Validate.{
  validate, validate_targets, base_checks, tests_checks, speedtest_checks, first_error, each,
}
use infracheck_appliance.Config.Valid.{IsValid, BaseIsValid, validate_iff}

default_valid : validate any_net standard ≡ none
unfolding validate validate_targets default_config base_checks tests_checks speedtest_checks
    first_error each duration
default_valid = refl

default_port_zero :
    validate any_net (record standard { agent = record standard.agent { port = pos 0 } })
    ≡ some "agent.port must be between 1 and 65535"
unfolding validate validate_targets default_config base_checks tests_checks speedtest_checks
    first_error each duration
default_port_zero = refl

validate_iff_example : (validate any_net standard ≡ none) ↔ IsValid any_net standard
validate_iff_example = validate_iff any_net standard

abbrev each_minute : IntervalConfig
each_minute = record {
  interval_seconds = pos 0;
  interval_minutes = pos 1;
  interval_hours = pos 5;
  timeout_seconds = pos 3;
}

abbrev forever : IntervalConfig
forever = record {
  interval_seconds = pos 9_223_372_037;
  interval_minutes = pos 0;
  interval_hours = pos 0;
  timeout_seconds = pos 3;
}

abbrev lab : Environment
lab key =
    if str_eq key "INFRACHECK_SITE_ID"
    then "lab"
    else if str_eq key "INFRACHECK_PORT"
    then "9090"
    else ""

lab_port : (apply_env lab standard).agent.port ≡ pos 9090
unfolding apply_env atoi parse_bool
lab_port = refl

lab-IsSafe : IsSafe lab standard
unfolding atoi parse_bool
lab-IsSafe = record { port = omega arith; metrics = inl (cc); reads = inl (cc) }

standard-BaseIsValid : BaseIsValid standard
standard-BaseIsValid = ((validate_iff any_net standard).0 default_valid).base

apply_env-BaseIsValid_example : BaseIsValid (apply_env lab standard)
apply_env-BaseIsValid_example = apply_env-BaseIsValid lab standard lab-IsSafe standard-BaseIsValid
