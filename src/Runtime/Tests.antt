-- ===== src/Runtime/Tests.antt =====
-- Runs of the runtime configuration's handlers, and the theorems about it at concrete inputs.
use infracheck_appliance.Base.{ℕ, String, none, some, ◌≡◌, refl, List, [], ◌∷◌, if◌then◌else◌}
use infracheck_appliance.Base.Text.{trim_space, trim_left, trim_right}
use infracheck_appliance.Base.Result.{ok, err, answer, refuse}
use infracheck_appliance.Base.Dict.{lookup, insert}
use infracheck_appliance.Settings.{Settings, setting, set_setting}
use infracheck_appliance.Config.{Config}
use infracheck_appliance.Config.Default.{default_config}
use infracheck_appliance.Config.Samples.{whole_floats, any_net, standard}
use infracheck_appliance.Config.Interval.{duration}
use infracheck_appliance.Config.Valid.{IsValid, validate_iff}
use infracheck_appliance.Config.Validate.{
  validate, validate_targets, base_checks, tests_checks, speedtest_checks, first_error, each,
}
use infracheck_appliance.Runtime.{RuntimeConfig, Codec, runtime_config_setting, is_nil, merge_tests}
use infracheck_appliance.Runtime.Layers.{
  runtime_config_from_db, effective_runtime_config, fill_per_target, validate_runtime_config,
  yaml_runtime_config, runtime_config_looks_empty,
}
use infracheck_appliance.Runtime.Cidrs.{normalize_cidrs, IsNormal, normalize_cidrs-IsNormal}
use infracheck_appliance.Runtime.Update.{
  CidrsResponse, ConfigResponse, save_runtime_config, update_discovery_config,
  update_runtime_config, requested, first_invalid,
}
use infracheck_appliance.Runtime.Effective.{in_effect, effective-IsValid}
use infracheck_appliance.Runtime.Stored.{update_runtime_config-stored}
use infracheck_appliance.Runtime.Discovery.{
  cidrs_in_effect, update_discovery_config-runtime, patched,
}

abbrev messy : List String
messy = " 10.0.0.0/8" ∷ "" ∷ "10.0.0.0/8" ∷ "192.168.1.0/24 " ∷ []

messy_normal : normalize_cidrs messy ≡ "10.0.0.0/8" ∷ "192.168.1.0/24" ∷ []
unfolding normalize_cidrs trim_space trim_left trim_right
messy_normal = refl

normalize_cidrs-IsNormal_example : IsNormal (normalize_cidrs messy)
normalize_cidrs-IsNormal_example = normalize_cidrs-IsNormal messy

-- The file's configuration, with one range.
abbrev office : RuntimeConfig ℕ
office = record (yaml_runtime_config whole_floats standard) {
  targets = record standard.targets { discovery = record { cidrs = "10.0.0.0/8" ∷ [] } };
}

-- It knows one configuration and one list, by the texts "office" and "[]" of them.
abbrev office_codec : Codec ℕ
office_codec = record {
  encode = λ r. ok "office";
  decode = λ s. ok office;
  encode_cidrs = λ xs. ok "[]";
  decode_cidrs = λ s. ok [];
  decode_wrapped = λ s. err "no wrapper";
}

abbrev empty_db : Settings
empty_db = record { rows = []; fault = none }

abbrev office_db : Settings
office_db = record { rows = (runtime_config_setting, "office") ∷ []; fault = none }

office_found : runtime_config_from_db whole_floats office_codec office_db ≡ some office
unfolding runtime_config_from_db setting lookup default_config
office_found = refl

office_valid : validate_runtime_config whole_floats any_net office ≡ none
unfolding validate_runtime_config merge_tests validate validate_targets default_config base_checks
    tests_checks speedtest_checks first_error each duration
office_valid = refl

default_valid : validate any_net standard ≡ none
unfolding validate validate_targets default_config base_checks tests_checks speedtest_checks
    first_error each duration
default_valid = refl

effective-IsValid_example : IsValid any_net (
    in_effect whole_floats any_net standard
      (effective_runtime_config whole_floats office_codec standard office_db))
effective-IsValid_example =
    effective-IsValid whole_floats any_net office_codec standard office_db office
      ((validate_iff any_net standard).0 default_valid) office_found office_valid

written : (set_setting "k" "v" empty_db).1 ≡ none
unfolding set_setting
written = refl

abbrev office_answer : ConfigResponse ℕ
office_answer = record {
  effective = office;
  runtime = some office;
  yaml = yaml_runtime_config whole_floats standard;
  source = "database";
}

office_answered :
    (update_runtime_config whole_floats office_codec any_net standard (ok "office") empty_db).1
    ≡ answer office_answer
unfolding update_runtime_config requested runtime_config_looks_empty normalize_cidrs trim_space
    trim_left trim_right validate_runtime_config merge_tests validate validate_targets
    default_config base_checks tests_checks speedtest_checks first_error each duration
    save_runtime_config set_setting insert
office_answered = refl

office-requested : requested whole_floats office_codec office "office" ≡ office
unfolding requested runtime_config_looks_empty normalize_cidrs trim_space trim_left trim_right
    default_config
office-requested = refl

update_runtime_config-stored_example :
    (validate_runtime_config whole_floats any_net
        (requested whole_floats office_codec office "office")
      ≡ none)
    × (office_answer.effective ≡ requested whole_floats office_codec office "office")
    × (runtime_config_from_db whole_floats office_codec
          (update_runtime_config whole_floats office_codec any_net standard
            (ok "office")
            empty_db).0
        ≡ some (
            fill_per_target whole_floats office_codec
              (requested whole_floats office_codec office "office")))
update_runtime_config-stored_example =
    update_runtime_config-stored whole_floats office_codec any_net standard "office" office empty_db
      office_answer (λ raw encoded. rw office-requested refl) refl office_answered

eof :
    (update_runtime_config whole_floats office_codec any_net standard
      (err "unexpected EOF")
      empty_db).1
    ≡ refuse 400 "unexpected EOF"
unfolding update_runtime_config
eof = refl

abbrev cleared : CidrsResponse
cleared = record { cidrs = []; source = "database"; yaml_cidrs = [] }

clear_answered :
    (db : Settings)
    → db.fault ≡ none
    → (update_discovery_config whole_floats office_codec any_net standard (ok []) db).1
      ≡ answer cleared
unfolding update_discovery_config first_invalid normalize_cidrs set_setting default_config
clear_answered db up = rw up refl

nil_normal : normalize_cidrs [] ≡ []
unfolding normalize_cidrs
nil_normal = refl

nothing_stored : runtime_config_from_db whole_floats office_codec empty_db ≡ none
unfolding runtime_config_from_db setting lookup
nothing_stored = refl

-- The file names a range, and the stored configuration none.
abbrev branch : Config ℕ
branch = record standard { targets = office.targets }

abbrev bare : RuntimeConfig ℕ
bare = patched whole_floats office_codec [] office

abbrev bare_codec : Codec ℕ
bare_codec = record office_codec { encode = λ r. ok "bare"; decode = λ s. ok bare }

bare_found : runtime_config_from_db whole_floats bare_codec office_db ≡ some bare
unfolding runtime_config_from_db setting lookup default_config
bare_found = refl

abbrev kept : CidrsResponse
kept = record { cidrs = []; source = "database"; yaml_cidrs = "10.0.0.0/8" ∷ [] }

kept_answered :
    (update_discovery_config whole_floats bare_codec any_net branch (ok []) office_db).1
    ≡ answer kept
unfolding update_discovery_config first_invalid normalize_cidrs set_setting
kept_answered = refl

-- The answer shows no range, and the file's is in effect.
update_discovery_config-runtime_example :
    (kept.cidrs ≡ normalize_cidrs [])
    × (cidrs_in_effect whole_floats bare_codec branch
          (update_discovery_config whole_floats bare_codec any_net branch (ok []) office_db).0
        ≡ (if is_nil (normalize_cidrs []) then "10.0.0.0/8" ∷ [] else normalize_cidrs []))
update_discovery_config-runtime_example =
    update_discovery_config-runtime whole_floats bare_codec any_net branch [] office_db kept bare
      "bare" (λ raw encoded. rw nil_normal refl) bare_found refl kept_answered
