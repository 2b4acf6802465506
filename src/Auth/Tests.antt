-- ===== src/Auth/Tests.antt =====
-- Runs of the guards, and the theorems about them at concrete inputs.
use infracheck_appliance.Base.{
  String, true, false, none, ◌≡◌, ◌≢◌, refl, if◌then◌else◌, str_eq, [], arith,
}
use infracheck_appliance.Base.Text.{trim_space, trim_left, trim_right, trim_prefix}
use infracheck_appliance.Base.Dict.{lookup, insert}
use infracheck_appliance.Base.Result.{ok, Response, answer}
use infracheck_appliance.Settings.{Settings, setting, set_setting}
use infracheck_appliance.Config.{SecurityConfig}
use infracheck_appliance.Auth.{
  Request, admin_token, token_of, valid_token, unauthorized, require_admin, update_admin_token,
}
use infracheck_appliance.Auth.Rotation.{gate_with, require_admin-update_admin_token}

abbrev locked : SecurityConfig
locked = record {
  read_token = "";
  admin_token = "from-file";
  protect_metrics = true;
  allow_public_reads = false;
}

abbrev unset : SecurityConfig
unset = record {
  read_token = "";
  admin_token = "";
  protect_metrics = true;
  allow_public_reads = false;
}

abbrev empty_db : Settings
empty_db = record { rows = []; fault = none }

abbrev bearer : Request
bearer = record { authorization = "Bearer from-file"; x_infracheck_token = "" }

abbrev greet : Request → Response String
greet r = answer "hello"

bearer_token : token_of bearer ≡ "from-file"
unfolding token_of trim_prefix
bearer_token = refl

header_token : token_of (record { authorization = "Basic x"; x_infracheck_token = "t" }) ≡ "t"
unfolding token_of trim_prefix
header_token = refl

abbrev file_token : String
file_token = "from-file"

admin_passes : require_admin (gate_with locked empty_db) greet bearer ≢ unauthorized
unfolding require_admin valid_token admin_token setting lookup token_of trim_prefix
admin_passes h = ground (arith, h)

no_admin_token : admin_token (gate_with unset empty_db) ≡ ""
unfolding admin_token setting lookup
no_admin_token = refl

changed : (update_admin_token (ok " correct-horse ") empty_db).1 ≡ answer "saved"
unfolding update_admin_token trim_space trim_left trim_right set_setting insert
changed = refl

require_admin-update_admin_token_example :
    require_admin
      (gate_with locked (update_admin_token (ok " correct-horse ") empty_db).0)
      greet
      bearer
    ≡ (if str_eq (token_of bearer) (trim_space " correct-horse ")
        then answer "hello"
        else unauthorized)
require_admin-update_admin_token_example =
    require_admin-update_admin_token locked " correct-horse " empty_db greet bearer changed

short_refused : (update_admin_token (ok "short") empty_db).1 ≢ answer "saved"
unfolding update_admin_token trim_space trim_left trim_right
short_refused h = ground (arith, h)
