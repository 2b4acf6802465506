-- ===== src/Auth/Rotation.antt =====
-- A change of the admin token (agent/internal/agent/security_api.go), and who passes afterwards.
use infracheck_appliance.Base.{
  String, false, some, ◌≡◌, ◌≢◌, refl, ap, arith, if◌then◌else◌, str_eq, eq_iff, ltb,
}
use infracheck_appliance.Base.Text.{trim_space}
use infracheck_appliance.Base.Trim.{trim_space_idem}
use infracheck_appliance.Base.Result.{Result, ok, err, Response, answer}
use infracheck_appliance.Settings.{Settings, found, setting, set_setting, setting-set_setting}
use infracheck_appliance.Config.{SecurityConfig}
use infracheck_appliance.Runtime.{admin_token_setting}
use infracheck_appliance.Auth.{
  Request, Gate, admin_token, token_of, valid_token, unauthorized, require_admin,
  update_admin_token,
}
use Prim.Native.String.{len}

abbrev pub gate_with : SecurityConfig → Settings → Gate
gate_with s db = record { security = s; db = some db }

long-filled : (t : String) → ltb (len t) 12 ≡ false → t ≢ ""
long-filled t long e = ground (arith, ap len e)

update-stored :
    (t : String) (db : Settings)
    → (update_admin_token (ok t) db).1 ≡ answer "saved"
    → (trim_space t ≢ "")
      × (setting admin_token_setting (update_admin_token (ok t) db).0 ≡ found (trim_space t))
unfolding update_admin_token
update-stored t db done = (
  long-filled (trim_space t) (ground arith),
  ground (arith, setting-set_setting admin_token_setting admin_token_setting (trim_space t) db),
)

admin_token_found :
    (s : SecurityConfig) (db : Settings) (t : String)
    → trim_space t ≢ ""
    → setting admin_token_setting db ≡ found (trim_space t)
    → admin_token (gate_with s db) ≡ trim_space t
unfolding admin_token
admin_token_found s db t filled stored =
    rw stored (ground (arith, trim_space_idem t, eq_iff (trim_space t) ""))

-- After a change of the admin token that was answered, the trimmed new token is the admin token,
-- whatever the file sets: the admin guard lets a request through exactly if it carries it.
pub require_admin-update_admin_token :
    {A : Type 0} (s : SecurityConfig) (t : String) (db : Settings) (next : Request → Response A)
    (r : Request)
    → (update_admin_token (ok t) db).1 ≡ answer "saved"
    → require_admin (gate_with s (update_admin_token (ok t) db).0) next r
      ≡ (if str_eq (token_of r) (trim_space t) then next r else unauthorized)
unfolding require_admin valid_token
require_admin-update_admin_token s t db next r done =
    let (filled, stored) = update-stored t db done in
    rw (admin_token_found s (update_admin_token (ok t) db).0 t filled stored) (
      ground (
        arith,
        filled,
        eq_iff (trim_space t) "",
        eq_iff (token_of r) "",
        eq_iff (token_of r) (trim_space t),
      ))

unchanged :
    (t : String) (db : Settings)
    → (update_admin_token (ok t) db).1 ≢ answer "saved"
    → (update_admin_token (ok t) db).0 ≡ db
unfolding update_admin_token set_setting
unchanged t db refused = ground arith

-- A change that is refused leaves the database, and so the admin token, as it is.
pub update_admin_token-refused :
    (body : Result String) (s : SecurityConfig) (db : Settings)
    → (update_admin_token body db).1 ≢ answer "saved"
    → admin_token (gate_with s (update_admin_token body db).0) ≡ admin_token (gate_with s db)
unfolding update_admin_token set_setting
update_admin_token-refused (err e) s db refused = refl
update_admin_token-refused (ok t) s db refused =
    ap (λ d. admin_token (gate_with s d)) (unchanged t db refused)
