-- ===== src/Auth.antt =====
-- Who may call what: the tokens of agent/internal/agent/agent.go and the handler that changes the
-- admin token (agent/internal/agent/security_api.go).
pub mod Guards
pub mod Rotation
mod Tests
use infracheck_appliance.Base.{
  ℕ, String, Bool, true, false, ◌&&◌, ◌||◌, not, Option, none, some, if◌then◌else◌, str_eq, ltb,
}
use infracheck_appliance.Base.Text.{trim_space, trim_prefix}
use infracheck_appliance.Base.Result.{Result, ok, err, Response, answer, refuse}
use infracheck_appliance.Settings.{Settings, Found, found, absent, broken, setting, set_setting}
use infracheck_appliance.Config.{SecurityConfig}
use infracheck_appliance.Runtime.{admin_token_setting}
use Prim.Native.String.{len}

-- The two headers of a request that the guards read.
pub record Request : Type 0 where
  pub authorization : String
  pub x_infracheck_token : String

-- The database may be missing (`a.db == nil`).
pub record Gate : Type 0 where
  pub security : SecurityConfig
  pub db : Option Settings

abbrev stored_or : String → String → String
stored_or raw fallback = if str_eq (trim_space raw) "" then fallback else trim_space raw

abbrev found_or : Found → String → String
found_or (found raw) fallback = stored_or raw fallback
found_or absent fallback = fallback
found_or (broken e) fallback = fallback

unfoldable pub admin_token : Gate → String
admin_token a = elim a.db [
  | none ↦ a.security.admin_token
  | some db ↦ found_or (setting admin_token_setting db) a.security.admin_token
]

-- The token that a request carries.
unfoldable pub token_of : Request → String
token_of r =
    let token = trim_prefix r.authorization "Bearer " in
    if str_eq token r.authorization then r.x_infracheck_token else token

-- `subtle.ConstantTimeCompare` is 1 exactly on equal texts.
unfoldable pub valid_token : Request → String → Bool
unfolding token_of
valid_token r expected =
    if str_eq expected ""
    then false
    else (if str_eq (token_of r) "" then false else str_eq (token_of r) expected)

abbrev pub unauthorized {ℓ} : {A : Type ℓ} → Response A
unauthorized = refuse 401 "unauthorized"

-- A handler answers a request; the guards put a condition before it.
module _ {ℓ} {A : Type ℓ} where
  unfoldable pub require_read : Gate → (Request → Response A) → Request → Response A
  require_read a next r =
      if not (valid_token r a.security.read_token) && not (valid_token r (admin_token a))
      then unauthorized
      else next r

  unfoldable pub maybe_protect_read : Gate → (Request → Response A) → Request → Response A
  maybe_protect_read a next r =
      if a.security.allow_public_reads then next r else require_read a next r

  unfoldable pub maybe_protect_metrics : Gate → (Request → Response A) → Request → Response A
  maybe_protect_metrics a next r =
      if not a.security.protect_metrics then next r else require_read a next r

  unfoldable pub require_admin : Gate → (Request → Response A) → Request → Response A
  require_admin a next r = if not (valid_token r (admin_token a)) then unauthorized else next r

abbrev saved : Settings × Option String → Settings × Response String
saved (db, none) = (db, answer "saved")
saved (db, some e) = (db, refuse 500 e)

-- The request comes decoded, or with the error of its decoding; `len` counts bytes, which are the
-- characters of a text below 128.
unfoldable pub update_admin_token : Result String → Settings → Settings × Response String
update_admin_token (err e) db = (db, refuse 400 e)
update_admin_token (ok new_token) db =
    let token = trim_space new_token in
    if ltb (len token) 12
    then (db, refuse 400 "admin token must have at least 12 characters")
    else saved (set_setting admin_token_setting token db)
