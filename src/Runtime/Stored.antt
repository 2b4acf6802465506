-- ===== src/Runtime/Stored.antt =====
-- What an update of the runtime configuration leaves in the database
-- (agent/internal/agent/config_api.go).
use infracheck_appliance.Base.{ℕ, String, none, some, ◌∙◌, ◌≡◌, refl, arith}
use infracheck_appliance.Base.Float.{Floats}
use infracheck_appliance.Base.Result.{Result, ok, err, answer, refuse}
use infracheck_appliance.Settings.{Settings, found, setting, set_setting, setting-set_setting}
use infracheck_appliance.Config.{Config}
use infracheck_appliance.Config.Validate.{Net}
use infracheck_appliance.Runtime.{
  RuntimeConfig, Codec, discovery_cidrs_setting, runtime_config_setting,
}
use infracheck_appliance.Runtime.Layers.{
  runtime_config_from_db, from_decoded, fill_per_target, validate_runtime_config,
}
use infracheck_appliance.Runtime.Update.{
  ConfigResponse, save_runtime_config, update_runtime_config, requested, save_raw, store_cidrs,
}

-- Writing a text under the CIDR list's key leaves the runtime configuration's row.
pub setting_other :
    (raw : String) (db : Settings)
    → setting runtime_config_setting (set_setting discovery_cidrs_setting raw db).0
      ≡ setting runtime_config_setting db
unfolding setting set_setting
setting_other raw db =
    ground (arith, setting-set_setting discovery_cidrs_setting runtime_config_setting raw db)

module _ (fl : Floats) (codec : Codec fl.F) where
  open fl use {F}

  -- What `encoding/json` documents of encoding and decoding a configuration: what it was encoded as
  -- is decoded as the same one, up to a map that is nil and one that is empty.
  abbrev pub RoundTrips : RuntimeConfig F → Type 0
  RoundTrips r =
      (raw : String)
      → codec.encode r ≡ ok raw
      → from_decoded fl codec (codec.decode raw) ≡ some (fill_per_target fl codec r)

  save-found :
      (e : Result String) (db : Settings)
      → (save_raw fl codec e db).1 ≡ none
      → (raw : String) × (e ≡ ok raw)
        × (setting runtime_config_setting (save_raw fl codec e db).0 ≡ found raw)
  save-found (ok raw) db saved =
      (raw, refl, setting-set_setting runtime_config_setting runtime_config_setting raw db saved)
  save-found (err e) db saved = ground arith

  pub save-stored :
      (r : RuntimeConfig F) (db : Settings)
      → RoundTrips r
      → (save_runtime_config fl codec r db).1 ≡ none
      → runtime_config_from_db fl codec (save_runtime_config fl codec r db).0
        ≡ some (fill_per_target fl codec r)
  unfolding save_runtime_config runtime_config_from_db
  save-stored r db law saved =
      let (raw, encoded, stored) = save-found (codec.encode r) db saved in
      rw stored (law raw encoded)

  store_cidrs-setting :
      (e : Result String) (db : Settings)
      → setting runtime_config_setting (store_cidrs fl codec e db)
        ≡ setting runtime_config_setting db
  store_cidrs-setting (ok raw) db = setting_other raw db
  store_cidrs-setting (err e) db = setting_other "" db

  store_cidrs-runtime :
      (e : Result String) (db : Settings)
      → runtime_config_from_db fl codec (store_cidrs fl codec e db)
        ≡ runtime_config_from_db fl codec db
  unfolding runtime_config_from_db
  store_cidrs-runtime e db = rw (store_cidrs-setting e db)

  accepted :
      (net : Net) (cfg : Config F) (raw : String) (req r : RuntimeConfig F) (db : Settings)
      (body : ConfigResponse F)
      → requested fl codec req raw ≡ r
      → codec.decode raw ≡ ok req
      → (update_runtime_config fl codec net cfg (ok raw) db).1 ≡ answer body
      → (validate_runtime_config fl net r ≡ none)
        × (body.effective ≡ r)
        × ((save_runtime_config fl codec r db).1 ≡ none)
        × ((update_runtime_config fl codec net cfg (ok raw) db).0
            ≡ store_cidrs fl codec
                (codec.encode_cidrs r.targets.discovery.cidrs)
                (save_runtime_config fl codec r db).0)
  unfolding update_runtime_config
  accepted net cfg raw req r db body is_r decoded answered = ground arith

  -- If the requested configuration is decoded as it was encoded, then an update that was answered
  -- has validated it, has answered it as the effective one, and has stored it: a later read
  -- answers it, with a map for a nil one.
  pub update_runtime_config-stored :
      (net : Net) (cfg : Config F) (raw : String) (req : RuntimeConfig F) (db : Settings)
      (body : ConfigResponse F)
      → RoundTrips (requested fl codec req raw)
      → codec.decode raw ≡ ok req
      → (update_runtime_config fl codec net cfg (ok raw) db).1 ≡ answer body
      → (validate_runtime_config fl net (requested fl codec req raw) ≡ none)
        × (body.effective ≡ requested fl codec req raw)
        × (runtime_config_from_db fl codec (update_runtime_config fl codec net cfg (ok raw) db).0
            ≡ some (fill_per_target fl codec (requested fl codec req raw)))
  update_runtime_config-stored net cfg raw req db body law decoded answered =
      let (valid, effective, saved, after) =
        accepted net cfg raw req (requested fl codec req raw) db body refl decoded answered in
      (
        valid,
        effective,
        rw after (store_cidrs-runtime _ _ ∙ save-stored (requested fl codec req raw) db law saved),
      )

  -- An update that was refused leaves the database as it is.
  pub update_runtime_config-refused :
      (net : Net) (cfg : Config F) (body : Result String) (db : Settings) (e : String) (n : ℕ)
      → (update_runtime_config fl codec net cfg body db).1 ≡ refuse n e
      → (update_runtime_config fl codec net cfg body db).0 ≡ db
  unfolding update_runtime_config save_runtime_config set_setting
  update_runtime_config-refused net cfg body db e n refused = ground arith
