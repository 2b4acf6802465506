-- ===== src/Runtime/Update.antt =====
-- The handlers that read and write the runtime configuration (agent/internal/agent/config_api.go).
-- A request's body comes decoded, or with the error of its decoding.
use infracheck_appliance.Base.{String, Option, none, some, List, [], ◌∷◌, if◌then◌else◌, not}
use infracheck_appliance.Base.Text.{◌<>◌}
use infracheck_appliance.Base.Float.{Floats}
use infracheck_appliance.Base.Result.{Result, ok, err, Response, answer, refuse}
use infracheck_appliance.Settings.{Settings, set_setting}
use infracheck_appliance.Config.{Config}
use infracheck_appliance.Config.Validate.{Net}
use infracheck_appliance.Runtime.{
  RuntimeConfig, Codec, discovery_cidrs_setting, runtime_config_setting,
}
use infracheck_appliance.Runtime.Layers.{
  runtime_config_from_db, discovery_cidrs_with_source, effective_runtime_config,
  yaml_runtime_config, runtime_config_looks_empty, validate_runtime_config,
}
use infracheck_appliance.Runtime.Cidrs.{normalize_cidrs}

pub record CidrsResponse : Type 0 where
  pub cidrs : List String
  pub source : String
  pub yaml_cidrs : List String

pub record ConfigResponse (F : Type 0) : Type 0 where
  pub effective : RuntimeConfig F
  pub runtime : Option (RuntimeConfig F)
  pub yaml : RuntimeConfig F
  pub source : String

-- The first text that is no CIDR.
unfoldable pub first_invalid : Net → List String → Option String
first_invalid net [] = none
first_invalid net (x ∷ xs) = if net.parses_cidr x then first_invalid net xs else some x

module _ (fl : Floats) where
  open fl use {F}

  module _ (codec : Codec F) where
    abbrev pub save_raw : Result String → Settings → Settings × Option String
    save_raw (err e) db = (db, some e)
    save_raw (ok raw) db = set_setting runtime_config_setting raw db

    unfoldable pub save_runtime_config : RuntimeConfig F → Settings → Settings × Option String
    save_runtime_config r db = save_raw (codec.encode r) db

    unfoldable pub discovery_config : Config F → Settings → CidrsResponse
    discovery_config cfg db =
        let (cidrs, source) = discovery_cidrs_with_source fl codec cfg db in
        record { cidrs = cidrs; source = source; yaml_cidrs = cfg.targets.discovery.cidrs }

    abbrev source_of : Option (RuntimeConfig F) → String
    source_of none = "yaml"
    source_of (some r) = "database"

    unfoldable pub runtime_config : Config F → Settings → ConfigResponse F
    runtime_config cfg db =
        let stored = runtime_config_from_db fl codec db in
        record {
          effective = effective_runtime_config fl codec cfg db;
          runtime = stored;
          yaml = yaml_runtime_config fl cfg;
          source = source_of stored;
        }

    -- The stored runtime configuration, if there is one, gets the new list; a failure is ignored.
    abbrev pub put_cidrs : List String → Option (RuntimeConfig F) → Settings → Settings
    put_cidrs cidrs none db = db
    put_cidrs cidrs (some r) db =
        (save_runtime_config
          (record r { targets = record r.targets { discovery = record { cidrs = cidrs } } }) db).0

    abbrev cidrs_saved :
        Config F → List String → Settings × Option String → Settings × Response CidrsResponse
    cidrs_saved cfg cidrs (db, some e) = (db, refuse 500 e)
    cidrs_saved cfg cidrs (db, none) = (
      put_cidrs cidrs (runtime_config_from_db fl codec db) db,
      answer
          (record { cidrs = cidrs; source = "database"; yaml_cidrs = cfg.targets.discovery.cidrs }),
    )

    abbrev pub cidrs_encoded :
        Config F → List String → Result String → Settings → Settings × Response CidrsResponse
    cidrs_encoded cfg cidrs (err e) db = (db, refuse 500 e)
    cidrs_encoded cfg cidrs (ok raw) db =
        cidrs_saved cfg cidrs (set_setting discovery_cidrs_setting raw db)

    abbrev pub cidrs_checked :
        Config F → List String → Option String → Settings → Settings × Response CidrsResponse
    cidrs_checked cfg cidrs (some bad) db = (db, refuse 400 ("invalid CIDR: " <> bad))
    cidrs_checked cfg cidrs none db = cidrs_encoded cfg cidrs (codec.encode_cidrs cidrs) db

    unfoldable pub update_discovery_config :
        Net → Config F → Result (List String) → Settings → Settings × Response CidrsResponse
    update_discovery_config net cfg (err e) db = (db, refuse 400 e)
    update_discovery_config net cfg (ok req) db =
        let cidrs = normalize_cidrs req in cidrs_checked cfg cidrs (first_invalid net cidrs) db

    -- A request that looks empty may hold the configuration in a field of its own.
    abbrev unwrap : RuntimeConfig F → Result (RuntimeConfig F × RuntimeConfig F) → RuntimeConfig F
    unwrap req (err e) = req
    unwrap req (ok (effective, yaml)) =
        if not (runtime_config_looks_empty fl effective)
        then effective
        else if not (runtime_config_looks_empty fl yaml)
        then yaml
        else req

    unfoldable pub requested : RuntimeConfig F → String → RuntimeConfig F
    requested req raw =
        let chosen =
          if runtime_config_looks_empty fl req
          then unwrap req (codec.decode_wrapped raw)
          else req in
        record chosen {
          targets = record chosen.targets {
            discovery = record { cidrs = normalize_cidrs chosen.targets.discovery.cidrs };
          };
        }

    -- The list is stored a second time under its own key; failures are ignored.
    abbrev pub store_cidrs : Result String → Settings → Settings
    store_cidrs (err e) db = (set_setting discovery_cidrs_setting "" db).0
    store_cidrs (ok raw) db = (set_setting discovery_cidrs_setting raw db).0

    abbrev runtime_saved :
        Config F
        → RuntimeConfig F
        → Settings × Option String
        → Settings × Response (ConfigResponse F)
    runtime_saved cfg req (db, some e) = (db, refuse 500 e)
    runtime_saved cfg req (db, none) = (
      store_cidrs (codec.encode_cidrs req.targets.discovery.cidrs) db,
      answer (record {
        effective = req;
        runtime = some req;
        yaml = yaml_runtime_config fl cfg;
        source = "database";
      }),
    )

    abbrev runtime_checked :
        Config F
        → RuntimeConfig F
        → Option String
        → Settings
        → Settings × Response (ConfigResponse F)
    runtime_checked cfg req (some e) db = (db, refuse 400 e)
    runtime_checked cfg req none db = runtime_saved cfg req (save_runtime_config req db)

    abbrev runtime_decoded :
        Net
        → Config F
        → String
        → Result (RuntimeConfig F)
        → Settings
        → Settings × Response (ConfigResponse F)
    runtime_decoded net cfg raw (err e) db = (db, refuse 400 e)
    runtime_decoded net cfg raw (ok req) db =
        let r = requested req raw in runtime_checked cfg r (validate_runtime_config fl net r) db

    -- The body is the text that was read, or the error of reading it.
    unfoldable pub update_runtime_config :
        Net → Config F → Result String → Settings → Settings × Response (ConfigResponse F)
    update_runtime_config net cfg (err e) db = (db, refuse 400 e)
    update_runtime_config net cfg (ok raw) db = runtime_decoded net cfg raw (codec.decode raw) db
