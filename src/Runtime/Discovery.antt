-- ===== src/Runtime/Discovery.antt =====
-- What an update of the discovery ranges leaves in effect (agent/internal/agent/config_api.go).
use infracheck_appliance.Base.{
  String, Option, none, some, List, ◌∙◌, ◌≡◌, refl, arith, if◌then◌else◌, ap,
}
use infracheck_appliance.Base.Float.{Floats}
use infracheck_appliance.Base.Result.{Result, ok, err, answer}
use infracheck_appliance.Settings.{Settings, set_setting, setting-set_setting}
use infracheck_appliance.Config.{Config}
use infracheck_appliance.Config.Validate.{Net}
use infracheck_appliance.Runtime.{
  RuntimeConfig, Codec, discovery_cidrs_setting, is_nil, overlay_targets,
}
use infracheck_appliance.Runtime.Layers.{
  runtime_config_from_db, discovery_cidrs_with_source, effective_runtime_config, overlay,
}
use infracheck_appliance.Runtime.Cidrs.{normalize_cidrs, normalize_cidrs_idem}
use infracheck_appliance.Runtime.Update.{
  CidrsResponse, save_runtime_config, update_discovery_config, put_cidrs, cidrs_encoded,
  cidrs_checked, first_invalid,
}
use infracheck_appliance.Runtime.Stored.{setting_other, RoundTrips, save-stored}

module _ (fl : Floats) (codec : Codec fl.F) where
  open fl use {F}

  -- What `encoding/json` documents of a list of texts.
  abbrev pub CidrsRoundTrip : List String → Type 0
  CidrsRoundTrip xs =
      (raw : String) → codec.encode_cidrs xs ≡ ok raw → codec.decode_cidrs raw ≡ ok xs

  -- The stored configuration with another list of ranges.
  abbrev pub patched : List String → RuntimeConfig F → RuntimeConfig F
  patched cidrs r = record r { targets = record r.targets { discovery = record { cidrs = cidrs } } }

  abbrev pub cidrs_in_effect : Config F → Settings → List String
  cidrs_in_effect cfg db = (effective_runtime_config fl codec cfg db).targets.discovery.cidrs

  abbrev IsAccepted : List String → CidrsResponse → Settings → Settings → Result String → Type 0
  IsAccepted cidrs body db after e =
      (raw : String) × (e ≡ ok raw)
      × (body.cidrs ≡ cidrs)
      × ((set_setting discovery_cidrs_setting raw db).1 ≡ none)
      × (after
          ≡ put_cidrs fl codec cidrs
              (runtime_config_from_db fl codec (set_setting discovery_cidrs_setting raw db).0)
              (set_setting discovery_cidrs_setting raw db).0)

  encoded-IsAccepted :
      (cfg : Config F) (cidrs : List String) (e : Result String) (db : Settings)
      (body : CidrsResponse)
      → (cidrs_encoded fl codec cfg cidrs e db).1 ≡ answer body
      → IsAccepted cidrs body db (cidrs_encoded fl codec cfg cidrs e db).0 e
  encoded-IsAccepted cfg cidrs (err e) db body answered = ground arith
  encoded-IsAccepted cfg cidrs (ok raw) db body answered =
      (raw, refl, ground arith, ground arith, ground arith)

  checked-IsAccepted :
      (cfg : Config F) (cidrs : List String) (o : Option String) (db : Settings)
      (body : CidrsResponse)
      → (cidrs_checked fl codec cfg cidrs o db).1 ≡ answer body
      → IsAccepted cidrs body db
          (cidrs_checked fl codec cfg cidrs o db).0
          (codec.encode_cidrs cidrs)
  checked-IsAccepted cfg cidrs none db body answered =
      encoded-IsAccepted cfg cidrs (codec.encode_cidrs cidrs) db body answered
  checked-IsAccepted cfg cidrs (some bad) db body answered = ground arith

  update-IsAccepted :
      (net : Net) (cfg : Config F) (req : List String) (db : Settings) (body : CidrsResponse)
      → (update_discovery_config fl codec net cfg (ok req) db).1 ≡ answer body
      → IsAccepted
          (normalize_cidrs req)
          body
          db
          (update_discovery_config fl codec net cfg (ok req) db).0
          (codec.encode_cidrs (normalize_cidrs req))
  unfolding update_discovery_config
  update-IsAccepted net cfg req db body answered =
      checked-IsAccepted cfg (normalize_cidrs req) (first_invalid net (normalize_cidrs req)) db body
        answered

  set-runtime :
      (raw : String) (db : Settings)
      → runtime_config_from_db fl codec (set_setting discovery_cidrs_setting raw db).0
        ≡ runtime_config_from_db fl codec db
  unfolding runtime_config_from_db
  set-runtime raw db = rw (setting_other raw db)

  set-cidrs :
      (cfg : Config F) (raw : String) (xs : List String) (db : Settings)
      → (set_setting discovery_cidrs_setting raw db).1 ≡ none
      → codec.decode_cidrs raw ≡ ok xs
      → discovery_cidrs_with_source fl codec cfg (set_setting discovery_cidrs_setting raw db).0
        ≡ (normalize_cidrs xs, "database")
  unfolding discovery_cidrs_with_source
  set-cidrs cfg raw xs db saved decoded =
      rw (setting-set_setting discovery_cidrs_setting discovery_cidrs_setting raw db saved, decoded)

  in_effect-none :
      (cfg : Config F) (db : Settings) (xs : List String)
      → runtime_config_from_db fl codec db ≡ none
      → discovery_cidrs_with_source fl codec cfg db ≡ (xs, "database")
      → (effective_runtime_config fl codec cfg db).targets.discovery.cidrs ≡ xs
  unfolding effective_runtime_config
  in_effect-none cfg db xs alone read = rw (alone, read) refl

  in_effect-some :
      (cfg : Config F) (db : Settings) (r : RuntimeConfig F)
      → runtime_config_from_db fl codec db ≡ some r
      → (effective_runtime_config fl codec cfg db).targets.discovery.cidrs ≡ (
          if is_nil r.targets.discovery.cidrs
          then cfg.targets.discovery.cidrs
          else r.targets.discovery.cidrs)
  unfolding effective_runtime_config overlay overlay_targets
  in_effect-some cfg db r holds = rw holds (ground arith)

  -- Where the database holds no runtime configuration, and the list is decoded as it was encoded,
  -- the ranges of an update that was answered are in effect, and are read back with the source
  -- "database".
  pub update_discovery_config-alone :
      (net : Net) (cfg : Config F) (req : List String) (db : Settings) (body : CidrsResponse)
      → CidrsRoundTrip (normalize_cidrs req)
      → runtime_config_from_db fl codec db ≡ none
      → (update_discovery_config fl codec net cfg (ok req) db).1 ≡ answer body
      → (discovery_cidrs_with_source fl codec cfg
            (update_discovery_config fl codec net cfg (ok req) db).0
          ≡ (normalize_cidrs req, "database"))
        × (cidrs_in_effect cfg (update_discovery_config fl codec net cfg (ok req) db).0
            ≡ normalize_cidrs req)
  update_discovery_config-alone net cfg req db body law alone answered =
      let (raw, encoded, shown, saved, after) = update-IsAccepted net cfg req db body answered in
      let read =
        set-cidrs cfg raw (normalize_cidrs req) db saved (law raw encoded)
        ∙ ap (λ xs. (xs, "database")) (normalize_cidrs_idem req) in
      let still = set-runtime raw db ∙ alone in
      rw after (rw still (read, in_effect-none cfg _ _ still read))

  save_ok :
      (r : RuntimeConfig F) (text raw : String) (db : Settings)
      → codec.encode r ≡ ok raw
      → (set_setting discovery_cidrs_setting text db).1 ≡ none
      → (save_runtime_config fl codec r (set_setting discovery_cidrs_setting text db).0).1 ≡ none
  unfolding save_runtime_config set_setting
  save_ok r text raw db encoded saved = ground arith

  -- Where the database holds a runtime configuration that can be encoded with the new ranges, and
  -- is then decoded as it was encoded, an update that was answered puts its ranges into effect if
  -- it names any; if it names none, those of the file stay in effect, although the answer shows an
  -- empty list.
  pub update_discovery_config-runtime :
      (net : Net) (cfg : Config F) (req : List String) (db : Settings) (body : CidrsResponse)
      (r : RuntimeConfig F) (raw : String)
      → RoundTrips fl codec (patched (normalize_cidrs req) r)
      → runtime_config_from_db fl codec db ≡ some r
      → codec.encode (patched (normalize_cidrs req) r) ≡ ok raw
      → (update_discovery_config fl codec net cfg (ok req) db).1 ≡ answer body
      → (body.cidrs ≡ normalize_cidrs req)
        × (cidrs_in_effect cfg (update_discovery_config fl codec net cfg (ok req) db).0 ≡ (
            if is_nil (normalize_cidrs req)
            then cfg.targets.discovery.cidrs
            else normalize_cidrs req))
  update_discovery_config-runtime net cfg req db body r raw law holds writable answered =
      let (text, encoded, shown, saved, after) = update-IsAccepted net cfg req db body answered in
      let still = set-runtime text db ∙ holds in
      let stored =
        save-stored fl codec (patched (normalize_cidrs req) r) _ law
          (save_ok (patched (normalize_cidrs req) r) text raw db writable saved) in
      (shown, rw after (rw still (in_effect-some cfg _ _ stored)))
