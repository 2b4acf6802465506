-- ===== src/Alerts/Fingerprint.antt =====
-- The fingerprint of an alert (agent/internal/agent/alerts_api.go).
use infracheck_appliance.Base.{String, Option, none, some, List, [], ◌∷◌, if◌then◌else◌}
use infracheck_appliance.Base.Dict.{Dict, lookup}
use infracheck_appliance.Base.Text.{
  ◌<>◌, to_lower, trim_space, has_prefix, slice_from, first_non_empty,
}
use infracheck_appliance.Alerts.{Alert}
use Prim.Native.String.{len}

-- `json.Marshal` of a map of texts, whose entries stand in the order of their keys, `json.Unmarshal`,
-- which leaves the map as far as it got, and the SHA-1 in hexadecimal.
pub record Labels : Type 0 where
  pub encode : Dict String → String
  pub decode : String → Dict String
  pub sha1 : String → String

abbrev prefixes : List String
prefixes = "url:" ∷ "host:" ∷ "target:" ∷ "resolver:" ∷ "domain:" ∷ "service:" ∷ []

-- What follows the first of the prefixes that the trimmed item has in lower case. The cut is made in
-- the item itself.
abbrev after_prefix : String → List String → Option String
after_prefix item [] = none
after_prefix item (p ∷ ps) =
    let rest = after_prefix item ps in
    if has_prefix (to_lower (trim_space item)) p
    then some (trim_space (slice_from (len p) item))
    else rest

abbrev target_or : Option String → String → String
target_or none later = later
target_or (some target) later = target

unfoldable pub alert_stable_target : List String → String
alert_stable_target [] = ""
alert_stable_target (item ∷ items) =
    target_or (after_prefix item prefixes) (alert_stable_target items)

abbrev pub entry : String → Dict String → String
entry k d = elim (lookup k d) [ none ↦ "" | some v ↦ v ]

module _ (labels : Labels) where
  unfoldable pub alert_stable_name : Alert → String
  alert_stable_name a =
      let d = labels.decode a.labels in
      first_non_empty (entry "code" d ∷ entry "alertname" d ∷ a.title ∷ [])

  unfoldable pub alert_fingerprint : Alert → String
  alert_fingerprint a = labels.sha1 (
      a.source
      <> "|"
      <> a.category
      <> "|"
      <> alert_stable_name a
      <> "|"
      <> alert_stable_target a.evidence)

  abbrev pub fingerprinted : Alert → Alert
  fingerprinted a = record a { fingerprint = alert_fingerprint a }
