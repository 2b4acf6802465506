-- ===== src/Alerts/Dedupe.antt =====
-- Records that stand for the same alert (agent/internal/agent/alerts_api.go). The map `byKey` with
-- the list `order` of its keys is one association list, in the order of the keys' insertion.
use infracheck_appliance.Base.{
  ℕ, ◌+◌, String, Bool, true, false, ◌&&◌, ◌||◌, not, Option, none, some, List, if◌then◌else◌,
  str_eq, ltb, leb, ◌==◌,
}
use infracheck_appliance.Base.Dict.{Dict, lookup, insert, values}
use infracheck_appliance.Base.Text.{◌<>◌, to_lower, trim_space, contains}
use infracheck_appliance.Alerts.{Row}
use Prim.Native.Char.{Char, code}
use Prim.Native.String.{[], ◌∷◌, len, char_at}

abbrev blank : Char
blank = char_at " " 0

abbrev is_word : Char → Bool
is_word c = let n = code c in (leb b'a' n && leb n b'z') || (leb b'0' n && leb n b'9')

-- strings.ReplaceAll(value, "_", " ")
unfoldable pub underscores_to_spaces : String → String
underscores_to_spaces [] = []
underscores_to_spaces (c ∷ s) = (if code c == b'_' then blank else c) ∷ underscores_to_spaces s

-- `[^a-z0-9]+` replaced by a space; `gap` is true inside such a run.
unfoldable pub words_only : Bool → String → String
words_only gap [] = []
words_only gap (c ∷ s) =
    let inside = words_only true s in
    let after = words_only false s in
    if is_word c then c ∷ after else (if gap then inside else blank ∷ inside)

unfoldable pub normalize_alert_text : String → String
normalize_alert_text value = trim_space (words_only false (underscores_to_spaces (to_lower value)))

-- strings.Fields(value)[0], for a text whose only white space is single spaces between words
unfoldable pub until_space : String → String
until_space [] = []
until_space (c ∷ s) = let rest = until_space s in if code c == 32 then [] else c ∷ rest

unfoldable pub first_token : String → String
first_token value =
    let v = normalize_alert_text value in if str_eq v "" then "unknown" else until_space v

unfoldable pub alert_dedupe_key : Row → String
alert_dedupe_key r =
    let a = r.alert in
    let combined = normalize_alert_text (
      a.category <> " " <> a.title <> " " <> a.summary <> " " <> a.labels <> " "
      <> a.annotations) in
    let has = contains combined in
    let inventory = has "lan" || has "device" || has "inventory" in
    if inventory && (has "missing" || has "not seen")
    then "inventory:device-missing"
    else (if inventory && (has "new" || has "first seen")
        then "inventory:device-new"
        else (if has "wan" && has "speed"
            then "wan:speed"
            else (if has "ping" && has "gateway"
                then "ping:gateway"
                else (if has "ping" && (has "target down" || has "unreachable")
                    then "ping:target-down"
                    else (if has "http" || has "tls"
                        then "service:" <> first_token a.title
                        else (if has "dns"
                            then "dns:" <> first_token a.title
                            else (if not (str_eq a.category "") && not (str_eq a.title "")
                                then normalize_alert_text (a.category <> ":" <> a.title)
                                else "")))))))

-- The key, or one of the record's own.
unfoldable pub dedupe_key : Row → String
dedupe_key r =
    let key = alert_dedupe_key r in
    if str_eq key "" then "fingerprint:" <> r.alert.fingerprint else key

abbrev pub count {ℓ} : {A : Type ℓ} → List A → ℕ
count List.[] = 0
count (List.◌∷◌ x xs) = 1 + count xs

unfoldable pub better_alert_record : Row → Row → Row
better_alert_record a b =
    if not (str_eq a.alert.source b.alert.source) && str_eq b.alert.source "internal"
    then b
    else (if not (str_eq a.alert.source b.alert.source) && str_eq a.alert.source "internal"
        then a
        else (if not (count b.alert.evidence == count a.alert.evidence)
            then (if ltb (count a.alert.evidence) (count b.alert.evidence) then b else a)
            else (if ltb (len a.alert.summary + len a.alert.recommendation)
                  (len b.alert.summary + len b.alert.recommendation)
                then b
                else a)))

abbrev pub merged : Option Row → Row → Row
merged none r = r
merged (some existing) r = better_alert_record existing r

unfoldable pub dedupe_loop : Dict Row → List Row → Dict Row
dedupe_loop by_key List.[] = by_key
dedupe_loop by_key (List.◌∷◌ r rs) =
    dedupe_loop (insert (dedupe_key r) (merged (lookup (dedupe_key r) by_key) r) by_key) rs

unfoldable pub dedupe_alert_records : List Row → List Row
dedupe_alert_records records = values (dedupe_loop List.[] records)
