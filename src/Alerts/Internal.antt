-- ===== src/Alerts/Internal.antt =====
-- Which records deduplication keeps (agent/internal/agent/alerts_api.go).
use infracheck_appliance.Base.{
  ◌+◌, ltb, leb, ◌==◌, String, Bool, false, ◌&&◌, ◌||◌, Option, none, some, List, [], ◌∷◌, ◌≡◌, inl,
  inr, refl, ◌∙◌, ap, arith, str_eq, eq_iff, any, Bool-cases,
}
use infracheck_appliance.Base.Dict.{Dict, lookup, insert, values, lookup-insert}
use infracheck_appliance.Alerts.{Alert, Row}
use infracheck_appliance.Alerts.Dedupe.{
  better_alert_record, count, merged, dedupe_key, dedupe_loop, dedupe_alert_records,
}
use infracheck_appliance.Alerts.Unique.{is_internal, IsKeyed, has_key, IsTable, dedupe-IsTable}
use Prim.Native.String.{len}

-- As much evidence as another, or as much with texts that are as long.
abbrev pub as_detailed : Alert → Alert → Bool
as_detailed x a =
    ltb (count x.evidence) (count a.evidence)
    || ((count x.evidence == count a.evidence)
        && leb (len x.summary + len x.recommendation) (len a.summary + len a.recommendation))

-- An internal record that is as detailed as an alert.
abbrev pub tells_of : Alert → Row → Bool
tells_of x r = is_internal r && as_detailed x r.alert

-- The better of two records tells of an alert exactly if one of the two does.
pub better-tells :
    (x : Alert) (a b : Row) → tells_of x (better_alert_record a b) ≡ (tells_of x a || tells_of x b)
unfolding better_alert_record
better-tells x a b = ground (
  arith,
  eq_iff a.alert.source "internal",
  eq_iff b.alert.source "internal",
  eq_iff a.alert.source b.alert.source,
)

-- `good` is what the better of two records is exactly if one of the two is.
module _ (good : Row → Bool)
    (chosen : (a b : Row) → good (better_alert_record a b) ≡ (good a || good b)) where
  abbrev good_option : Option Row → Bool
  good_option none = false
  good_option (some r) = good r

  merged-good : (o : Option Row) (r : Row) → good (merged o r) ≡ (good_option o || good r)
  merged-good none r = refl
  merged-good (some s) r = chosen s r

  -- Whether the record kept for a key is a good one.
  abbrev pub good_at : String → Dict Row → Bool
  good_at k d = good_option (lookup k d)

  or_false : (b : Bool) → b ≡ (b || false)
  or_false b = ground arith

  insert-good :
      (k : String) (r : Row) (d : Dict Row)
      → good_at k (insert (dedupe_key r) (merged (lookup (dedupe_key r) d) r) d)
        ≡ (good_at k d || (str_eq (dedupe_key r) k && good r))
  insert-good k r d = elim (Bool-cases (str_eq (dedupe_key r) k)) [
    | inl same ↦
        ap good_option (lookup-insert (dedupe_key r) k (merged (lookup (dedupe_key r) d) r) d)
        ∙ rw (same, (eq_iff (dedupe_key r) k).0 same) (merged-good (lookup k d) r)
    | inr other ↦
        ap good_option (lookup-insert (dedupe_key r) k (merged (lookup (dedupe_key r) d) r) d)
        ∙ rw other (or_false (good_at k d))
  ]

  -- Among the records with one key, the one kept is good exactly if some of them is.
  pub dedupe_loop-good :
      (k : String) (d : Dict Row) (rs : List Row)
      → good_at k (dedupe_loop d rs)
        ≡ (good_at k d || any (λ r. str_eq (dedupe_key r) k && good r) rs)
  unfolding dedupe_loop
  dedupe_loop-good k d [] = or_false (good_at k d)
  dedupe_loop-good k d (r ∷ rs) =
      dedupe_loop-good k (insert (dedupe_key r) (merged (lookup (dedupe_key r) d) r) d) rs
      ∙ ground (arith, insert-good k r d)

  abbrev pub good_with : String → Row → Bool
  good_with k r = str_eq (dedupe_key r) k && good r

  has_key-same : (k j : String) (d : Dict Row) → j ≡ k → has_key j d ≡ has_key k d
  has_key-same k j d e = ap (λ i. has_key i d) e

  absent-good :
      (k : String) (d : Dict Row)
      → IsKeyed d
      → has_key k d ≡ false
      → any (good_with k) (values d) ≡ false
  unfolding values
  absent-good k [] h new = refl
  absent-good k ((j, r) ∷ d) h new =
      ground (arith, h.0, eq_iff (dedupe_key r) k, eq_iff j k, absent-good k d h.1)

  values-good : (k : String) (d : Dict Row) → IsTable d → any (good_with k) (values d) ≡ good_at k d
  unfolding values lookup
  values-good k [] t = refl
  values-good k ((j, r) ∷ d) t = elim (Bool-cases (str_eq j k)) [
    | inl same ↦ rw same (
        ground (
          arith,
          same,
          t.keyed.0,
          eq_iff (dedupe_key r) k,
          eq_iff j k,
          absent-good k d t.keyed.1,
          has_key-same k j d ((eq_iff j k).0 same),
          t.distinct.0,
        ))
    | inr other ↦ rw other (
        ground (
          arith,
          other,
          t.keyed.0,
          eq_iff (dedupe_key r) k,
          eq_iff j k,
          values-good k d (record { keyed = t.keyed.1; distinct = t.distinct.1 }),
        ))
  ]

  -- Deduplication leaves a good record with a key exactly if there was one.
  pub dedupe_alert_records-good :
      (k : String) (rs : List Row)
      → any (good_with k) (dedupe_alert_records rs) ≡ any (good_with k) rs
  unfolding dedupe_alert_records lookup
  dedupe_alert_records-good k rs =
      values-good k (dedupe_loop [] rs) (dedupe-IsTable rs) ∙ dedupe_loop-good k [] rs
