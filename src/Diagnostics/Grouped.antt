-- ===== src/Diagnostics/Grouped.antt =====
-- The ports that only one scan has, and the grouping of rows by a key
-- (agent/internal/agent/diagnostics_api.go).
use infracheck_appliance.Base.{
  ◌<◌, String, Bool, true, false, ◌&&◌, ◌||◌, not, List, [], ◌∷◌, ◌++◌, ◌≡◌, refl, sym, ap, ◌∙◌,
  arith, keep, any, length, All, append_assoc, str_eq, eq_iff, Bool-cases, inl, inr, append-nil,
  length-append, All-map, All-both, any-All,
}
use infracheck_appliance.Base.Int.{ℤ, eq_ℤ}
use infracheck_appliance.Base.Dict.{
  Dict, lookup, insert, has, NodupKeys, lookup-insert, insert-NodupKeys, insert-All, has-insert,
  lookup-here, lookup-later,
}
use infracheck_appliance.Field.{has_port}
use infracheck_appliance.Diagnostics.{port_diff, or_empty, group_by}

eq_ℤ_same : (p q v : ℤ) → eq_ℤ p v ≡ true → eq_ℤ q p ≡ eq_ℤ q v
eq_ℤ_same p q v h = ground arith

has_port-same : (p v : ℤ) (b : List ℤ) → eq_ℤ p v ≡ true → has_port p b ≡ has_port v b
has_port-same p v [] h = refl
has_port-same p v (q ∷ b) h = ground (arith, has_port-same p v b h, eq_ℤ_same p q v h)

-- The difference has the ports of the first list that the second has not.
pub has_port-port_diff :
    (v : ℤ) (a b : List ℤ) → has_port v (port_diff a b) ≡ (has_port v a && not (has_port v b))
unfolding port_diff
has_port-port_diff v [] b = refl
has_port-port_diff v (p ∷ a) b = elim (Bool-cases (eq_ℤ p v)) [
  | inl same ↦ rw (has_port-same p v b same) (ground (arith, same, has_port-port_diff v a b))
  | inr other ↦ ground (arith, other, has_port-port_diff v a b)
]

module _ {A : Type 0} (key : A → String) where
  abbrev pub key_is : String → A → Bool
  key_is k r = str_eq (key r) k

  abbrev grouped_with : A → Dict (List A) → Dict (List A)
  grouped_with r d = insert (key r) (or_empty (lookup (key r) d) ++ r ∷ []) d

  -- An entry has the rows of its key, in their order.
  pub group_by-keep :
      (k : String) (d : Dict (List A)) (rows : List A)
      → or_empty (lookup k (group_by key d rows)) ≡ or_empty (lookup k d) ++ keep (key_is k) rows
  unfolding group_by
  group_by-keep k d [] = sym (append-nil (or_empty (lookup k d)))
  group_by-keep k d (r ∷ rows) = elim (Bool-cases (str_eq (key r) k)) [
    | inl same ↦
        group_by-keep k (grouped_with r d) rows
        ∙ ap (λ o. or_empty o ++ keep (key_is k) rows)
            (lookup-insert (key r) k (or_empty (lookup (key r) d) ++ r ∷ []) d)
        ∙ rw (same, (eq_iff (key r) k).0 same)
            (append_assoc (or_empty (lookup k d)) (r ∷ []) (keep (key_is k) rows))
    | inr other ↦
        group_by-keep k (grouped_with r d) rows
        ∙ ap (λ o. or_empty o ++ keep (key_is k) rows)
            (lookup-insert (key r) k (or_empty (lookup (key r) d) ++ r ∷ []) d)
        ∙ rw other refl
  ]

  pub group_by-NodupKeys :
      (d : Dict (List A)) (rows : List A) → NodupKeys d → NodupKeys (group_by key d rows)
  unfolding group_by
  group_by-NodupKeys d [] h = h
  group_by-NodupKeys d (r ∷ rows) h =
      group_by-NodupKeys (grouped_with r d) rows (insert-NodupKeys (key r) _ d h)

  pub group_by-has :
      (k : String) (d : Dict (List A)) (rows : List A)
      → has k (group_by key d rows) ≡ (has k d || any (key_is k) rows)
  unfolding group_by
  group_by-has k d [] = ground arith
  group_by-has k d (r ∷ rows) =
      group_by-has k (grouped_with r d) rows
      ∙ ground (arith, has-insert (key r) k (or_empty (lookup (key r) d) ++ r ∷ []) d)

  abbrev IsFilled : String × List A → Type 0
  IsFilled e = 0 < length e.1

  pub group_by-IsFilled :
      (d : Dict (List A)) (rows : List A) → All IsFilled d → All IsFilled (group_by key d rows)
  unfolding group_by
  group_by-IsFilled d [] h = h
  group_by-IsFilled d (r ∷ rows) h = group_by-IsFilled (grouped_with r d) rows (
      insert-All IsFilled (key r) _ d
        (omega (arith, length-append (or_empty (lookup (key r) d)) (r ∷ []))) h)

  -- In a map that has no key twice, every entry is what the map answers for its key.
  pub entries : (d : Dict (List A)) → NodupKeys d → All (λ (k, xs). or_empty (lookup k d) ≡ xs) d
  entries [] h = tt
  entries ((k, xs) ∷ d) h = (
    ap or_empty (lookup-here k xs d),
    All-map (λ e. (str_eq k e.0 ≡ false) × (or_empty (lookup e.0 d) ≡ e.1))
        (λ e. or_empty (lookup e.0 ((k, xs) ∷ d)) ≡ e.1)
        (λ e both. ap or_empty (lookup-later k e.0 xs d both.0) ∙ both.1) d
        (All-both _ _ d (any-All (λ (e : String × List A). str_eq k e.0) d h.0) (entries d h.1)),
  )
