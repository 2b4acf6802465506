-- ===== src/Base/SortTexts.antt =====
-- Sorting texts.
use infracheck_appliance.Base.{
  String, false, List, [], ◌∷◌, ◌≡◌, ◌≤◌, ◌↔◌, inl, inr, refl, sym, ap, ◌∙◌, arith, All, count,
  str_eq, eq_iff, eq_refl, Bool-cases,
}
use infracheck_appliance.Base.Text.{text_lt}
use infracheck_appliance.Base.TextOrder.{
  text_lt-irreflexive, text_lt-asym, text_lt-antisym, text_lt_trans,
}
use infracheck_appliance.Base.Sort.{put_by, put_by-All, sort_with, sort_with-count}

abbrev pub Sorted : List String → Type 0
Sorted [] = Unit
Sorted (s ∷ ss) = All (λ t. text_lt t s ≡ false) ss × Sorted ss

not_before :
    (s t : String) (ss : List String)
    → text_lt t s ≡ false
    → All (λ u. text_lt u t ≡ false) ss
    → All (λ u. text_lt u s ≡ false) ss
not_before s t [] h all = tt
not_before s t (u ∷ ss) h all = (text_lt_trans s t u h all.0, not_before s t ss h all.1)

put_by-Sorted : (s : String) (ss : List String) → Sorted ss → Sorted (put_by text_lt s ss)
unfolding put_by
put_by-Sorted s [] h = (tt, tt)
put_by-Sorted s (t ∷ ss) h = elim (Bool-cases (text_lt t s)) [
  | inl below ↦ rw below (
    put_by-All text_lt (λ u. text_lt u t ≡ false) s ss (text_lt-asym t s below) h.0,
    put_by-Sorted s ss h.1,
  )
  | inr above ↦ rw above ((above, not_before s t ss above h.0), h)
]

sort_with-Sorted : (ss : List String) → Sorted (sort_with text_lt ss)
unfolding sort_with
sort_with-Sorted [] = tt
sort_with-Sorted (s ∷ ss) = put_by-Sorted s (sort_with text_lt ss) (sort_with-Sorted ss)

-- A text that stands in a list is not below what nothing of the list is below.
counted-above :
    (s t : String) (ss : List String)
    → All (λ u. text_lt u t ≡ false) ss
    → 1 ≤ count (str_eq s) ss
    → text_lt s t ≡ false
counted-above s t [] all h = absurd (omega (arith, h))
counted-above s t (u ∷ ss) all h = elim (Bool-cases (str_eq s u)) [
  | inl same ↦ rw ((eq_iff s u).0 same) all.0
  | inr other ↦ counted-above s t ss all.1 (ground (arith, h, other))
]

heads-equal :
    (s t : String) (ss ts : List String)
    → Sorted (s ∷ ss)
    → Sorted (t ∷ ts)
    → ((u : String) → count (str_eq u) (s ∷ ss) ≡ count (str_eq u) (t ∷ ts))
    → s ≡ t
heads-equal s t ss ts p q h =
    text_lt-antisym s t
      (counted-above s t (t ∷ ts) (text_lt-irreflexive t, q.0) (ground (arith, h s, eq_refl s)))
      (counted-above t s (s ∷ ss) (text_lt-irreflexive s, p.0) (ground (arith, h t, eq_refl t)))

tails-equal :
    (u s t : String) (ss ts : List String)
    → s ≡ t
    → count (str_eq u) (s ∷ ss) ≡ count (str_eq u) (t ∷ ts)
    → count (str_eq u) ss ≡ count (str_eq u) ts
tails-equal u s t ss ts same h = ground (arith, ap (str_eq u) same, h)

-- Sorted lists with the same texts, each as often, are the same.
Sorted-equal :
    (ss ts : List String)
    → Sorted ss
    → Sorted ts
    → ((u : String) → count (str_eq u) ss ≡ count (str_eq u) ts)
    → ss ≡ ts
Sorted-equal [] [] p q h = refl
Sorted-equal [] (t ∷ ts) p q h = ground (arith, h t, eq_refl t)
Sorted-equal (s ∷ ss) [] p q h = ground (arith, h s, eq_refl s)
Sorted-equal (s ∷ ss) (t ∷ ts) p q h =
    let same : s ≡ t = heads-equal s t ss ts p q h in
    let rest : ss ≡ ts = Sorted-equal ss ts p.1 q.1 (λ u. tails-equal u s t ss ts same (h u)) in
    ap (λ u. u ∷ ss) same ∙ ap (λ us. t ∷ us) rest

-- Sorting forgets the order and nothing else.
pub sort_iff :
    (ss ts : List String)
    → (sort_with text_lt ss ≡ sort_with text_lt ts)
      ↔ ((u : String) → count (str_eq u) ss ≡ count (str_eq u) ts)
sort_iff ss ts = (
  λ same u.
      sym (sort_with-count text_lt (str_eq u) ss)
      ∙ ap (count (str_eq u)) same
      ∙ sort_with-count text_lt (str_eq u) ts,
  λ h.
      Sorted-equal (sort_with text_lt ss) (sort_with text_lt ts) (sort_with-Sorted ss)
        (sort_with-Sorted ts)
        (λ u.
          sort_with-count text_lt (str_eq u) ss
          ∙ h u
          ∙ sym (sort_with-count text_lt (str_eq u) ts)),
)
