-- ===== src/Verdict/Latest.antt =====
-- The latest result of each key (agent/internal/verdict/verdict.go).
use infracheck_appliance.Base.{
  String, Bool, true, ◌||◌, not, Option, none, some, List, [], ◌∷◌, ◌≡◌, ◌⊎◌, inl, inr, refl, ◌∙◌,
  ap, arith, if◌then◌else◌, str_eq, eq_iff, All, Bool-cases,
}
use infracheck_appliance.Base.Int.{ℤ, ltb_ℤ}
use infracheck_appliance.Base.Dict.{Dict, lookup, insert, lookup-insert}
use infracheck_appliance.Verdict.{latest_in, newer}

module _ {A : Type 0} (key : A → String) (time : A → ℤ) (k : String) where
  abbrev pub Member : A → List A → Type 0
  Member x [] = ⊥
  Member x (y ∷ ys) = (x ≡ y) ⊎ Member x ys

  -- The result kept for the key `k`, over the list alone.
  best_step : Option A → A → Option A
  best_step o r = if str_eq (key r) k then some (newer key time o r) else o

  best : Option A → List A → Option A
  best o [] = o
  best o (r ∷ rs) = best (best_step o r) rs

  inserted :
      (seen : Dict A) (r : A)
      → lookup k (insert (key r) (newer key time (lookup (key r) seen) r) seen)
        ≡ best_step (lookup k seen) r
  unfolding best_step
  inserted seen r = elim (Bool-cases (str_eq (key r) k)) [
    | inl same ↦
        lookup-insert (key r) k (newer key time (lookup (key r) seen) r) seen
        ∙ rw (same, (eq_iff (key r) k).0 same) refl
    | inr other ↦
        lookup-insert (key r) k (newer key time (lookup (key r) seen) r) seen ∙ rw other refl
  ]

  latest-best :
      (seen : Dict A) (rs : List A)
      → lookup k (latest_in key time seen rs) ≡ best (lookup k seen) rs
  unfolding latest_in best best_step
  latest-best seen [] = refl
  latest-best seen (r ∷ rs) =
      latest-best (insert (key r) (newer key time (lookup (key r) seen) r) seen) rs
      ∙ ap (λ o. best o rs) (inserted seen r)

  -- `o` holds a result that is not older than `r`, if `r` has the key.
  abbrev pub covers : Option A → A → Bool
  covers none r = not (str_eq (key r) k)
  covers (some s) r = not (str_eq (key r) k) || not (ltb_ℤ (time s) (time r))

  step-covers : (o : Option A) (q r : A) → covers o r ≡ true → covers (best_step o q) r ≡ true
  unfolding best_step
  step-covers none q r h = ground arith
  step-covers (some s) q r h = ground arith

  step_self : (o : Option A) (r : A) → covers (best_step o r) r ≡ true
  unfolding best_step
  step_self none r = ground arith
  step_self (some s) r = ground arith

  best-covers :
      (o : Option A) (rs : List A) (r : A) → covers o r ≡ true → covers (best o rs) r ≡ true
  unfolding best
  best-covers o [] r h = h
  best-covers o (q ∷ rs) r h = best-covers (best_step o q) rs r (step-covers o q r h)

  best-All : (o : Option A) (rs : List A) → All (λ r. covers (best o rs) r ≡ true) rs
  unfolding best
  best-All o [] = tt
  best-All o (r ∷ rs) =
      (best-covers (best_step o r) rs r (step_self o r), best-All (best_step o r) rs)

  key_of : (r s : A) → r ≡ s → key r ≡ key s
  key_of r s e = ap key e

  step-from :
      (o : Option A) (r s : A) → best_step o r ≡ some s → (o ≡ some s) ⊎ ((s ≡ r) × (key s ≡ k))
  unfolding best_step
  step-from none r s h = ground (arith, eq_iff (key r) k, eq_iff (key s) k, key_of r s)
  step-from (some t) r s h = ground (arith, eq_iff (key r) k, eq_iff (key s) k, key_of r s)

  best-from :
      (o : Option A) (rs : List A) (s : A)
      → best o rs ≡ some s
      → (o ≡ some s) ⊎ (Member s rs × (key s ≡ k))
  unfolding best
  best-from o [] s h = inl h
  best-from o (r ∷ rs) s h = elim (best-from (best_step o r) rs s h) [
    | inr (later, same) ↦ inr (inr later, same)
    | inl here ↦ elim (step-from o r s here) [
      | inl before ↦ inl before
      | inr (is_r, same) ↦ inr (inl is_r, same)
    ]
  ]

  -- A result of the list that has the key, if any.
  abbrev pub IsFrom : List A → Option A → Type 0
  IsFrom rs none = Unit
  IsFrom rs (some s) = Member s rs × (key s ≡ k)

  kept :
      (rs : List A) (o : Option A)
      → ((s : A) → o ≡ some s → (none ≡ some s) ⊎ (Member s rs × (key s ≡ k)))
      → IsFrom rs o
  kept rs none from = tt
  kept rs (some s) from = elim (from s refl) [ inl absurd_ ↦ ground arith | inr found ↦ found ]

  -- What the loop keeps for a key is a result of the list that has the key, and no result of the
  -- list with the key is newer; where it keeps none, no result has the key.
  pub latest_in-covers :
      (rs : List A)
      → IsFrom rs (lookup k (latest_in key time [] rs))
        × All (λ r. covers (lookup k (latest_in key time [] rs)) r ≡ true) rs
  unfolding lookup
  latest_in-covers rs =
      rw (latest-best [] rs) (kept rs (best none rs) (best-from none rs), best-All none rs)
