-- ===== src/Base/Distinct.antt =====
-- Lists in which no two elements are the same, for a Boolean test of sameness.
use mathlib.Core.Path.{◌≡◌, refl, ◌∙◌}
use mathlib.Core.Logic.{inl, inr}
use mathlib.Core.Bool.{Bool, true, false}
use mathlib.Core.List.{List, [], ◌∷◌, ◌++◌}
use native.Mathlib.Omega.{arith}
use infracheck_appliance.Base.Tests.{if◌then◌else◌, Bool-cases}
use infracheck_appliance.Base.Lists.{any, any-append, All}

module _ {ℓ} {A : Type ℓ} (same : A → A → Bool) where
  abbrev pub DistinctBy : List A → Type 0
  DistinctBy [] = Unit
  DistinctBy (x ∷ xs) = (any (same x) xs ≡ false) × DistinctBy xs

  -- An element that no other is the same as may be put at the end.
  pub DistinctBy-snoc :
      (xs : List A) (y : A)
      → DistinctBy xs
      → All (λ x. same x y ≡ false) xs
      → DistinctBy (xs ++ y ∷ [])
  DistinctBy-snoc [] y d new = (refl, tt)
  DistinctBy-snoc (x ∷ xs) y d new =
      (ground (arith, any-append (same x) xs (y ∷ []), d.0, new.0), DistinctBy-snoc xs y d.1 new.1)

  any_of :
      {p q : A → Bool} (xs : List A) → ((x : A) → p x ≡ q x) → any p xs ≡ false → any q xs ≡ false
  any_of [] e h = refl
  any_of (x ∷ xs) e h = ground (arith, e x, any_of xs e, h)

  -- INSERT ... ON CONFLICT DO UPDATE: the element takes the place of the same one.
  unfoldable pub replace : A → List A → List A
  replace x [] = x ∷ []
  replace x (y ∷ ys) = if same y x then x ∷ ys else y ∷ replace x ys

  -- Elements that are the same are the same as the same elements.
  pub record IsCongruent : Type ℓ where
    pub left : (x y z : A) → same x y ≡ true → same x z ≡ same y z
    pub right : (x y z : A) → same x y ≡ true → same z x ≡ same z y

  replace-any :
      (c : IsCongruent) (w x : A) (ys : List A)
      → same w x ≡ false
      → any (same w) (replace x ys) ≡ any (same w) ys
  unfolding replace
  replace-any c w x [] h = ground (arith, h)
  replace-any c w x (y ∷ ys) h = ground (arith, h, c.right y x w, replace-any c w x ys h)

  pub replace-DistinctBy :
      (c : IsCongruent) (x : A) (ys : List A) → DistinctBy ys → DistinctBy (replace x ys)
  unfolding replace
  replace-DistinctBy c x [] d = (refl, tt)
  replace-DistinctBy c x (y ∷ ys) d = elim (Bool-cases (same y x)) [
    | inl old ↦ rw old (any_of ys (λ z. c.left y x z old) d.0, d.1)
    | inr new ↦ rw new (replace-any c y x ys new ∙ d.0, replace-DistinctBy c x ys d.1)
  ]
