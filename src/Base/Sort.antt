-- ===== src/Base/Sort.antt =====
-- Go's `sort` and SQL's ORDER BY, as insertion with a test that says which element goes before
-- another. Where neither does, the order is left open there; here it is the input's.
use Prim.Native.Nat.{suc, ◌+◌}
use mathlib.Core.Path.{◌≡◌, refl}
use mathlib.Core.Bool.{Bool, ◌||◌}
use mathlib.Core.List.{List, [], ◌∷◌}
use native.Mathlib.Omega.{arith}
use infracheck_appliance.Base.Tests.{if◌then◌else◌, either}
use infracheck_appliance.Base.Lists.{length, any, count, All}

module _ {ℓ} {A : Type ℓ} (before : A → A → Bool) where
  unfoldable pub put_by : A → List A → List A
  put_by r [] = r ∷ []
  put_by r (s ∷ rs) = if before s r then s ∷ put_by r rs else r ∷ s ∷ rs

  unfoldable pub sort_with : List A → List A
  unfolding put_by
  sort_with [] = []
  sort_with (r ∷ rs) = put_by r (sort_with rs)

  put_by-any : (p : A → Bool) (r : A) (rs : List A) → any p (put_by r rs) ≡ (p r || any p rs)
  unfolding put_by
  put_by-any p r [] = refl
  put_by-any p r (s ∷ rs) = ground (arith, put_by-any p r rs)

  pub sort_with-any : (p : A → Bool) (rs : List A) → any p (sort_with rs) ≡ any p rs
  unfolding sort_with
  sort_with-any p [] = refl
  sort_with-any p (r ∷ rs) = ground (arith, put_by-any p r (sort_with rs), sort_with-any p rs)

  put_by-length : (r : A) (rs : List A) → length (put_by r rs) ≡ suc (length rs)
  unfolding put_by
  put_by-length r [] = refl
  put_by-length r (s ∷ rs) = ground (arith, put_by-length r rs)

  pub sort_with-length : (rs : List A) → length (sort_with rs) ≡ length rs
  unfolding sort_with
  sort_with-length [] = refl
  sort_with-length (r ∷ rs) = ground (arith, put_by-length r (sort_with rs), sort_with-length rs)

  put_by-count :
      (p : A → Bool) (r : A) (rs : List A)
      → count p (put_by r rs) ≡ (if p r then 1 else 0) + count p rs
  unfolding put_by
  put_by-count p r [] = refl
  put_by-count p r (s ∷ rs) = ground (arith, put_by-count p r rs)

  pub sort_with-count : (p : A → Bool) (rs : List A) → count p (sort_with rs) ≡ count p rs
  unfolding sort_with
  sort_with-count p [] = refl
  sort_with-count p (r ∷ rs) = ground (arith, put_by-count p r (sort_with rs), sort_with-count p rs)

  pub put_by-All : (P : A → Type 0) (r : A) (rs : List A) → P r → All P rs → All P (put_by r rs)
  unfolding put_by
  put_by-All P r [] p h = (p, tt)
  put_by-All P r (s ∷ rs) p h =
      either (All P) (before s r) (s ∷ put_by r rs) (r ∷ s ∷ rs) (h.0, put_by-All P r rs p h.1)
        (p, (h.0, h.1))

  pub sort_with-All : (P : A → Type 0) (rs : List A) → All P rs → All P (sort_with rs)
  unfolding sort_with
  sort_with-All P [] h = tt
  sort_with-All P (r ∷ rs) h = put_by-All P r (sort_with rs) h.0 (sort_with-All P rs h.1)
