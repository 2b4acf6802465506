-- ===== src/Base/Dict.antt =====
-- A Go map with text keys, as an association list with one entry for each key.
use Prim.Native.String.{String}
use mathlib.Core.Path.{◌≡◌, refl, ◌∙◌, subst}
use mathlib.Core.Logic.{inl, inr}
use mathlib.Core.Bool.{Bool, true, false, not, ◌&&◌, ◌||◌}
use mathlib.Core.Option.{Option, none, some}
use mathlib.Core.List.{List, [], ◌∷◌}
use native.Mathlib.Omega.{arith}
use text.Mathlib.Text.{◌==◌ as str_eq}
use text.Mathlib.TextEquality.{eq_iff}
use infracheck_appliance.Base.Tests.{if◌then◌else◌, either, Bool-cases}
use infracheck_appliance.Base.Lists.{any, All, length}
use Prim.Native.Nat.{◌<◌}
use infracheck_appliance.Base.Distinct.{DistinctBy}

abbrev pub Dict {ℓ} : Type ℓ → Type ℓ
Dict V = List (String × V)

module _ {ℓ} {V : Type ℓ} where
  unfoldable pub lookup : String → Dict V → Option V
  lookup k [] = none
  lookup k ((j, v) ∷ d) = if str_eq j k then some v else lookup k d

  unfoldable pub insert : String → V → Dict V → Dict V
  insert k v [] = (k, v) ∷ []
  insert k v ((j, w) ∷ d) = if str_eq j k then (k, v) ∷ d else (j, w) ∷ insert k v d

  -- `delete(m, k)`
  unfoldable pub delete : String → Dict V → Dict V
  delete k [] = []
  delete k ((j, v) ∷ d) = let rest = delete k d in if str_eq j k then rest else (j, v) ∷ rest

  unfoldable pub values : Dict V → List V
  values [] = []
  values ((j, v) ∷ d) = v ∷ values d

  pub lookup-insert :
      (k j : String) (v : V) (d : Dict V)
      → lookup j (insert k v d) ≡ (if str_eq k j then some v else lookup j d)
  unfolding lookup insert
  lookup-insert k j v [] = refl
  lookup-insert k j v ((i, w) ∷ d) =
      ground (arith, eq_iff k j, eq_iff i k, eq_iff i j, lookup-insert k j v d)

  pub lookup-delete :
      (k j : String) (d : Dict V)
      → lookup j (delete k d) ≡ (if str_eq k j then none else lookup j d)
  unfolding lookup delete
  lookup-delete k j [] = ground arith
  lookup-delete k j ((i, w) ∷ d) =
      ground (arith, eq_iff k j, eq_iff i k, eq_iff i j, lookup-delete k j d)

  abbrev pub has : String → Dict V → Bool
  has k d = any (λ (e : String × V). str_eq e.0 k) d

  -- No key stands twice.
  abbrev pub NodupKeys : Dict V → Type 0
  NodupKeys = DistinctBy (λ (e f : String × V). str_eq e.0 f.0)

  pub has-insert :
      (k j : String) (v : V) (d : Dict V) → has j (insert k v d) ≡ (str_eq k j || has j d)
  unfolding insert
  has-insert k j v [] = refl
  has-insert k j v ((i, w) ∷ d) =
      ground (arith, eq_iff k j, eq_iff i k, eq_iff i j, has-insert k j v d)

  pub has-delete : (k j : String) (d : Dict V) → has j (delete k d) ≡ (not (str_eq k j) && has j d)
  unfolding delete
  has-delete k j [] = ground arith
  has-delete k j ((i, w) ∷ d) = ground (arith, eq_iff k j, eq_iff i k, eq_iff i j, has-delete k j d)

  pub insert-All :
      (P : String × V → Type 0) (k : String) (v : V) (d : Dict V)
      → P (k, v)
      → All P d
      → All P (insert k v d)
  unfolding insert
  insert-All P k v [] p h = (p, tt)
  insert-All P k v ((i, w) ∷ d) p h =
      either (All P) (str_eq i k) ((k, v) ∷ d) ((i, w) ∷ insert k v d) (p, h.1)
        (h.0, insert-All P k v d p h.1)

  pub delete-All :
      (P : String × V → Type 0) (k : String) (d : Dict V) → All P d → All P (delete k d)
  unfolding delete
  delete-All P k [] h = tt
  delete-All P k ((i, w) ∷ d) h =
      either (All P) (str_eq i k) (delete k d) ((i, w) ∷ delete k d) (delete-All P k d h.1)
        (h.0, delete-All P k d h.1)

  any_same : (i : String) (d : Dict V) → any (λ (e : String × V). str_eq i e.0) d ≡ has i d
  any_same i [] = refl
  any_same i ((l, w) ∷ d) = ground (arith, eq_iff i l, eq_iff l i, any_same i d)

  pub insert-NodupKeys : (k : String) (v : V) (d : Dict V) → NodupKeys d → NodupKeys (insert k v d)
  unfolding insert
  insert-NodupKeys k v [] h = (refl, tt)
  insert-NodupKeys k v ((i, w) ∷ d) h = elim (Bool-cases (str_eq i k)) [
    | inl old ↦ rw old (ground (arith, h.0, eq_iff i k, any_same i d, any_same k d), h.1)
    | inr new ↦ rw new (
      any_same i (insert k v d)
          ∙ ground (arith, new, eq_iff i k, eq_iff k i, has-insert k i v d, any_same i d, h.0),
      insert-NodupKeys k v d h.1,
    )
  ]

  pub delete-NodupKeys : (k : String) (d : Dict V) → NodupKeys d → NodupKeys (delete k d)
  unfolding delete
  delete-NodupKeys k [] h = tt
  delete-NodupKeys k ((i, w) ∷ d) h = elim (Bool-cases (str_eq i k)) [
    | inl old ↦ rw old (delete-NodupKeys k d h.1)
    | inr new ↦ rw new (
      any_same i (delete k d) ∙ ground (arith, has-delete k i d, any_same i d, h.0),
      delete-NodupKeys k d h.1,
    )
  ]

  -- What the map answers for a key stands under it.
  pub lookup-All :
      (P : String × V → Type 0) (k : String) (v : V) (d : Dict V)
      → All P d
      → lookup k d ≡ some v
      → P (k, v)
  unfolding lookup
  lookup-All P k v [] h e = absurd (cc)
  lookup-All P k v ((j, w) ∷ d) h e = elim (Bool-cases (str_eq j k)) [
    | inl same ↦
        let stored : Path (Option V) (some w) (some v) = rw same at e in
        let entry : Path (String × V) (j, w) (k, v) = ground (arith, same, stored, eq_iff j k) in
        subst P entry h.0
    | inr other ↦ lookup-All P k v d h.1 (rw other at e)
  ]

  -- An entry whose key no later entry has is what the map answers.
  pub lookup-here : (k : String) (v : V) (d : Dict V) → lookup k ((k, v) ∷ d) ≡ some v
  unfolding lookup
  lookup-here k v d = ground (arith, eq_iff k k)

  pub lookup-has : (k : String) (v : V) (d : Dict V) → lookup k d ≡ some v → has k d ≡ true
  unfolding lookup
  lookup-has k v [] e = absurd (cc)
  lookup-has k v ((j, w) ∷ d) e = ground (arith, e, lookup-has k v d)

  pub NodupKeys-fresh :
      (j k : String) (w : V) (d : Dict V)
      → NodupKeys ((j, w) ∷ d)
      → has k d ≡ true
      → str_eq j k ≡ false
  NodupKeys-fresh j k w d h e = ground (arith, h.0, e, any_same j d, eq_iff j k)

  pub lookup-later :
      (j k : String) (w : V) (d : Dict V) → str_eq j k ≡ false → lookup k ((j, w) ∷ d) ≡ lookup k d
  unfolding lookup
  lookup-later j k w d h = rw h refl

  pub length-insert : (k : String) (v : V) (d : Dict V) → 0 < length (insert k v d)
  unfolding insert
  length-insert k v [] = omega arith
  length-insert k v ((j, w) ∷ d) = ground (arith, length-insert k v d)
