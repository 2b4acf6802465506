-- ===== src/Base/Commas.antt =====
-- Texts that are joined with commas.
use Prim.Native.Char.{code}
use Prim.Native.String.{String, [], ◌∷◌, char_at}
use mathlib.Core.Path.{◌≡◌, refl, sym, ap, ◌∙◌}
use mathlib.Core.Bool.{Bool, true, false, ◌||◌}
use mathlib.Core.List.{List}
use native.Mathlib.Omega.{arith}
use text.Mathlib.TextLemmas.{cons-append, nil-append}
use infracheck_appliance.Base.Lists.{All}
use infracheck_appliance.Base.Tests.{◌==◌, if◌then◌else◌}
use infracheck_appliance.Base.Text.{join, ◌<>◌}

abbrev pub has_comma : String → Bool
has_comma [] = false
has_comma (c ∷ s) = code c == b',' || has_comma s

abbrev pub is_blank : String → Bool
is_blank [] = true
is_blank (c ∷ s) = false

-- The text up to the first comma, and what stands behind it
abbrev first : String → String
first [] = []
first (c ∷ s) = let rest = first s in if code c == b',' then [] else c ∷ rest

abbrev behind : String → String
behind [] = []
behind (c ∷ s) = let rest = behind s in if code c == b',' then s else rest

comma-append : (r : String) → ("," <> r) ≡ (char_at "," 0 ∷ r)
comma-append r = cons-append (char_at "," 0) [] r ∙ ap (λ s. char_at "," 0 ∷ s) (nil-append r)

first-comma : (s r : String) → has_comma s ≡ false → first (s <> (char_at "," 0 ∷ r)) ≡ s
first-comma [] r h = rw (nil-append (char_at "," 0 ∷ r)) refl
first-comma (c ∷ s) r h =
    rw (cons-append c s (char_at "," 0 ∷ r))
      (ground (arith, h, first-comma s r (ground (arith, h))))

behind-comma : (s r : String) → has_comma s ≡ false → behind (s <> (char_at "," 0 ∷ r)) ≡ r
behind-comma [] r h = rw (nil-append (char_at "," 0 ∷ r)) refl
behind-comma (c ∷ s) r h =
    rw (cons-append c s (char_at "," 0 ∷ r))
      (ground (arith, h, behind-comma s r (ground (arith, h))))

has-comma : (s r : String) → has_comma (s <> (char_at "," 0 ∷ r)) ≡ true
has-comma [] r = rw (nil-append (char_at "," 0 ∷ r)) refl
has-comma (c ∷ s) r = rw (cons-append c s (char_at "," 0 ∷ r)) (ground (arith, has-comma s r))

not_blank-append : (s r : String) → is_blank s ≡ false → is_blank (s <> r) ≡ false
not_blank-append [] r h = ground (arith, h)
not_blank-append (c ∷ s) r h = rw (cons-append c s r) refl

-- Neither empty nor with a comma.
abbrev pub IsName : String → Type 0
IsName s = (is_blank s ≡ false) × (has_comma s ≡ false)

joined_two :
    (s t : String) (ss : List String)
    → join (List.◌∷◌ s (List.◌∷◌ t ss)) "," ≡ s <> (char_at "," 0 ∷ join (List.◌∷◌ t ss) ",")
unfolding join
joined_two s t ss = ap (λ r. s <> r) (comma-append (join (List.◌∷◌ t ss) ","))

pub join-filled :
    (s : String) (ss : List String) → IsName s → is_blank (join (List.◌∷◌ s ss) ",") ≡ false
unfolding join
join-filled s List.[] n = n.0
join-filled s (List.◌∷◌ t ss) n = not_blank-append s _ n.0

-- Lists of names that are joined to the same text are the same.
pub join-injective :
    (ss ts : List String) → All IsName ss → All IsName ts → join ss "," ≡ join ts "," → ss ≡ ts
unfolding join
join-injective List.[] List.[] p q h = refl
join-injective List.[] (List.◌∷◌ t ts) p q h =
    absurd (ground (arith, ap is_blank h, join-filled t ts q.0))
join-injective (List.◌∷◌ s ss) List.[] p q h =
    absurd (ground (arith, ap is_blank h, join-filled s ss p.0))
join-injective (List.◌∷◌ s List.[]) (List.◌∷◌ t List.[]) p q h = ap (λ u. List.◌∷◌ u List.[]) h
join-injective (List.◌∷◌ s List.[]) (List.◌∷◌ t (List.◌∷◌ t2 ts)) p q h = absurd (
    ground (
      arith,
      p.0.1,
      ap has_comma (h ∙ joined_two t t2 ts),
      has-comma t (join (List.◌∷◌ t2 ts) ","),
    ))
join-injective (List.◌∷◌ s (List.◌∷◌ s2 ss)) (List.◌∷◌ t List.[]) p q h = absurd (
    ground (
      arith,
      q.0.1,
      ap has_comma (sym h ∙ joined_two s s2 ss),
      has-comma s (join (List.◌∷◌ s2 ss) ","),
    ))
join-injective (List.◌∷◌ s (List.◌∷◌ s2 ss)) (List.◌∷◌ t (List.◌∷◌ t2 ts)) p q h =
    let left = join (List.◌∷◌ s2 ss) "," in
    let right = join (List.◌∷◌ t2 ts) "," in
    let both = sym (joined_two s s2 ss) ∙ h ∙ joined_two t t2 ts in
    let same : s ≡ t = sym (first-comma s left p.0.1) ∙ ap first both ∙ first-comma t right q.0.1 in
    let rest : left ≡ right =
      sym (behind-comma s left p.0.1) ∙ ap behind both ∙ behind-comma t right q.0.1 in
    ap (λ u. List.◌∷◌ u (List.◌∷◌ s2 ss)) same
    ∙ ap (List.◌∷◌ t) (join-injective (List.◌∷◌ s2 ss) (List.◌∷◌ t2 ts) p.1 q.1 rest)
