-- ===== src/Base/Trim.antt =====
-- Trimming twice is trimming once.
use Prim.Native.Char.{Char}
use Prim.Native.String.{String, [], ◌∷◌}
use mathlib.Core.Path.{◌≡◌, refl}
use mathlib.Core.Logic.{inl, inr}
use mathlib.Core.Bool.{Bool, false}
use infracheck_appliance.Base.Tests.{Bool-cases}
use infracheck_appliance.Base.Text.{trim_left, trim_right, trim_space, is_space, put_front}

trim_right_step :
    (p : Char → Bool) (c : Char) (t : String)
    → trim_right p t ≡ t
    → trim_right p (put_front p c t) ≡ put_front p c t
unfolding trim_right
trim_right_step p c [] h = elim (Bool-cases (p c)) [ inl e ↦ rw e | inr e ↦ rw e (rw e) ]
trim_right_step p c (d ∷ s) h = rw h

pub trim_right_idem :
    (p : Char → Bool) (s : String) → trim_right p (trim_right p s) ≡ trim_right p s
unfolding trim_right
trim_right_idem p [] = refl
trim_right_idem p (c ∷ s) = trim_right_step p c (trim_right p s) (trim_right_idem p s)

-- What begins with a character that is not trimmed keeps it.
abbrev Begins : (Char → Bool) → String → Type 0
Begins p [] = Unit
Begins p (c ∷ s) = p c ≡ false

trim_left-Begins : (p : Char → Bool) (s : String) → Begins p (trim_left p s)
unfolding trim_left
trim_left-Begins p [] = tt
trim_left-Begins p (c ∷ s) =
    let ih = trim_left-Begins p s in elim (Bool-cases (p c)) [ inl e ↦ rw e ih | inr e ↦ rw e e ]

trim_right-Begins : (p : Char → Bool) (s : String) → Begins p s → Begins p (trim_right p s)
unfolding trim_right
trim_right-Begins p [] h = tt
trim_right-Begins p (c ∷ s) h = go (trim_right p s)
  where
    go : (t : String) → Begins p (put_front p c t)
    go [] = rw h h
    go (d ∷ t) = h

trim_left-of-Begins : (p : Char → Bool) (s : String) → Begins p s → trim_left p s ≡ s
unfolding trim_left
trim_left-of-Begins p [] h = refl
trim_left-of-Begins p (c ∷ s) h = rw h

pub trim_space_idem : (s : String) → trim_space (trim_space s) ≡ trim_space s
unfolding trim_space
trim_space_idem s =
    rw (trim_left-of-Begins is_space _ (trim_right-Begins is_space _ (trim_left-Begins is_space s)))
      (trim_right_idem is_space (trim_left is_space s))
