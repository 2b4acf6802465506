-- ===== src/Base/TextOrder.antt =====
-- The order of texts.
use Prim.Native.String.{String, [], ◌∷◌}
use mathlib.Core.Path.{◌≡◌, refl, ap, ◌∙◌}
use mathlib.Core.Bool.{true, false}
use text.Mathlib.TextEquality.{Char-path}
use native.Mathlib.Omega.{arith}
use infracheck_appliance.Base.Text.{text_lt}

pub text_lt-irreflexive : (a : String) → text_lt a a ≡ false
text_lt-irreflexive [] = refl
text_lt-irreflexive (c ∷ a) = ground (arith, text_lt-irreflexive a)

pub text_lt-asym : (a b : String) → text_lt a b ≡ true → text_lt b a ≡ false
text_lt-asym [] [] h = refl
text_lt-asym [] (d ∷ b) h = refl
text_lt-asym (c ∷ a) [] h = ground (arith, h)
text_lt-asym (c ∷ a) (d ∷ b) h = ground (arith, h, text_lt-asym a b)

pub text_lt-antisym : (a b : String) → text_lt a b ≡ false → text_lt b a ≡ false → a ≡ b
text_lt-antisym [] [] h k = refl
text_lt-antisym [] (d ∷ b) h k = ground (arith, h)
text_lt-antisym (c ∷ a) [] h k = ground (arith, k)
text_lt-antisym (c ∷ a) (d ∷ b) h k =
    let head : c ≡ d = Char-path c d (ground (arith, h, k)) in
    let tail : a ≡ b = text_lt-antisym a b (ground (arith, head, h)) (ground (arith, head, k)) in
    ap (λ e. e ∷ a) head ∙ ap (λ s. d ∷ s) tail

-- What is not below a text is not below what is not above that text.
pub text_lt_trans :
    (a b c : String) → text_lt b a ≡ false → text_lt c b ≡ false → text_lt c a ≡ false
text_lt_trans [] b c h k = refl
text_lt_trans (x ∷ a) [] c h k = ground (arith, h)
text_lt_trans (x ∷ a) (y ∷ b) [] h k = ground (arith, k)
text_lt_trans (x ∷ a) (y ∷ b) (z ∷ c) h k = ground (arith, h, k, text_lt_trans a b c)
