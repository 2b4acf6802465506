-- ===== src/Probe/Mac.antt =====
-- The text of a MAC (agent/internal/runner/field.go).
use infracheck_appliance.Base.{
  ℕ, zero, suc, ◌-◌, ◌/◌, ◌%◌, ◌<◌, ◌≤◌, String, Bool, true, false, ◌&&◌, ◌||◌, Option, none, some,
  List, [], ◌∷◌, ◌≡◌, refl, sym, ◌∙◌, ap, arith, ◌==◌, leb, ltb, length, All,
}
use infracheck_appliance.Base.Text.{join, ◌<>◌}
use infracheck_appliance.Base.Decimal.{atoi}
use infracheck_appliance.Probe.Snmp.{hex_digit, hex_byte, hex_bytes, byte_of, with_byte, drop}
use text.Mathlib.TextLemmas.{cons-append, nil-append}
use Prim.Native.Char.{Char, code}
use Prim.Native.String.{char_at}

-- A digit or one of the letters from a to f.
abbrev is_hex : Char → Bool
is_hex c = let n = code c in (leb b'0' n && leb n b'9') || (leb b'a' n && leb n b'f')

-- As many pairs of such digits, with a colon between two pairs.
abbrev pub is_pairs : ℕ → String → Bool
is_pairs (suc zero) (String.◌∷◌ c (String.◌∷◌ d String.[])) = is_hex c && is_hex d
is_pairs (suc (suc n)) (String.◌∷◌ c (String.◌∷◌ d (String.◌∷◌ e s))) =
    is_hex c && is_hex d && code e == b':' && is_pairs (suc n) s
is_pairs _ _ = false

-- What holds of the numbers below a bound, one after the other.
abbrev pub HoldsBelow : (ℕ → Bool) → ℕ → Type 0
HoldsBelow p zero = Unit
HoldsBelow p (suc n) = (p n ≡ true) × HoldsBelow p n

pub holds_at : (p : ℕ → Bool) (bound m : ℕ) → HoldsBelow p bound → m < bound → p m ≡ true
holds_at p zero m h below = absurd (omega arith)
holds_at p (suc n) m h below = ground (arith, h.0, holds_at p n m h.1)

abbrev hex_at : ℕ → Bool
hex_at n = is_hex (char_at "0123456789abcdef" n)

hex_at-HoldsBelow : HoldsBelow hex_at 16
hex_at-HoldsBelow = ground arith

hex_digit-hex : (n : ℕ) → is_hex (hex_digit n) ≡ true
hex_digit-hex n = holds_at hex_at 16 (n % 16) hex_at-HoldsBelow (omega arith)

-- The text is that of a byte.
abbrev pub IsByte : String → Type 0
IsByte s = (n : ℕ) × (s ≡ hex_byte n)

one-pair : (n : ℕ) → is_pairs 1 (hex_byte n) ≡ true
unfolding hex_byte
one-pair n = ground (arith, hex_digit-hex (n / 16), hex_digit-hex n)

more-pairs :
    (m n : ℕ) (rest : String)
    → is_pairs (suc m) rest ≡ true
    → is_pairs (suc (suc m)) (hex_byte n <> (":" <> rest)) ≡ true
unfolding hex_byte
more-pairs m n rest h =
    rw
      (
        cons-append (hex_digit (n / 16)) (String.◌∷◌ (hex_digit n) "") (":" <> rest),
        cons-append (hex_digit n) "" (":" <> rest),
        nil-append (":" <> rest),
        cons-append (char_at ":" 0) "" rest,
        nil-append rest,
      )
      (ground (arith, hex_digit-hex (n / 16), hex_digit-hex n, h))

join-pairs :
    (s : String) (ss : List String)
    → All IsByte (s ∷ ss)
    → is_pairs (suc (length ss)) (join (s ∷ ss) ":") ≡ true
unfolding join
join-pairs s [] ((n, same), h) = rw same (one-pair n)
join-pairs s (t ∷ ss) ((n, same), h) =
    rw same (more-pairs (length ss) n (join (t ∷ ss) ":") (join-pairs t ss h))

-- As many texts of bytes.
abbrev pub AreBytes : ℕ → Option (List String) → Type 0
AreBytes n none = Unit
AreBytes n (some ss) = All IsByte ss × (length ss ≡ n)

with_byte-AreBytes :
    (n : ℕ) (b : Option ℕ) (o : Option (List String))
    → AreBytes n o
    → AreBytes (suc n) (with_byte b o)
with_byte-AreBytes n none o h = tt
with_byte-AreBytes n (some m) none h = tt
with_byte-AreBytes n (some m) (some ss) h = (((m, refl), h.0), ap suc h.1)

pub hex_bytes-AreBytes : (parts : List String) → AreBytes (length parts) (hex_bytes parts)
unfolding hex_bytes
hex_bytes-AreBytes [] = (tt, refl)
hex_bytes-AreBytes (part ∷ parts) =
    with_byte-AreBytes (length parts) (byte_of (atoi part)) (hex_bytes parts)
      (hex_bytes-AreBytes parts)

length-drop : (n : ℕ) (xs : List String) → length (drop n xs) ≡ length xs - n
length-drop zero xs = omega arith
length-drop (suc n) [] = omega arith
length-drop (suc n) (x ∷ xs) = length-drop n xs ∙ omega arith

-- The last six parts of a longer list are six.
pub length-last_six :
    (parts : List String)
    → ltb (length parts) 7 ≡ false
    → length (drop (length parts - 6) parts) ≡ 6
length-last_six parts long =
    let enough : 6 ≤ length parts = ground (arith, long) in
    length-drop (length parts - 6) parts ∙ omega (arith, enough)

-- Six bytes are joined to six pairs.
pub join-six : (ss : List String) → All IsByte ss → length ss ≡ 6 → is_pairs 6 (join ss ":") ≡ true
join-six [] h six = absurd (omega (arith, six))
join-six (s ∷ ss) h six = ap (λ n. is_pairs n (join (s ∷ ss) ":")) (sym six) ∙ join-pairs s ss h
