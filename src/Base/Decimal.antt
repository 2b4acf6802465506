-- ===== src/Base/Decimal.antt =====
-- strconv.Itoa, strconv.Atoi and strconv.ParseBool.
use Prim.Native.Nat.{ℕ, zero, suc, ◌+◌, ◌-◌, ◌*◌, ◌/◌, ◌%◌, ◌^◌}
use Prim.Native.Char.{Char, code}
use Prim.Native.String.{String, [], ◌∷◌, ◌++◌, char_at}
use mathlib.Core.Bool.{Bool, true, false, ◌&&◌, ◌||◌}
use mathlib.Core.Option.{Option, none, some}
use text.Mathlib.Text.{◌==◌ as str_eq}
use infracheck_appliance.Base.Tests.{ltb, leb, ◌==◌, if◌then◌else◌}
use infracheck_appliance.Base.Int.{ℤ, pos, negsuc}

digit : ℕ → Char
digit n = char_at "0123456789" (n % 10)

-- The fuel is the number itself, which a division by ten makes smaller as long as it is positive.
digits : ℕ → ℕ → String → String
unfolding digit
digits zero n s = digit n ∷ s
digits (suc fuel) n s =
    let rest = digits fuel (n / 10) (digit n ∷ s) in if ltb n 10 then digit n ∷ s else rest

unfoldable pub utoa : ℕ → String
unfolding digits
utoa n = digits n n []

unfoldable pub itoa : ℤ → String
unfolding utoa
itoa (pos n) = utoa n
itoa (negsuc n) = "-" ++ utoa (suc n)

scan : ℕ → String → Option ℕ
scan n [] = some n
scan n (c ∷ s) =
    let rest = scan (n * 10 + (code c - b'0')) s in
    if leb b'0' (code c) && leb (code c) b'9' then rest else none

-- at least one digit
scan_all : String → Option ℕ
unfolding scan
scan_all [] = none
scan_all (c ∷ s) = scan 0 (c ∷ s)

in_int64 : Option ℕ → Option ℤ
in_int64 none = none
in_int64 (some n) = if ltb n (2 ^ 63) then some (pos n) else none

in_int64_neg : Option ℕ → Option ℤ
in_int64_neg none = none
in_int64_neg (some zero) = some (pos 0)
in_int64_neg (some (suc n)) = if ltb n (2 ^ 63) then some (negsuc n) else none

-- A sign may stand in front; a number outside int64 is an error.
unfoldable pub atoi : String → Option ℤ
unfolding scan_all in_int64 in_int64_neg
atoi [] = none
atoi (c ∷ s) =
    if code c == b'-'
    then in_int64_neg (scan_all s)
    else if code c == b'+'
    then in_int64 (scan_all s)
    else in_int64 (scan_all (c ∷ s))

unfoldable pub parse_bool : String → Option Bool
parse_bool s =
    if str_eq s "1"
      || str_eq s "t"
      || str_eq s "T"
      || str_eq s "TRUE"
      || str_eq s "true"
      || str_eq s "True"
    then some true
    else if str_eq s "0"
        || str_eq s "f"
        || str_eq s "F"
        || str_eq s "FALSE"
        || str_eq s "false"
        || str_eq s "False"
    then some false
    else none
