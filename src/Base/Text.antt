-- ===== src/Base/Text.antt =====
-- The functions of Go's `strings` package that the source calls. Case and white space are those of
-- ASCII: a character above 127 is left as it is, and trimmed by none of them.
use Prim.Native.Nat.{ℕ, ◌-◌}
use Prim.Native.Char.{Char, code}
use Prim.Native.String.{String, [], ◌∷◌, ◌++◌, char_at, len, find, slice}
use mathlib.Core.Bool.{Bool, true, false, ◌&&◌, ◌||◌}
use mathlib.Core.List.{List}
use text.Mathlib.Text.{starts_with, ◌==◌ as str_eq}
use infracheck_appliance.Base.Tests.{leb, ltb, ◌==◌, if◌then◌else◌}
pub use Prim.Native.String.{◌++◌ as ◌<>◌}

-- `a < b` on texts: Go and SQLite both compare the bytes, whose order is that of the characters' codes.
abbrev pub text_lt : String → String → Bool
text_lt a [] = false
text_lt [] (d ∷ b) = true
text_lt (c ∷ a) (d ∷ b) = ltb (code c) (code d) || (code c == code d && text_lt a b)

abbrev pub is_upper : Char → Bool
is_upper c = leb b'A' (code c) && leb (code c) b'Z'

abbrev lower_char : Char → Char
lower_char c = if is_upper c then char_at "abcdefghijklmnopqrstuvwxyz" (code c - b'A') else c

-- strings.ToLower
unfoldable pub to_lower : String → String
to_lower [] = []
to_lower (c ∷ s) = lower_char c ∷ to_lower s

-- unicode.IsSpace, below 128
abbrev pub is_space : Char → Bool
is_space c = let n = code c in n == 32 || (leb 9 n && leb n 13)

-- strings.TrimLeft and strings.TrimRight with a test on characters
unfoldable pub trim_left : (Char → Bool) → String → String
trim_left p [] = []
trim_left p (c ∷ s) = let rest = trim_left p s in if p c then rest else c ∷ s

abbrev pub put_front : (Char → Bool) → Char → String → String
put_front p c [] = if p c then [] else c ∷ []
put_front p c (d ∷ s) = c ∷ d ∷ s

unfoldable pub trim_right : (Char → Bool) → String → String
trim_right p [] = []
trim_right p (c ∷ s) = put_front p c (trim_right p s)

-- strings.TrimSpace
unfoldable pub trim_space : String → String
unfolding trim_left trim_right
trim_space s = trim_right is_space (trim_left is_space s)

-- strings.Contains
unfoldable pub contains : String → String → Bool
contains s t = leb (find s t) (len s)

-- strings.HasPrefix
unfoldable pub has_prefix : String → String → Bool
has_prefix s t = starts_with s t

-- strings.TrimPrefix
unfoldable pub trim_prefix : String → String → String
trim_prefix s t = if starts_with s t then slice s (len t) (len s) else s

-- strings.ReplaceAll(s, "-", ":")
unfoldable pub dashes_to_colons : String → String
dashes_to_colons [] = []
dashes_to_colons (c ∷ s) = (if code c == b'-' then char_at ":" 0 else c) ∷ dashes_to_colons s

-- `s[n:]`, for a position in the text
unfoldable pub slice_from : ℕ → String → String
slice_from n s = slice s n (len s)

-- The first text that is not empty.
abbrev pub first_non_empty : List String → String
first_non_empty List.[] = []
first_non_empty (List.◌∷◌ s rest) =
    let later = first_non_empty rest in if str_eq s [] then later else s

-- strings.Join
unfoldable pub join : List String → String → String
join List.[] sep = []
join (List.◌∷◌ s List.[]) sep = s
join (List.◌∷◌ s rest) sep = s ++ sep ++ join rest sep

-- strings.TrimSuffix(s, ".")
unfoldable pub trim_dot : String → String
trim_dot [] = []
trim_dot (c ∷ []) = if code c == b'.' then [] else c ∷ []
trim_dot (c ∷ d ∷ s) = c ∷ trim_dot (d ∷ s)

-- strings.TrimSuffix
unfoldable pub trim_suffix : String → String → String
trim_suffix s t = let n = len s - len t in if str_eq (slice s n (len s)) t then slice s 0 n else s
