-- ===== src/Base/Lines.antt =====
-- The functions of Go's `strings` and `bufio` packages that cut the output of a program into lines and
-- words. A scanner's limit of 64 KiB for a line is left out.
use Prim.Native.Nat.{ℕ, zero, suc, ◌+◌}
use Prim.Native.Char.{Char, code}
use Prim.Native.String.{String, ◌++◌, len, find, slice}
use mathlib.Core.Path.{◌≡◌, refl, ap, ◌∙◌}
use mathlib.Core.Logic.{inl, inr}
use mathlib.Core.Bool.{Bool, true, false, not, ◌&&◌}
use mathlib.Core.Option.{Option, none, some}
use mathlib.Core.List.{List, [], ◌∷◌, map}
use native.Mathlib.Omega.{arith}
use text.Mathlib.TextLemmas.{cons-append, nil-append}
use text.Mathlib.Text.{◌==◌ as str_eq}
use infracheck_appliance.Base.Tests.{Bool-cases, leb, ◌==◌, if◌then◌else◌}
use infracheck_appliance.Base.Lists.{All}
use infracheck_appliance.Base.Text.{is_space, trim_left, trim_right, join}

-- A character in front of the first piece.
abbrev pub glue : Char → List String → List String
glue c [] = String.◌∷◌ c String.[] ∷ []
glue c (w ∷ ws) = String.◌∷◌ c w ∷ ws

-- strings.Split(s, d), for a separator of one character
unfoldable pub split : ℕ → String → List String
split d String.[] = "" ∷ []
split d (String.◌∷◌ c s) = let rest = split d s in if code c == d then "" ∷ rest else glue c rest

abbrev ends_word : String → Bool
ends_word String.[] = true
ends_word (String.◌∷◌ c s) = is_space c

-- strings.Fields
unfoldable pub fields : String → List String
fields String.[] = []
fields (String.◌∷◌ c s) =
    let rest = fields s in
    if is_space c
    then rest
    else (if ends_word s then String.◌∷◌ c String.[] ∷ rest else glue c rest)

-- strings.Trim, for a set of characters
unfoldable pub trim : (Char → Bool) → String → String
trim p s = trim_right p (trim_left p s)

-- strings.SplitN(s, t, 2): the two parts, where the separator stands in the text
unfoldable pub cut : String → String → Option (String × String)
cut s t =
    let n = find s t in
    if leb n (len s) then some (slice s 0 n, slice s (n + len t) (len s)) else none

abbrev drop_return : String → String
drop_return String.[] = ""
drop_return (String.◌∷◌ c String.[]) = if code c == 13 then "" else String.◌∷◌ c String.[]
drop_return (String.◌∷◌ c (String.◌∷◌ d s)) = String.◌∷◌ c (drop_return (String.◌∷◌ d s))

abbrev without_last_empty : List String → List String
without_last_empty [] = []
without_last_empty (s ∷ []) = if str_eq s "" then [] else s ∷ []
without_last_empty (s ∷ t ∷ ss) = s ∷ without_last_empty (t ∷ ss)

-- What a bufio.Scanner reads, line after line
unfoldable pub scan_lines : String → List String
scan_lines s = map drop_return (without_last_empty (split b'\n' s))

-- A text without white space.
abbrev pub no_space : String → Bool
no_space String.[] = true
no_space (String.◌∷◌ c s) = not (is_space c) && no_space s

-- What `fields` answers as a word.
abbrev pub is_word : String → Bool
is_word String.[] = false
is_word (String.◌∷◌ c s) = no_space (String.◌∷◌ c s)

pub fields-word : (w s : String) → is_word w ≡ true → fields (w ++ " " ++ s) ≡ w ∷ fields s
unfolding fields
fields-word String.[] s h = ground (arith, h)
fields-word (String.◌∷◌ c String.[]) s h =
    rw (cons-append c "" (" " ++ s), nil-append (" " ++ s), cons-append " " "" s, nil-append s)
      (ground (arith, h))
fields-word (String.◌∷◌ c (String.◌∷◌ d w)) s h =
    let ih = fields-word (String.◌∷◌ d w) s (ground (arith, h)) in
    rw (cons-append c (String.◌∷◌ d w) (" " ++ s)) (
      rw (cons-append d w (" " ++ s))
        (ground (arith, h, ap fields (cons-append d w (" " ++ s)), ih)))

pub fields-last : (w : String) → is_word w ≡ true → fields w ≡ w ∷ []
unfolding fields
fields-last String.[] h = ground (arith, h)
fields-last (String.◌∷◌ c String.[]) h = ground (arith, h)
fields-last (String.◌∷◌ c (String.◌∷◌ d w)) h = ground (arith, h, fields-last (String.◌∷◌ d w))

-- A text that does not hold the separator.
abbrev pub lacks : ℕ → String → Bool
lacks d String.[] = true
lacks d (String.◌∷◌ c s) = not (code c == d) && lacks d s

pub split-line :
    (w s : String) → lacks b'\n' w ≡ true → split b'\n' (w ++ "\n" ++ s) ≡ w ∷ split b'\n' s
unfolding split
split-line String.[] s h = rw (nil-append ("\n" ++ s), cons-append "\n" "" s, nil-append s) refl
split-line (String.◌∷◌ c w) s h =
    rw (cons-append c w ("\n" ++ s)) (ground (arith, h, split-line w s))

-- Words with one space between them are read back.
pub fields-join : (ws : List String) → All (λ w. is_word w ≡ true) ws → fields (join ws " ") ≡ ws
unfolding join
fields-join [] h = unfold fields in refl
fields-join (w ∷ []) h = fields-last w h.0
fields-join (w ∷ v ∷ ws) h =
    fields-word w (join (v ∷ ws) " ") h.0
    ∙ ap (λ (t : List String). w ∷ t) (fields-join (v ∷ ws) h.1)

-- A text that stands on one line.
abbrev pub is_line : String → Bool
is_line s = lacks b'\n' s && lacks b'\r' s

-- The texts, each with the end of its line
pub lines : List String → String
lines [] = ""
lines (s ∷ ss) = s ++ "\n" ++ lines ss

split-cons : (d : ℕ) (s : String) → (x : String) × (xs : List String) × (split d s ≡ x ∷ xs)
unfolding split
split-cons d String.[] = ("", [], refl)
split-cons d (String.◌∷◌ c s) =
    let (x, xs, e) = split-cons d s in
    elim (Bool-cases (code c == d)) [
      | inl here ↦ ("", split d s, rw here refl)
      | inr later ↦ (String.◌∷◌ c x, xs, rw (later, e) refl)
    ]

drop_return-line : (s : String) → lacks b'\r' s ≡ true → drop_return s ≡ s
drop_return-line String.[] h = refl
drop_return-line (String.◌∷◌ c String.[]) h = ground (arith, h)
drop_return-line (String.◌∷◌ c (String.◌∷◌ d s)) h =
    ap (String.◌∷◌ c) (drop_return-line (String.◌∷◌ d s) (ground (arith, h)))

without_last_empty-cons :
    (x : String) (xs : List String) (y : String) (ys : List String)
    → xs ≡ y ∷ ys
    → without_last_empty (x ∷ xs) ≡ x ∷ without_last_empty xs
without_last_empty-cons x xs y ys h = rw h refl

-- Texts that stand on one line each are read back.
pub scan_lines-lines :
    (ss : List String) → All (λ s. is_line s ≡ true) ss → scan_lines (lines ss) ≡ ss
unfolding scan_lines lines
scan_lines-lines [] h = unfold split in refl
scan_lines-lines (s ∷ ss) h =
    let (y, ys, e) = split-cons b'\n' (lines ss) in
    ap (λ (t : List String). map drop_return (without_last_empty t))
      (split-line s (lines ss) (ground (arith, h.0)))
    ∙ ap (map drop_return) (without_last_empty-cons s (split b'\n' (lines ss)) y ys e)
    ∙ ap (λ (t : String). t ∷ scan_lines (lines ss)) (drop_return-line s (ground (arith, h.0)))
    ∙ ap (λ (t : List String). s ∷ t) (scan_lines-lines ss h.1)

lacks-append : (d : ℕ) (s t : String) → lacks d (s ++ t) ≡ (lacks d s && lacks d t)
lacks-append d String.[] t = rw (nil-append t) refl
lacks-append d (String.◌∷◌ c s) t = rw (cons-append c s t) (ground (arith, lacks-append d s t))

word-is_line : (w : String) → no_space w ≡ true → is_line w ≡ true
word-is_line String.[] h = refl
word-is_line (String.◌∷◌ c s) h = ground (arith, h, word-is_line s)

is_word-no_space : (w : String) → is_word w ≡ true → no_space w ≡ true
is_word-no_space String.[] h = refl
is_word-no_space (String.◌∷◌ c s) h = h

pub join-is_line :
    (ws : List String) → All (λ w. is_word w ≡ true) ws → is_line (join ws " ") ≡ true
unfolding join
join-is_line [] h = refl
join-is_line (w ∷ []) h = word-is_line w (is_word-no_space w h.0)
join-is_line (w ∷ v ∷ ws) h =
    let rest = join (v ∷ ws) " " in
    ground (
      arith,
      lacks-append b'\n' w (" " ++ rest),
      lacks-append b'\r' w (" " ++ rest),
      lacks-append b'\n' " " rest,
      lacks-append b'\r' " " rest,
      word-is_line w (is_word-no_space w h.0),
      join-is_line (v ∷ ws) h.1,
    )

-- strings.Split, for a separator that is not empty. The fuel bounds the number of pieces; the text's
-- length is enough, since each separator has at least one byte.
pub pieces : ℕ → String → String → List String
pieces zero s t = s ∷ []
pieces (suc fuel) s t = elim (cut s t) [ none ↦ s ∷ [] | some (a, b) ↦ a ∷ pieces fuel b t ]

unfoldable pub split_text : String → String → List String
unfolding pieces
split_text s t = pieces (len s) s t
