-- ===== src/Probe/Located.antt =====
-- The MACs that a switch has learnt (agent/internal/runner/field.go), in the form in which devices are
-- looked up (agent/internal/agent/diagnostics_api.go).
use infracheck_appliance.Base.{
  ℕ, String, Bool, true, ◌&&◌, ◌||◌, Option, none, some, List, [], ◌∷◌, ◌≡◌, leb, All,
}
use infracheck_appliance.Base.Dict.{Dict}
use infracheck_appliance.Current.Switches.{SwitchPortLocation, normal_mac}
use infracheck_appliance.Probe.Mac.{is_pairs}
use Prim.Native.Char.{Char, code}
use Prim.Native.String.{char_at}

-- A lower hexadecimal digit or a colon.
abbrev plain_char : Char → Bool
plain_char c = let n = code c in (leb 48 n && leb n 58) || (leb 97 n && leb n 102)

abbrev plain : String → Bool
plain String.[] = true
plain (String.◌∷◌ c s) = plain_char c && plain s

abbrev plain_digit : ℕ → Bool
plain_digit n = plain_char (char_at "0123456789abcdef" n)

abbrev IsPlain : Option (List String) → Type 0
IsPlain none = Unit
IsPlain (some ss) = All (λ s. plain s ≡ true) ss

-- The MAC is six pairs of lower hexadecimal digits, with colons between them, and the look-up leaves it
-- as it is.
abbrev pub IsNormal : SwitchPortLocation → Type 0
IsNormal l = (is_pairs 6 l.mac ≡ true) × (normal_mac l.mac ≡ l.mac)
