-- ===== src/Devices/Samples.antt =====
-- A way to write lists of ports, for runs of the code that stores them.
use infracheck_appliance.Base.{
  ℕ, zero, suc, ◌+◌, String, Bool, true, false, List, [], ◌∷◌, ◌≡◌, refl, arith, ◌==◌,
}
use infracheck_appliance.Base.Int.{ℤ, pos, negsuc}
use infracheck_appliance.Devices.Classify.{Json}
use Prim.Native.Char.{code}

-- A list of numbers as a text: a sign for each, followed by as many ones.
abbrev ones : ℕ → String → String
ones zero s = s
ones (suc n) s = String.◌∷◌ "1" (ones n s)

abbrev pub written : List ℤ → String
written [] = ""
written (pos n ∷ ns) = String.◌∷◌ "+" (ones n (written ns))
written (negsuc n ∷ ns) = String.◌∷◌ "-" (ones n (written ns))

abbrev with_char : Bool → Bool → Bool → ℕ × List ℤ → ℕ × List ℤ
with_char true plus minus (n, ns) = (suc n, ns)
with_char false true minus (n, ns) = (0, pos n ∷ ns)
with_char false false true (n, ns) = (0, negsuc n ∷ ns)
with_char false false false (n, ns) = (0, ns)

abbrev pub read : String → ℕ × List ℤ
read String.[] = (0, [])
read (String.◌∷◌ c s) = with_char (code c == b'1') (code c == b'+') (code c == b'-') (read s)

read-ones : (n : ℕ) (s : String) → read (ones n s) ≡ (n + (read s).0, (read s).1)
read-ones zero s = ground arith
read-ones (suc n) s = ground (arith, read-ones n s)

pub read-written : (ns : List ℤ) → read (written ns) ≡ (0, ns)
read-written [] = refl
read-written (pos n ∷ ns) = ground (arith, read-ones n (written ns), read-written ns)
read-written (negsuc n ∷ ns) = ground (arith, read-ones n (written ns), read-written ns)

abbrev pub port_texts : Json
port_texts = record {
  texts = λ s. ([], false);
  ports = λ s. ((read s).1, false);
  encode_texts = λ ts. "[]";
  encode_ports = written;
}
