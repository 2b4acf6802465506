-- ===== src/Tools/Asked.antt =====
-- Which of the requested ports a scan asks for (agent/internal/agent/field_api.go and tools_api.go).
use infracheck_appliance.Base.{
  Bool, true, false, ◌&&◌, ◌||◌, not, List, [], ◌∷◌, ◌++◌, ◌≡◌, ◌⊎◌, inl, inr, refl, arith, leb,
  length, Bool-cases,
}
use infracheck_appliance.Base.Int.{ℤ, pos, leb_ℤ, ltb_ℤ, eq_ℤ}
use infracheck_appliance.Field.{has_port, sanitize_ports, ports_loop}
use infracheck_appliance.Field.Throughput.{has_port-append}
use infracheck_appliance.Tools.{or_common}

-- A port number from 1 to 65535.
abbrev pub in_range : ℤ → Bool
in_range v = leb_ℤ (pos 1) v && leb_ℤ v (pos 65535)

abbrev pub common_ports : List ℤ
common_ports = pos 22 ∷ pos 80 ∷ pos 443 ∷ pos 445 ∷ pos 3389 ∷ pos 8080 ∷ pos 8443 ∷ []

abbrev refused : ℤ → Bool
refused p = leb_ℤ p (pos 0) || ltb_ℤ (pos 65535) p

same_range : (p v : ℤ) → eq_ℤ p v ≡ true → refused p ≡ not (in_range v)
same_range p v h = ground (arith, h)

same_port : (p v : ℤ) (ports : List ℤ) → eq_ℤ p v ≡ true → has_port p ports ≡ has_port v ports
same_port p v [] h = refl
same_port p v (q ∷ ports) h = ground (arith, h, same_port p v ports h)

-- What is put out stays.
ports_loop-keeps :
    (out input : List ℤ) (v : ℤ)
    → (not (has_port v out) || has_port v (ports_loop out input)) ≡ true
unfolding ports_loop
ports_loop-keeps out [] v = ground arith
ports_loop-keeps out (p ∷ input) v = ground (
  arith,
  ports_loop-keeps out input v,
  ports_loop-keeps (out ++ p ∷ []) input v,
  has_port-append v out (p ∷ []),
)

-- Nothing else than what is asked for is put out.
ports_loop-asked :
    (out input : List ℤ) (v : ℤ)
    → (not (has_port v (ports_loop out input)) || has_port v out || has_port v input) ≡ true
unfolding ports_loop
ports_loop-asked out [] v = ground arith
ports_loop-asked out (p ∷ input) v = ground (
  arith,
  ports_loop-asked out input v,
  ports_loop-asked (out ++ p ∷ []) input v,
  has_port-append v out (p ∷ []),
)

-- A valid port that is asked for is put out, where there is room.
ports_loop-answers :
    (out input : List ℤ) (v : ℤ)
    → (not (has_port v input && in_range v)
        || has_port v (ports_loop out input)
        || leb 32 (length (ports_loop out input)))
      ≡ true
unfolding ports_loop
ports_loop-answers out [] v = refl
ports_loop-answers out (p ∷ input) v = elim (Bool-cases (eq_ℤ p v)) [
  | inl same ↦ ground (
    arith,
    same,
    same_range p v same,
    same_port p v out same,
    ports_loop-keeps out input v,
    ports_loop-keeps (out ++ p ∷ []) input v,
    has_port-append v out (p ∷ []),
  )
  | inr other ↦
      ground
        (arith, other, ports_loop-answers out input v, ports_loop-answers (out ++ p ∷ []) input v)
]

-- The ports of the scan are those of the request that are in the range, of which some may be left out
-- only where 32 are asked for; or the request has none in the range, and they are the common ones.
pub record Requested (request ports : List ℤ) : Type 0 where
  pub asked : (v : ℤ) → (not (has_port v ports) || has_port v request) ≡ true
  pub answered :
      (v : ℤ)
      → (not (has_port v request && in_range v) || has_port v ports || leb 32 (length ports)) ≡ true

abbrev pub IsAsked : List ℤ → List ℤ → Type 0
IsAsked request ports =
    Requested request ports
    ⊎ ((ports ≡ common_ports) × ((v : ℤ) → (has_port v request && in_range v) ≡ false))

sanitize_ports-Requested : (request : List ℤ) → Requested request (sanitize_ports request)
unfolding sanitize_ports
sanitize_ports-Requested request = record {
  asked = λ v. ground (arith, ports_loop-asked [] request v);
  answered = λ v. ports_loop-answers [] request v;
}

or_common-IsAsked :
    (request ports : List ℤ) → Requested request ports → IsAsked request (or_common ports)
or_common-IsAsked request [] r = inr (refl, λ v. ground (arith, r.answered v))
or_common-IsAsked request (p ∷ ps) r = inl r

pub requested-IsAsked : (request : List ℤ) → IsAsked request (or_common (sanitize_ports request))
requested-IsAsked request =
    or_common-IsAsked request (sanitize_ports request) (sanitize_ports-Requested request)
