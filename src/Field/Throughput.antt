-- ===== src/Field/Throughput.antt =====
-- The sizes of a download (agent/internal/agent/field_api.go) and the ports of a scan
-- (agent/internal/agent/tools_api.go).
use infracheck_appliance.Base.{
  ℕ, ◌+◌, ◌≤◌, ◌<◌, Bool, false, ◌||◌, List, [], ◌∷◌, ◌++◌, ◌≡◌, ◌⊎◌, refl, arith, leb, length, All,
  All-append, length-append, Bool-cases, inl, inr,
}
use infracheck_appliance.Base.Int.{ℤ, pos, ◌≤ℤ◌, ltb_ℤ, leb_ℤ}
use infracheck_appliance.Field.{block_bytes, has_port, ports_loop, sanitize_ports}

abbrev pub total : List ℕ → ℕ
total [] = 0
total (n ∷ ns) = n + total ns

abbrev pub IsBlock : ℕ → Type 0
IsBlock n = (0 < n) × (n ≤ block_bytes)

-- All is written, or some write failed and less is written.
abbrev pub IsCut : (ℕ → Bool) → ℕ → ℕ → List ℕ → Type 0
IsCut written done size blocks =
    (total blocks ≡ size) ⊎ ((written (done + length blocks) ≡ false) × (total blocks < size))

abbrev pub IsPort : ℤ → Type 0
IsPort p = (pos 1 ≤ℤ p) × (p ≤ℤ pos 65535)

abbrev pub Distinct : List ℤ → Type 0
Distinct [] = Unit
Distinct (p ∷ ps) = (has_port p ps ≡ false) × Distinct ps

record IsClean (ports : List ℤ) : Type 0 where
  pub valid : All IsPort ports
  pub distinct : Distinct ports

pub has_port-append :
    (p : ℤ) (xs ys : List ℤ) → has_port p (xs ++ ys) ≡ (has_port p xs || has_port p ys)
has_port-append p [] ys = refl
has_port-append p (x ∷ xs) ys = ground (arith, has_port-append p xs ys)

Distinct-snoc :
    (out : List ℤ) (p : ℤ) → Distinct out → has_port p out ≡ false → Distinct (out ++ p ∷ [])
Distinct-snoc [] p d new = (refl, tt)
Distinct-snoc (q ∷ out) p d new =
    ground (arith, Distinct-snoc out p d.1, has_port-append q out (p ∷ []))

IsClean-snoc :
    (out : List ℤ) (p : ℤ)
    → IsClean out
    → IsPort p
    → has_port p out ≡ false
    → IsClean (out ++ p ∷ [])
IsClean-snoc out p c valid new = record {
  valid = All-append IsPort out (p ∷ []) c.valid (valid, tt);
  distinct = Distinct-snoc out p c.distinct new;
}

-- At most 32 ports, which are valid and stand once each.
pub record IsSanitized (ports : List ℤ) : Type 0 where
  pub few : length ports ≤ 32
  pub valid : All IsPort ports
  pub distinct : Distinct ports

abbrev out_of_range : ℤ → Bool
out_of_range p = leb_ℤ p (pos 0) || ltb_ℤ (pos 65535) p

ports_loop-IsSanitized :
    (out input : List ℤ) → IsClean out → length out < 32 → IsSanitized (ports_loop out input)
unfolding ports_loop
ports_loop-IsSanitized out [] c few = record {
  few = omega (arith, few);
  valid = c.valid;
  distinct = c.distinct;
}
ports_loop-IsSanitized out (p ∷ input) c few = elim (Bool-cases (out_of_range p)) [
  | inl outside ↦ rw outside (ports_loop-IsSanitized out input c few)
  | inr inside ↦ elim (Bool-cases (has_port p out)) [
    | inl old ↦ rw (inside, old) (ports_loop-IsSanitized out input c few)
    | inr new ↦
        let grown = IsClean-snoc out p c (ground arith) new in
        let longer = length-append out (p ∷ []) in
        elim (Bool-cases (leb 32 (length (out ++ p ∷ [])))) [
          | inl full ↦
              rw (inside, new, full)
                (record {
                  few = omega (arith, few, longer);
                  valid = grown.valid;
                  distinct = grown.distinct;
                })
          | inr free ↦
              rw (inside, new, free)
                (ports_loop-IsSanitized (out ++ p ∷ []) input grown (ground (arith, free)))
        ]
  ]
]

-- The ports of a scan are at most 32, each from 1 to 65535, and none stands twice.
pub sanitize_ports-IsSanitized : (input : List ℤ) → IsSanitized (sanitize_ports input)
unfolding sanitize_ports
sanitize_ports-IsSanitized input =
    ports_loop-IsSanitized [] input (record { valid = tt; distinct = tt }) (omega arith)
