-- ===== src/Runtime/Cidrs.antt =====
-- `normalizeCIDRs` (agent/internal/agent/config_api.go).
use infracheck_appliance.Base.{
  String, Bool, false, ◌||◌, List, [], ◌∷◌, ◌++◌, ◌≡◌, ◌≢◌, refl, arith, if◌then◌else◌, str_eq,
  eq_iff, All, any, All-append, not, ◌&&◌, map, append-nil, append_assoc, Bool-cases, inl, inr, ap,
  ◌∙◌,
}
use infracheck_appliance.Base.Text.{trim_space}
use infracheck_appliance.Base.Trim.{trim_space_idem}

abbrev pub member : String → List String → Bool
member x = any (λ y. str_eq y x)

-- The loop, with what it has put out so far; `seen` holds exactly these.
normalize_loop : List String → List String → List String
normalize_loop out [] = out
normalize_loop out (value ∷ rest) =
    let v = trim_space value in
    normalize_loop (if str_eq v "" || member v out then out else out ++ v ∷ []) rest

unfoldable pub normalize_cidrs : List String → List String
unfolding normalize_loop
normalize_cidrs = normalize_loop []

-- No element stands twice.
abbrev pub Distinct : List String → Type 0
Distinct [] = Unit
Distinct (x ∷ xs) = (member x xs ≡ false) × Distinct xs

abbrev pub IsClean : String → Type 0
IsClean x = (x ≢ "") × (trim_space x ≡ x)

pub record IsNormal (xs : List String) : Type 0 where
  pub clean : All IsClean xs
  pub distinct : Distinct xs

member-append :
    (x : String) (xs ys : List String) → member x (xs ++ ys) ≡ (member x xs || member x ys)
member-append x [] ys = refl
member-append x (y ∷ xs) ys = ground (arith, member-append x xs ys)

Distinct-snoc :
    (xs : List String) (x : String) → Distinct xs → member x xs ≡ false → Distinct (xs ++ x ∷ [])
Distinct-snoc [] x d h = ground arith
Distinct-snoc (y ∷ xs) x d h =
    ground (arith, member-append y xs (x ∷ []), Distinct-snoc xs x d.1, eq_iff y x, eq_iff x y)

abbrev step : List String → String → List String
step out v = if str_eq v "" || member v out then out else out ++ v ∷ []

step-IsNormal :
    (out : List String) (value : String) → IsNormal out → IsNormal (step out (trim_space value))
step-IsNormal out value n =
    elim (Bool-cases (str_eq (trim_space value) "" || member (trim_space value) out)) [
      | inl skip ↦ rw skip n
      | inr new ↦ rw new (record {
        clean =
            All-append IsClean out _ n.clean
              ((ground (arith, eq_iff (trim_space value) ""), trim_space_idem value), tt);
        distinct = Distinct-snoc out (trim_space value) n.distinct (ground arith);
      })
    ]

loop-IsNormal : (out xs : List String) → IsNormal out → IsNormal (normalize_loop out xs)
unfolding normalize_loop
loop-IsNormal out [] n = n
loop-IsNormal out (x ∷ xs) n = loop-IsNormal (step out (trim_space x)) xs (step-IsNormal out x n)

-- What `normalizeCIDRs` answers holds no empty text, no text with white space at an end, and no
-- text twice.
pub normalize_cidrs-IsNormal : (xs : List String) → IsNormal (normalize_cidrs xs)
unfolding normalize_cidrs
normalize_cidrs-IsNormal xs = loop-IsNormal [] xs (record { clean = tt; distinct = tt })

member-step :
    (y : String) (out : List String) (v : String)
    → member y (step out v) ≡ (member y out || (not (str_eq y "") && str_eq v y))
member-step y out v =
    ground (arith, member-append y out (v ∷ []), eq_iff v y, eq_iff v "", eq_iff y "")

loop-member :
    (y : String) (out xs : List String)
    → member y (normalize_loop out xs)
      ≡ (member y out || (not (str_eq y "") && member y (map trim_space xs)))
unfolding normalize_loop
loop-member y out [] = ground arith
loop-member y out (x ∷ xs) =
    ground (arith, loop-member y (step out (trim_space x)) xs, member-step y out (trim_space x))

-- A text is in the answer exactly if it is not empty and is some input with its ends trimmed.
pub member-normalize_cidrs :
    (y : String) (xs : List String)
    → member y (normalize_cidrs xs) ≡ (not (str_eq y "") && member y (map trim_space xs))
unfolding normalize_cidrs
member-normalize_cidrs y xs = loop-member y [] xs

-- Read from the left, no element is among those before it.
abbrev Unseen : List String → List String → Type 0
Unseen out [] = Unit
Unseen out (x ∷ xs) = (member x out ≡ false) × Unseen (out ++ x ∷ []) xs

or-false : (a b : Bool) → a ≡ false → b ≡ false → (a || b) ≡ false
or-false a b h k = ground arith

step_new :
    (out : List String) (x : String)
    → IsClean x
    → member x out ≡ false
    → step out (trim_space x) ≡ out ++ x ∷ []
step_new out x c u = rw (c.1, or-false (str_eq x "") (member x out) (ground (arith, eq_iff x "")) u)

loop-id :
    (out xs : List String) → All IsClean xs → Unseen out xs → normalize_loop out xs ≡ out ++ xs
unfolding normalize_loop
loop-id out [] c u = rw append-nil
loop-id out (x ∷ xs) c u =
    ap (λ o. normalize_loop o xs) (step_new out x c.0 u.0)
    ∙ loop-id (out ++ x ∷ []) xs c.1 u.1
    ∙ append_assoc out (x ∷ []) xs

unseen_snoc :
    (out xs : List String) (x : String)
    → member x xs ≡ false
    → All (λ y. member y out ≡ false) xs
    → All (λ y. member y (out ++ x ∷ []) ≡ false) xs
unseen_snoc out [] x m h = tt
unseen_snoc out (y ∷ xs) x m h = (
  ground (arith, member-append y out (x ∷ []), eq_iff y x, eq_iff x y),
  unseen_snoc out xs x (ground arith) h.1,
)

Distinct-Unseen :
    (out xs : List String) → Distinct xs → All (λ x. member x out ≡ false) xs → Unseen out xs
Distinct-Unseen out [] d h = tt
Distinct-Unseen out (x ∷ xs) d h =
    (h.0, Distinct-Unseen (out ++ x ∷ []) xs d.1 (unseen_snoc out xs x d.0 h.1))

All-unseen : (xs : List String) → All (λ x. member x [] ≡ false) xs
All-unseen [] = tt
All-unseen (x ∷ xs) = (refl, All-unseen xs)

-- Normalising a list that is normal answers the same list, in its order.
pub normalize_cidrs-id : (xs : List String) → IsNormal xs → normalize_cidrs xs ≡ xs
unfolding normalize_cidrs
normalize_cidrs-id xs n = loop-id [] xs n.clean (Distinct-Unseen [] xs n.distinct (All-unseen xs))

-- Normalising twice is normalising once.
pub normalize_cidrs_idem :
    (xs : List String) → normalize_cidrs (normalize_cidrs xs) ≡ normalize_cidrs xs
normalize_cidrs_idem xs = normalize_cidrs-id (normalize_cidrs xs) (normalize_cidrs-IsNormal xs)
