-- ===== src/Base/Result.antt =====
-- A Go result `(value, error)`, and the answer of an HTTP handler.
use Prim.Native.Nat.{ℕ}
use Prim.Native.String.{String}
use mathlib.Core.Path.{◌≡◌, refl}
use native.Mathlib.Omega.{arith}
use mathlib.Core.Option.{Option, none, some}

pub data Result {ℓ} (A : Type ℓ) : Type ℓ where
  ok : A → Result A
  err : String → Result A

-- `if err != nil { return err }`
abbrev pub and_then {ℓ κ} : {A : Type ℓ} {B : Type κ} → Result A → (A → Result B) → Result B
and_then (ok a) f = f a
and_then (err e) f = err e

pub and_then-ok {ℓ κ} :
    {A : Type ℓ} {B : Type κ} (r : Result A) (f : A → Result B) (b : B)
    → and_then r f ≡ ok b
    → (a : A) × (f a ≡ ok b)
and_then-ok (ok a) f b h = (a, h)
and_then-ok (err e) f b h = ground (arith, h)

pub ok-injective {ℓ} : {A : Type ℓ} (a b : A) → ok a ≡ ok b → a ≡ b
ok-injective a b h = ground (arith, h)

-- `writeJSON`: status 200 with a body, or another status with `{"error": text}`.
pub data Response {ℓ} (A : Type ℓ) : Type ℓ where
  answer : A → Response A
  refuse : ℕ → String → Response A

-- What a statement of the database answers: the error, or what it does.
abbrev pub unless_fault {ℓ} : {A : Type ℓ} → Option String → (String → A) → A → A
unless_fault (some e) broken done = broken e
unless_fault none broken done = done

-- `sql.ErrNoRows`
abbrev pub no_rows : String
no_rows = "sql: no rows in result set"

-- What holds of the error's outcome and of the statement's holds of both.
pub unless_fault-both {ℓ κ} :
    {A : Type ℓ} (P : A → Type κ) (o : Option String) (broken : String → A) (done : A)
    → ((e : String) → P (broken e))
    → P done
    → P (unless_fault o broken done)
unless_fault-both P (some e) broken done h k = h e
unless_fault-both P none broken done h k = k

pub unless_fault-cases {ℓ κ} :
    {A : Type ℓ} (P : A → Type κ) (o : Option String) (broken : String → A) (done : A)
    → ((e : String) → P (broken e))
    → (o ≡ none → P done)
    → P (unless_fault o broken done)
unless_fault-cases P (some e) broken done h k = h e
unless_fault-cases P none broken done h k = k refl

-- Without an error, only what holds of the statement matters.
pub unless_fault-none {ℓ κ} :
    {A : Type ℓ} (P : A → Type κ) (o : Option String) (broken : String → A) (done : A)
    → o ≡ none
    → P done
    → P (unless_fault o broken done)
unless_fault-none P (some e) broken done works k = ground (arith, works)
unless_fault-none P none broken done works k = k

-- A query that answers rows met no error, and answers what it selects.
pub unless_fault-ok {ℓ} :
    {A : Type ℓ} (o : Option String) (x y : A)
    → unless_fault o err (ok x) ≡ ok y
    → (o ≡ none) × (x ≡ y)
unless_fault-ok (some e) x y h = ground (arith, h)
unless_fault-ok none x y h = (refl, ground (arith, h))

-- A statement that answers a value met no error, and leaves the state that it says.
module _ {S A : Type 0} (db after : S) (found : Result A) where
  abbrev pub statement : Option String → S × Result A
  statement o = unless_fault o (λ e. (db, err e)) (after, found)

  pub statement-ok :
      (o : Option String) (x : A)
      → (statement o).1 ≡ ok x
      → (o ≡ none) × ((statement o).0 ≡ after) × (found ≡ ok x)
  statement-ok (some e) x h = ground (arith, h)
  statement-ok none x h = (refl, refl, h)
