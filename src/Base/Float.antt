-- ===== src/Base/Float.antt =====
-- Go's float64, as an interface: the program computes with it, and the results about the program
-- hold for any operations that meet the laws a result names.
use infracheck_appliance.Base.Int.{ℤ}
use Prim.Native.Nat.{ℕ}
use Prim.Native.String.{String}
use mathlib.Core.Bool.{Bool}

pub record Floats : Type 1 where
  pub F : Type 0
  -- float64(i)
  pub of_int : ℤ → F
  -- the constant `n / d`, rounded to a float64
  pub ratio : ℕ → ℕ → F
  pub add : F → F → F
  pub sub : F → F → F
  pub mul : F → F → F
  pub div : F → F → F
  -- the comparisons `<`, `<=` and `==`
  pub lt : F → F → Bool
  pub le : F → F → Bool
  pub eq : F → F → Bool
  -- math.Max
  pub max : F → F → F
  -- int(f)
  pub to_int : F → ℤ
  -- fmt.Sprintf with the verb %.nf
  pub fixed : ℕ → F → String
