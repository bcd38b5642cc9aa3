-- ===== src/Prelude/Floats.antt =====
-- Go's float64 as an interface: the development has no floating-point numbers, so every definition
-- that computes with them takes this record. A theorem that needs laws names them as hypotheses.
use Prim.Native.Nat.{ℕ}
use mathlib.Core.Bool.{Bool}
use ietf_scion_testbed.Prelude.Int.{ℤ}

pub record Float : Type 1 where
  pub F : Type 0
  -- the constant `m / 10 ^ k`, as in `dec 5 1` for 0.5
  pub dec : ℕ → ℕ → F
  -- `math.Inf(1)`
  pub inf : F
  -- the conversion `float64(n)`
  pub of_int : ℤ → F
  -- the conversion to an integer, which drops the fraction, and `math.Round`
  pub to_int : F → ℤ
  pub round : F → F
  pub add : F → F → F
  pub sub : F → F → F
  pub mul : F → F → F
  pub div : F → F → F
  -- `a < b`, `a <= b` and `a == b`, all false at a NaN
  pub lt : F → F → Bool
  pub le : F → F → Bool
  pub eq : F → F → Bool
