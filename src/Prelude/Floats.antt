-- ===== src/Prelude/Floats.antt =====
-- JavaScript's numbers where the source computes with fractions: an interface, so that nothing is
-- assumed about rounding. What a theorem needs of it is a hypothesis of the theorem.
use Prim.Native.Nat.{ℕ}
use Prim.Native.String.{String}
use mathlib.Core.Bool.{Bool}
use mathlib.Core.Option.{Option}
use lp_agent.Prelude.Int.{ℤ}

pub record Floats (F : Type 0) : Type 0 where
  -- `decimal m k` is the literal m / 10 ^ k.
  pub decimal : ℕ → ℕ → F
  pub add : F → F → F
  pub sub : F → F → F
  pub mul : F → F → F
  pub div : F → F → F
  pub max : F → F → F
  pub min : F → F → F
  pub pow : F → F → F
  pub exp : F → F
  pub log : F → F
  pub sqrt : F → F
  pub neg : F → F
  pub abs : F → F
  pub round : F → F
  pub ceil : F → F
  pub floor : F → F
  -- `a > b` and `a >= b`; `a < b` is `gt b a`, also for NaN.
  pub gt : F → F → Bool
  pub ge : F → F → Bool
  pub is_finite : F → Bool
  -- `Number(n)`, and `BigInt(x)`, which throws at a fraction.
  pub of_int : ℤ → F
  pub to_bigint : F → Option ℤ
  pub to_fixed : F → ℕ → String
  pub print : F → String
  pub to_precision : F → ℕ → String
  pub nan : F
  pub infinity : F
  -- `parseFloat(s)` and `Number(s)`.
  pub parse : String → F
  pub number : String → F
