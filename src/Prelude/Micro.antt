-- ===== src/Prelude/Micro.antt =====
-- Fixed-point numbers with six places, on which the code over floating-point numbers is run.
use Prim.Native.Nat.{ℕ, ◌+◌, ◌-◌, ◌*◌, ◌/◌, ◌^◌}
use mathlib.Core.Option.{some}
use lp_agent.Prelude.Tests.{ltb, leb, if◌then◌else◌}
use lp_agent.Prelude.Floats.{Floats}
use lp_agent.Prelude.Int.{pos, pos_part}

-- Numbers of 10 ^ 9 and more stand for those that are not finite.
abbrev pub micro : Floats ℕ
micro = record {
  decimal = λ m k. m * 10 ^ (6 - k);
  add = λ a b. a + b;
  sub = λ a b. a - b;
  mul = λ a b. a * b / 10 ^ 6;
  div = λ a b. a * 10 ^ 6 / b;
  max = λ a b. if ltb a b then b else a;
  min = λ a b. if ltb a b then a else b;
  pow = λ a b. a ^ (b / 10 ^ 6);
  exp = λ a. 0;
  log = λ a. a;
  sqrt = λ a. a;
  neg = λ a. 0;
  abs = λ a. a;
  round = λ a. (a + 5 * 10 ^ 5) / 10 ^ 6 * 10 ^ 6;
  ceil = λ a. (a + (10 ^ 6 - 1)) / 10 ^ 6 * 10 ^ 6;
  floor = λ a. a / 10 ^ 6 * 10 ^ 6;
  gt = λ a b. ltb b a;
  ge = λ a b. leb b a;
  is_finite = λ a. ltb a (10 ^ 9);
  of_int = λ n. pos_part n * 10 ^ 6;
  to_bigint = λ a. some (pos (a / 10 ^ 6));
  to_fixed = λ a k. "";
  print = λ a. "";
  to_precision = λ a k. "";
  nan = 10 ^ 9;
  infinity = 10 ^ 9;
  parse = λ s. 10 ^ 6;
  number = λ s. 10 ^ 6;
}
