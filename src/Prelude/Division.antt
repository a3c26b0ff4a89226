-- ===== src/Prelude/Division.antt =====
-- Integer division on the native numbers: the floor, monotonicity and sums.
use Prim.Native.Nat.{ℕ, ◌+◌, ◌*◌, ◌/◌, ◌≤◌, ◌<◌}
use native.Mathlib.Nat.{le-div_iff_mul-le}
use native.Mathlib.Omega.{arith}

pub div_floor : (a d : ℕ) → 0 < d → (a / d * d ≤ a) × (a < (a / d + 1) * d)
div_floor a d h = grind arith

pub div_mono : (a b d : ℕ) → 0 < d → a ≤ b → a / d ≤ b / d
div_mono a b d h le = (le-div_iff_mul-le h).1 (omega (arith, (div_floor a d h).0))

pub add-div-le : (a b d : ℕ) → 0 < d → a / d + b / d ≤ (a + b) / d
add-div-le a b d h =
    (le-div_iff_mul-le h).1 (omega (arith, (div_floor a d h).0, (div_floor b d h).0))
