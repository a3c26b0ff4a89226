-- ===== src/Lending/Target.antt =====
-- The arithmetic of `scoinToBurnForTargetNet` and `ytToBurnForTargetNet`, src/sui/lending/math.ts.
-- d / s is what a share pays, P / S the principal in it, and q is 10,000 less the fee rate r.
use lp_agent.Prelude.{below_or, ℕ, ◌+◌, ◌*◌, ◌≤◌, ◌<◌, inl, inr, arith}
use native.Mathlib.Nat.{mul-le-mul_left, mul-le-mul_right}

module _ (x u a y v b n : ℕ) where
  cross_not : 0 < u → x * u ≤ n * a → n * b < (y + 1) * v → a * v ≤ u * b → y < x → ⊥
  cross_not pos lo hi le lt = omega (
    arith,
    mul-le-mul_right (u * v) lt,
    mul-le-mul_right v lo,
    mul-le-mul_left u hi,
    mul-le-mul_left n le,
    pos,
  )

  -- The floors of n a / u and n b / v are ordered as a / u and b / v are.
  pub floors_le : 0 < u → x * u ≤ n * a → n * b < (y + 1) * v → a * v ≤ u * b → x ≤ y
  floors_le pos lo hi le = elim (below_or y x) [
    | inl lt ↦ absurd (cross_not pos lo hi le lt)
    | inr h ↦ h
  ]

module _ (q r d s S P n e pp : ℕ) where
  above_not :
      (K to : ℕ)
      → to < K
      → 0 < q * S
      → n * d < (e + 1) * s
      → n * P < (pp + 1) * S
      → K * (q + r) * s * S ≤ n * (q * d * S + r * s * P)
      → q * e + r * pp ≤ (q + r) * to
      → ⊥
  above_not K to lt pos ed ep big net = omega (
    arith,
    mul-le-mul_left ((q + r) * s * S) lt,
    mul-le-mul_left (q * S) ed,
    mul-le-mul_left (r * s) ep,
    mul-le-mul_left (s * S) net,
    big,
    pos,
  )

  -- A burn at or above the exact solution of the equation pays the wanted amount.
  pub pays_at_least :
      (K to : ℕ)
      → 0 < q * S
      → n * d < (e + 1) * s
      → n * P < (pp + 1) * S
      → K * (q + r) * s * S ≤ n * (q * d * S + r * s * P)
      → q * e + r * pp ≤ (q + r) * to
      → K ≤ to
  pays_at_least K to pos ed ep big net = elim (below_or to K) [
    | inl lt ↦ absurd (above_not K to lt pos ed ep big net)
    | inr le ↦ le
  ]

  below_not :
      (K to : ℕ)
      → K < to
      → e * s ≤ n * d
      → pp * S ≤ n * P
      → n * (q * d * S + r * s * P) < K * (q + r) * s * S
      → (q + r) * to < q * e + r * pp + (q + r)
      → ⊥
  below_not K to lt ed ep small net = omega (
    arith,
    mul-le-mul_left ((q + r) * s * S) lt,
    mul-le-mul_left (q * S) ed,
    mul-le-mul_left (r * s) ep,
    mul-le-mul_left (s * S) net,
    small,
  )

  -- A burn below it pays the wanted amount at most: the fee is rounded down by less than a unit.
  pub pays_at_most :
      (K to : ℕ)
      → e * s ≤ n * d
      → pp * S ≤ n * P
      → n * (q * d * S + r * s * P) < K * (q + r) * s * S
      → (q + r) * to < q * e + r * pp + (q + r)
      → to ≤ K
  pays_at_most K to ed ep small net = elim (below_or K to) [
    | inl lt ↦ absurd (below_not K to lt ed ep small net)
    | inr le ↦ le
  ]
