-- ===== src/Lending/Fee.antt =====
-- The yield fee of src/sui/lending/math.ts.
use lp_agent.Prelude.{
  below_or, ℕ, ◌+◌, ◌-◌, ◌*◌, ◌/◌, ◌≤◌, ◌<◌, ◌≡◌, ap, ◌⊎◌, inl, inr, ltb, arith, if◌then◌else◌,
}
use native.Mathlib.Nat.{mul-le-mul_left, mul-le-mul_right}
use lp_agent.Prelude.Division.{div_floor}
use lp_agent.Lending.{YieldFee, apply_yield_fee, ok, fee_denominator, max_fee_rate}

abbrev pub interest_of : ℕ → ℕ → ℕ
interest_of redeemed principal = if ltb principal redeemed then redeemed - principal else 0

interest_none : (x p : ℕ) → x ≤ p → interest_of x p ≡ 0
interest_none x p h = ground arith

interest_some : (x p : ℕ) → p ≤ x → interest_of x p ≡ x - p
interest_some x p h = ground arith

abbrev pub fee_of : ℕ → ℕ → ℕ → YieldFee
fee_of redeemed principal rate = record {
  interest = interest_of redeemed principal;
  fee_amount = interest_of redeemed principal * rate / fee_denominator;
  to_balance = redeemed - interest_of redeemed principal * rate / fee_denominator;
}

pub apply_yield_fee-ok :
    (redeemed principal rate : ℕ)
    → rate ≤ max_fee_rate
    → apply_yield_fee redeemed principal rate ≡ ok (fee_of redeemed principal rate)
unfolding apply_yield_fee
apply_yield_fee-ok redeemed principal rate h = ground arith

pub no_interest :
    (redeemed principal rate : ℕ)
    → redeemed ≤ principal
    → (fee_of redeemed principal rate).to_balance ≡ redeemed
no_interest redeemed principal rate h = omega (
  arith,
  interest_none redeemed principal h,
  ap (λ i. i * rate / fee_denominator) (interest_none redeemed principal h),
)

-- The fee's floor, bounded from above by the rate's share of the interest.
pub share :
    (i rate : ℕ)
    → rate ≤ max_fee_rate
    → (i * rate / fee_denominator * fee_denominator ≤ i * rate)
      × (i * rate ≤ i * max_fee_rate)
      × (i * rate / fee_denominator ≤ i)
share i rate h = grind arith

pub net_of_fee :
    (redeemed principal rate : ℕ)
    → rate ≤ max_fee_rate
    → principal ≤ redeemed
    → fee_denominator * redeemed + rate * principal
      ≤ fee_denominator * (fee_of redeemed principal rate).to_balance + rate * redeemed
net_of_fee redeemed principal rate h le =
    grind (arith, interest_some redeemed principal le, share (redeemed - principal) rate h)

interest_share : (x p rate : ℕ) → p ≤ x → (x - p) * rate + p * rate ≡ x * rate
interest_share x p rate h = omega (arith, ap (λ k. k * rate) joined)
  where
    joined : (x - p) + p ≡ x
    joined = omega arith

-- The other bound of the floor: what is kept of the fee is less than one unit.
pub net_of_fee_upper :
    (redeemed principal rate : ℕ)
    → rate ≤ max_fee_rate
    → principal ≤ redeemed
    → fee_denominator * (fee_of redeemed principal rate).to_balance + rate * redeemed
      < fee_denominator * redeemed + rate * principal + fee_denominator
net_of_fee_upper redeemed principal rate h le = rw (interest_some redeemed principal le) (
    omega (
      arith,
      share (redeemed - principal) rate h,
      interest_share redeemed principal rate le,
      div_floor ((redeemed - principal) * rate) fee_denominator (omega arith),
    ))

interest_step : (x y p q : ℕ) → x ≤ y → p ≤ q → interest_of y q ≤ interest_of x p + (y - x)
interest_step x y p q le le' = ground arith

pub interest_le : (x p : ℕ) → interest_of x p ≤ x
interest_le x p = ground arith

fee_step :
    (i j d rate : ℕ)
    → rate ≤ max_fee_rate
    → j ≤ i + d
    → j * rate / fee_denominator ≤ i * rate / fee_denominator + d
fee_step i j d rate h le = omega (
  arith,
  div_floor (j * rate) fee_denominator (omega arith),
  div_floor (i * rate) fee_denominator (omega arith),
  products,
)
  where
    products : j * rate ≤ i * rate + d * fee_denominator
    products = grind (arith, mul-le-mul_right rate le, mul-le-mul_left d h)

-- A redeem that pays out more never nets less, and neither does one with more principal in it.
pub net_mono :
    (x y p q rate : ℕ)
    → rate ≤ max_fee_rate
    → x ≤ y
    → p ≤ q
    → (fee_of x p rate).to_balance ≤ (fee_of y q rate).to_balance
net_mono x y p q rate h le le' = omega (
  arith,
  interest_le x p,
  interest_le y q,
  fee_step (interest_of x p) (interest_of y q) (y - x) rate h (interest_step x y p q le le'),
  share (interest_of x p) rate h,
  share (interest_of y q) rate h,
)

pub fee_within :
    (x p rate : ℕ)
    → rate ≤ max_fee_rate
    → ((fee_of x p rate).to_balance + (fee_of x p rate).fee_amount ≡ x)
      × ((fee_of x p rate).fee_amount * fee_denominator ≤ (fee_of x p rate).interest * rate)
      × (((fee_of x p rate).to_balance ≡ x) ⊎ (p ≤ (fee_of x p rate).to_balance))
fee_within x p rate h = elim (below_or p x) [
  | inl lt ↦ (
    omega (arith, interest_le x p, share (interest_of x p) rate h),
    (share (interest_of x p) rate h).0,
    inr (omega (arith, interest_some x p (omega (arith, lt)), share (interest_of x p) rate h, lt)),
  )
  | inr le ↦ (
    omega (arith, interest_le x p, share (interest_of x p) rate h),
    (share (interest_of x p) rate h).0,
    inl (no_interest x p rate le),
  )
]
