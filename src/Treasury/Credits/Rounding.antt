-- ===== src/Treasury/Credits/Rounding.antt =====
-- How `credits_for_amount` rounds: down, never in favour of a split deposit, and within the range
-- of exact JavaScript integers.
use lp_agent.Prelude.{
  ℕ, ◌+◌, ◌*◌, ◌/◌, ◌≤◌, ◌<◌, ◌≡◌, some, arith, ◌⊎◌, inl, inr, Bool-cases, ltb, ltb→lt,
}
use native.Mathlib.Nat.{le-div_iff_mul-le}
use lp_agent.Prelude.Int.{pos}
use lp_agent.Prelude.Division.{div_floor, add-div-le}
use lp_agent.Treasury.Db.{CreditRate}
use lp_agent.Treasury.Credits.{max_safe, clamp, credits_for_amount}

clamp-le : (limit raw : ℕ) → (clamp limit raw ≤ limit) × (clamp limit raw ≤ raw)
unfolding clamp
clamp-le limit raw = ground arith

clamp_under : (limit raw : ℕ) → clamp limit raw < limit → clamp limit raw ≡ raw
unfolding clamp
clamp_under limit raw h = ground arith

clamp_fits : (limit raw : ℕ) → raw ≤ limit → clamp limit raw ≡ raw
unfolding clamp
clamp_fits limit raw h = ground arith

clamp_floor :
    (limit a d : ℕ)
    → 0 < d
    → let c = clamp limit (a / d) in (c ≤ limit) × (c * d ≤ a) × ((c ≡ limit) ⊎ (a < (c + 1) * d))
clamp_floor limit a d h = (
  (clamp-le limit (a / d)).0,
  (le-div_iff_mul-le h).0 (clamp-le limit (a / d)).1,
  elim (Bool-cases (ltb (clamp limit (a / d)) limit)) [
    | inl under ↦ inr (rw (clamp_under limit (a / d) (ltb→lt _ _ under)) (div_floor a d h).1)
    | inr full ↦ inl (ground (arith, clamp-le limit (a / d)))
  ],
)

clamp_split :
    (limit a b c d : ℕ)
    → 0 < d
    → a + b ≡ c
    → c / d ≤ limit
    → clamp limit (a / d) + clamp limit (b / d) ≤ clamp limit (c / d)
clamp_split limit a b c d h e fits =
    rw (clamp_fits limit (c / d) fits, ← e)
      (omega (arith, (clamp-le limit (a / d)).1, (clamp-le limit (b / d)).1, add-div-le a b d h))

-- With a positive denominator the amount needs no test of its own.
credits-eq-clamp :
    (n : ℕ) (r : CreditRate)
    → 0 < r.rate_den
    → credits_for_amount (pos n) (some r) ≡ clamp max_safe (n * r.rate_num / r.rate_den)
unfolding credits_for_amount clamp
credits-eq-clamp n r h = ground arith

-- At a rate with a positive denominator, the credits of a deposit are the largest whole number that
-- the rate allows, up to the largest exact JavaScript integer: never more than amount * num / den,
-- and less than one credit below it unless the limit is reached.
pub credits_round_down :
    (n : ℕ) (r : CreditRate)
    → 0 < r.rate_den
    → let c = credits_for_amount (pos n) (some r) in
      (c ≤ max_safe)
      × (c * r.rate_den ≤ n * r.rate_num)
      × ((c ≡ max_safe) ⊎ (n * r.rate_num < (c + 1) * r.rate_den))
credits_round_down n r h =
    rw (credits-eq-clamp n r h) (clamp_floor max_safe (n * r.rate_num) r.rate_den h)

-- At a rate with a positive denominator, two deposits earn no more credits than one deposit of their sum, as long as that stays below the
-- limit.
pub credits_split :
    (a b : ℕ) (r : CreditRate)
    → 0 < r.rate_den
    → (a + b) * r.rate_num / r.rate_den ≤ max_safe
    → credits_for_amount (pos a) (some r) + credits_for_amount (pos b) (some r)
      ≤ credits_for_amount (pos (a + b)) (some r)
credits_split a b r h fits =
    rw (credits-eq-clamp a r h, credits-eq-clamp b r h, credits-eq-clamp (a + b) r h)
      (clamp_split max_safe (a * r.rate_num) (b * r.rate_num) ((a + b) * r.rate_num) r.rate_den h
        (omega arith) fits)
