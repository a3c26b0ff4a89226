-- ===== src/Lending/Redeeming.antt =====
-- What a simulated redeem of src/sui/lending/math.ts pays, and the cap on a burn.
use lp_agent.Prelude.{
  below_or, ℕ, ◌+◌, ◌-◌, ◌*◌, ◌/◌, ◌≤◌, ◌<◌, ◌≡◌, ◌⊎◌, inl, inr, arith, some, none,
}
use native.Mathlib.Nat.{mul-le-mul_left, mul-le-mul_right, div-le_of_le-mul}
use lp_agent.Prelude.Division.{div_mono}
use lp_agent.Lending.{
  RedeemPrediction, ok, fee_denominator, max_fee_rate, ScallopReserveSnapshot, ScallopVaultSnapshot,
  predict_scallop_redeem, scallop_principal_portion, cap_redeem_burn_raw,
}
use lp_agent.Lending.Fee.{net_mono, fee_within}
use lp_agent.Lending.Scallop.{predicted, predict-ok, scallop_denom-ok}

portion_mono :
    (P S n m : ℕ) → n ≤ m → scallop_principal_portion P S n ≤ scallop_principal_portion P S m
unfolding scallop_principal_portion
portion_mono P S n m h = elim (below_or 0 S) [
  | inl pos ↦ grind (arith, div_mono (P * n) (P * m) S pos (mul-le-mul_left P h), capped)
  | inr empty ↦ ground arith
]
  where
    capped : n ≤ S → P * n / S ≤ P
    capped le = div-le_of_le-mul S (omega (arith, mul-le-mul_left P le))

module _ (reserve : ScallopReserveSnapshot) (vault : ScallopVaultSnapshot) (rate : ℕ)
    (solvent : reserve.revenue < reserve.cash + reserve.debt) (s_pos : 0 < reserve.supply)
    (rate_le : rate ≤ max_fee_rate) where
  abbrev denom : ℕ
  denom = reserve.cash + reserve.debt - reserve.revenue

  abbrev sim_at : ℕ → RedeemPrediction
  sim_at = predicted reserve vault denom rate

  simulated : (n : ℕ) → predict_scallop_redeem reserve vault n rate ≡ ok (sim_at n)
  simulated n =
      predict-ok reserve vault denom n rate (scallop_denom-ok reserve solvent) s_pos rate_le

  -- A redeem from a solvent reserve of positive supply at an admissible rate pays out all of the
  -- underlying but the fee, which is at most the rate's share of the interest, so the principal is
  -- never charged.
  pub fee_takes_interest_only :
      (n : ℕ)
      → (sim : RedeemPrediction) × (predict_scallop_redeem reserve vault n rate ≡ ok sim)
        × (sim.to_balance + sim.fee_amount ≡ sim.expected_underlying)
        × (sim.fee_amount * fee_denominator ≤ sim.interest * rate)
        × ((sim.to_balance ≡ sim.expected_underlying) ⊎ (sim.principal_portion ≤ sim.to_balance))
  unfolding predicted
  fee_takes_interest_only n =
      let (all, share, kept) =
        fee_within (n * denom / reserve.supply)
          (scallop_principal_portion vault.principal_total vault.scoin_total n) rate rate_le in
      (sim_at n, simulated n, all, share, kept)

  -- A redeem of more shares never credits less.
  pub more_burned_never_nets_less :
      (n m : ℕ)
      → n ≤ m
      → (less more : RedeemPrediction) × (predict_scallop_redeem reserve vault n rate ≡ ok less)
        × (predict_scallop_redeem reserve vault m rate ≡ ok more)
        × (less.to_balance ≤ more.to_balance)
  unfolding predicted
  more_burned_never_nets_less n m h = (
    sim_at n,
    sim_at m,
    simulated n,
    simulated m,
    net_mono (n * denom / reserve.supply) (m * denom / reserve.supply)
        (scallop_principal_portion vault.principal_total vault.scoin_total n)
        (scallop_principal_portion vault.principal_total vault.scoin_total m) rate rate_le
        (div_mono (n * denom) (m * denom) reserve.supply s_pos (mul-le-mul_right denom h))
        (portion_mono vault.principal_total vault.scoin_total n m h),
  )

-- The cap refuses exactly where the wrapper holds no more than the margin. Otherwise it
-- answers the larger burn that is within the exact amount and leaves the margin.
pub cap_leaves_margin :
    (exact wrapper margin : ℕ)
    → ((cap_redeem_burn_raw exact wrapper margin ≡ none) × (wrapper ≤ margin))
      ⊎ ((n : ℕ) × (cap_redeem_burn_raw exact wrapper margin ≡ some n)
          × (n ≤ exact)
          × (n + margin ≤ wrapper)
          × ((n ≡ exact) ⊎ (n + margin ≡ wrapper)))
unfolding cap_redeem_burn_raw
cap_leaves_margin exact wrapper margin = ground arith
