-- ===== src/Lending/Scallop.antt =====
-- `scoinToBurnForTargetNet` of src/sui/lending/math.ts: the burn it answers pays the wanted amount.
use lp_agent.Prelude.{
  below_or, ℕ, zero, suc, ◌+◌, ◌-◌, ◌*◌, ◌/◌, ◌≤◌, ◌<◌, ◌≡◌, ap, sym, ◌∙◌, ◌⊎◌, inl, inr, refl, ltb,
  arith, if◌then◌else◌, some,
}
use lp_agent.Prelude.Int.{pos}
use lp_agent.Lending.{
  Redeem, throw, RedeemPrediction, prediction_of, ok, max_fee_rate, max_u64, refine, finish,
  ScallopReserveSnapshot, ScallopVaultSnapshot, scallop_denom, predict_scallop_redeem,
  compute_expected_underlying_scallop, scoin_to_burn_for_target_net, scallop_principal_portion,
}
use lp_agent.Lending.Fee.{fee_of, apply_yield_fee-ok}
use lp_agent.Lending.Burn.{answer, closed_form-ok, answer_pays, less_is_tight, answer_pos}

-- A burn that pays enough is returned, whatever the number of rounds.
refine_enough :
    (predict : ℕ → Redeem RedeemPrediction) (total wanted rounds n : ℕ) (sim : RedeemPrediction)
    → n ≤ total
    → 0 < n
    → predict n ≡ ok sim
    → wanted ≤ sim.to_balance
    → refine predict total wanted rounds n ≡ ok n
unfolding refine
refine_enough predict total wanted zero n sim le n_pos e enough = ground arith
refine_enough predict total wanted (suc rounds) n sim le n_pos e enough = ground (arith, e)

expected_ok :
    (reserve : ScallopReserveSnapshot) (denom n : ℕ)
    → scallop_denom reserve ≡ ok denom
    → 0 < reserve.supply
    → compute_expected_underlying_scallop reserve n ≡ ok (n * denom / reserve.supply)
unfolding compute_expected_underlying_scallop
expected_ok reserve denom n e h = ground (arith, e)

unfoldable pub predicted :
    ScallopReserveSnapshot → ScallopVaultSnapshot → ℕ → ℕ → ℕ → RedeemPrediction
predicted reserve vault denom rate n =
    prediction_of (n * denom / reserve.supply)
      (scallop_principal_portion vault.principal_total vault.scoin_total n)
      (fee_of (n * denom / reserve.supply)
        (scallop_principal_portion vault.principal_total vault.scoin_total n) rate)

pub predict-ok :
    (reserve : ScallopReserveSnapshot) (vault : ScallopVaultSnapshot) (denom n rate : ℕ)
    → scallop_denom reserve ≡ ok denom
    → 0 < reserve.supply
    → rate ≤ max_fee_rate
    → predict_scallop_redeem reserve vault n rate ≡ ok (predicted reserve vault denom rate n)
unfolding predict_scallop_redeem predicted
predict-ok reserve vault denom n rate e s_pos h =
    rw
      (
        expected_ok reserve denom n e s_pos,
        apply_yield_fee-ok (n * denom / reserve.supply)
            (scallop_principal_portion vault.principal_total vault.scoin_total n) rate h,
      )
      refl

pub scallop_denom-ok :
    (r : ScallopReserveSnapshot)
    → r.revenue < r.cash + r.debt
    → scallop_denom r ≡ ok (r.cash + r.debt - r.revenue)
unfolding scallop_denom
scallop_denom-ok r h = ground arith

finish_enough :
    (predict : ℕ → Redeem RedeemPrediction) (total wanted rounds n : ℕ) (sim : RedeemPrediction)
    → 0 < n
    → predict n ≡ ok sim
    → (n ≤ total → wanted ≤ sim.to_balance)
    → finish predict total wanted rounds (some n) ≡ ok (if ltb total n then max_u64 else n)
unfolding finish
finish_enough predict total wanted rounds n sim n_pos e enough = elim (below_or total n) [
  | inl h ↦ ground (arith, h)
  | inr h ↦ ground (arith, h, refine_enough predict total wanted rounds n sim h n_pos e (enough h))
]

-- The answer of the closed form, or the drain where it is more than the vault holds.
burned :
    (reserve : ScallopReserveSnapshot) (vault : ScallopVaultSnapshot) (denom k rate rounds : ℕ)
    → scallop_denom reserve ≡ ok denom
    → 0 < denom
    → 0 < reserve.supply
    → 0 < vault.scoin_total
    → rate ≤ max_fee_rate
    → scoin_to_burn_for_target_net reserve vault (pos (suc k)) rate rounds
      ≡ ok (
          if ltb vault.scoin_total
            (answer denom reserve.supply vault.scoin_total vault.principal_total rate (suc k))
          then max_u64
          else answer denom reserve.supply vault.scoin_total vault.principal_total rate (suc k))
unfolding scoin_to_burn_for_target_net predicted
burned reserve vault denom k rate rounds e d_pos s_pos t_pos h =
    let S = vault.scoin_total in
    let P = vault.principal_total in
    let n = answer denom reserve.supply S P rate (suc k) in
    let form = closed_form-ok denom reserve.supply S P rate s_pos d_pos t_pos h (suc k) in
    let rest =
      finish_enough (λ n. predict_scallop_redeem reserve vault n rate) S (suc k) rounds n
        (predicted reserve vault denom rate n)
        (answer_pos denom reserve.supply S P rate s_pos d_pos t_pos h (suc k) (omega arith))
        (predict-ok reserve vault denom n rate e s_pos h)
        (answer_pays denom reserve.supply S P rate s_pos d_pos t_pos h (suc k) n (omega arith)) in
    ground (arith, e, form, rest)

abbrev unwrap : {A : Type 0} → A → Redeem A → A
unwrap x (ok y) = y
unwrap x (throw e) = x

abbrev net_of : RedeemPrediction → Redeem RedeemPrediction → ℕ
net_of sim redeem = (unwrap sim redeem).to_balance

module _ (reserve : ScallopReserveSnapshot) (vault : ScallopVaultSnapshot) (k rate rounds : ℕ)
    (solvent : reserve.revenue < reserve.cash + reserve.debt) (s_pos : 0 < reserve.supply)
    (t_pos : 0 < vault.scoin_total) (rate_le : rate ≤ max_fee_rate) where
  denom : ℕ
  denom = reserve.cash + reserve.debt - reserve.revenue

  closed : ℕ
  closed = answer denom reserve.supply vault.scoin_total vault.principal_total rate (suc k)

  answered :
      scoin_to_burn_for_target_net reserve vault (pos (suc k)) rate rounds
      ≡ ok (if ltb vault.scoin_total closed then max_u64 else closed)
  unfolding closed denom
  answered =
      burned reserve vault denom k rate rounds (scallop_denom-ok reserve solvent)
        (omega (arith, solvent)) s_pos t_pos rate_le

  sim_at : ℕ → RedeemPrediction
  sim_at = predicted reserve vault denom rate

  simulated : (n : ℕ) → predict_scallop_redeem reserve vault n rate ≡ ok (sim_at n)
  unfolding sim_at denom
  simulated n =
      predict-ok reserve vault denom n rate (scallop_denom-ok reserve solvent) s_pos rate_le

  enough : (n : ℕ) → closed ≤ n → n ≤ vault.scoin_total → suc k ≤ (sim_at n).to_balance
  unfolding closed sim_at denom predicted
  enough n h le =
      answer_pays denom reserve.supply vault.scoin_total vault.principal_total rate s_pos
        (omega (arith, solvent)) t_pos rate_le (suc k) n h le

  tight : (m : ℕ) → m < closed → m ≤ vault.scoin_total → (sim_at m).to_balance ≤ suc k
  unfolding closed sim_at denom predicted
  tight m h le =
      less_is_tight denom reserve.supply vault.scoin_total vault.principal_total rate s_pos
        (omega (arith, solvent)) t_pos rate_le (suc k) m h le

  -- The amount to burn for a positive wanted amount is found without an error: either it is within
  -- the vault and its simulated redeem pays at least the wanted amount after the fee, or it is
  -- `MAX_U64` and a redeem of the whole vault pays no more than the wanted amount. This needs no
  -- round of the refinement loop, but a solvent reserve of positive supply, a non-empty vault and an
  -- admissible fee rate.
  pub burn_pays :
      ((n : ℕ) × (sim : RedeemPrediction) × (scoin_to_burn_for_target_net reserve vault
            (pos (suc k))
            rate
            rounds
          ≡ ok n)
        × (n ≤ vault.scoin_total)
        × (predict_scallop_redeem reserve vault n rate ≡ ok sim)
        × (suc k ≤ sim.to_balance))
      ⊎ ((sim : RedeemPrediction) × (scoin_to_burn_for_target_net reserve vault
              (pos (suc k))
              rate
              rounds
            ≡ ok max_u64)
          × (predict_scallop_redeem reserve vault vault.scoin_total rate ≡ ok sim)
          × (sim.to_balance ≤ suc k))
  burn_pays = elim (below_or vault.scoin_total closed) [
    | inl h ↦ inr (
      sim_at vault.scoin_total,
      ground (arith, answered, h),
      simulated vault.scoin_total,
      tight vault.scoin_total h (omega arith),
    )
    | inr h ↦ inl (
      closed,
      sim_at closed,
      ground (arith, answered, h),
      h,
      simulated closed,
      enough closed (omega arith) h,
    )
  ]

  -- The amount to burn is not wasteful: a redeem of the vault of less than it pays at most the
  -- wanted amount.
  pub smaller_burn_pays_no_more :
      (n m : ℕ) (sim : RedeemPrediction)
      → scoin_to_burn_for_target_net reserve vault (pos (suc k)) rate rounds ≡ ok n
      → m < n
      → m ≤ vault.scoin_total
      → predict_scallop_redeem reserve vault m rate ≡ ok sim
      → sim.to_balance ≤ suc k
  smaller_burn_pays_no_more n m sim e lt le e' = omega (
    arith,
    ap (net_of sim) (sym e' ∙ simulated m),
    tight m
        (elim (below_or vault.scoin_total closed) [
          | inl h ↦ omega (arith, le, h)
          | inr h ↦ omega (arith, lt, ap (unwrap 0) (sym e ∙ within h))
        ])
        le,
  )
    where
      within :
          closed ≤ vault.scoin_total
          → scoin_to_burn_for_target_net reserve vault (pos (suc k)) rate rounds ≡ ok closed
      within h = ground (arith, answered, h)
