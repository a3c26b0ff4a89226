-- ===== src/Lending/Kai.antt =====
-- The Kai half of src/sui/lending/math.ts against its Scallop half.
use lp_agent.Prelude.{ℕ, zero, suc, ◌<◌, ◌≡◌, refl, arith}
use lp_agent.Prelude.Int.{ℤ, pos, negsuc}
use lp_agent.Lending.{
  Redeem, RedeemPrediction, ok, ScallopReserveSnapshot, ScallopVaultSnapshot, scallop_denom,
  predict_scallop_redeem, compute_expected_underlying_scallop, scoin_to_burn_for_target_net,
  scallop_principal_portion, KaiVaultSnapshot, KaiPmVaultSnapshot, compute_expected_underlying_kai,
  kai_principal_portion, predict_kai_redeem, yt_to_burn_for_target_net,
}

abbrev pub reserve_of : KaiVaultSnapshot → ScallopReserveSnapshot
reserve_of vault = record {
  cash = vault.total_available;
  debt = 0;
  revenue = 0;
  supply = vault.yt_supply;
}

abbrev pub vault_of : KaiPmVaultSnapshot → ScallopVaultSnapshot
vault_of pm = record { scoin_total = pm.yt_in_pm; principal_total = pm.principal_in_pm }

portions_agree : (p t n : ℕ) → kai_principal_portion p t n ≡ scallop_principal_portion p t n
unfolding kai_principal_portion scallop_principal_portion
portions_agree p t n = refl

expected_agree :
    (vault : KaiVaultSnapshot) (n : ℕ)
    → 0 < vault.total_available
    → compute_expected_underlying_kai vault n
      ≡ compute_expected_underlying_scallop (reserve_of vault) n
unfolding compute_expected_underlying_kai compute_expected_underlying_scallop scallop_denom
expected_agree vault n h = ground arith

predictions_agree :
    (vault : KaiVaultSnapshot) (pm : KaiPmVaultSnapshot) (rate n : ℕ)
    → 0 < vault.total_available
    → predict_kai_redeem vault pm n rate
      ≡ predict_scallop_redeem (reserve_of vault) (vault_of pm) n rate
unfolding predict_kai_redeem predict_scallop_redeem
predictions_agree vault pm rate n h =
    rw (expected_agree vault n h, portions_agree pm.principal_in_pm pm.yt_in_pm n) refl

denom_of :
    (vault : KaiVaultSnapshot)
    → 0 < vault.total_available
    → scallop_denom (reserve_of vault) ≡ ok vault.total_available
unfolding scallop_denom
denom_of vault h = ground arith

burns_agree :
    (vault : KaiVaultSnapshot) (pm : KaiPmVaultSnapshot) (rate rounds : ℕ) (desired : ℤ)
    → 0 < vault.total_available
    → yt_to_burn_for_target_net vault pm desired rate rounds
      ≡ scoin_to_burn_for_target_net (reserve_of vault) (vault_of pm) desired rate rounds
unfolding yt_to_burn_for_target_net scoin_to_burn_for_target_net
burns_agree vault pm rate rounds (negsuc k) h = refl
burns_agree vault pm rate rounds (pos zero) h = refl
burns_agree vault pm rate rounds (pos (suc k)) h = rw (denom_of vault h, same) (ground arith)
  where
    by_kai : ℕ → Redeem RedeemPrediction
    by_kai n = predict_kai_redeem vault pm n rate

    by_scallop : ℕ → Redeem RedeemPrediction
    by_scallop n = predict_scallop_redeem (reserve_of vault) (vault_of pm) n rate

    same : by_kai ≡ by_scallop
    same = λ i n. predictions_agree vault pm rate n h i

-- A Kai vault with something available is a Scallop reserve with that cash, no debt and no revenue:
-- the two sets of functions predict the same redeem and answer the same burn.
pub kai_is_scallop :
    (vault : KaiVaultSnapshot) (pm : KaiPmVaultSnapshot) (desired : ℤ) (rate rounds n : ℕ)
    → 0 < vault.total_available
    → (yt_to_burn_for_target_net vault pm desired rate rounds
        ≡ scoin_to_burn_for_target_net (reserve_of vault) (vault_of pm) desired rate rounds)
      × (predict_kai_redeem vault pm n rate
          ≡ predict_scallop_redeem (reserve_of vault) (vault_of pm) n rate)
kai_is_scallop vault pm desired rate rounds n h =
    (burns_agree vault pm rate rounds desired h, predictions_agree vault pm rate n h)
