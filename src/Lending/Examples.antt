-- ===== src/Lending/Examples.antt =====
-- Runs of the lending arithmetic at concrete inputs.
use lp_agent.Prelude.{ℕ, ◌+◌, ◌*◌, ◌≤◌, ◌≡◌, ◌⊎◌, refl, arith}
use lp_agent.Prelude.Int.{pos}
use lp_agent.Lending.{
  ceil_div, divided, closed_form, refine, finish, apply_yield_fee,
  compute_expected_underlying_scallop, RedeemPrediction, ok, fee_denominator, max_u64,
  ScallopReserveSnapshot, ScallopVaultSnapshot, KaiVaultSnapshot, KaiPmVaultSnapshot,
  predict_scallop_redeem, scallop_principal_portion, scallop_denom, scoin_to_burn_for_target_net,
  yt_to_burn_for_target_net, predict_kai_redeem,
}
use lp_agent.Lending.Scallop.{burn_pays, smaller_burn_pays_no_more}
use lp_agent.Lending.Redeeming.{fee_takes_interest_only}
use lp_agent.Lending.Kai.{kai_is_scallop, reserve_of, vault_of}

-- A share is worth one unit, half of which is principal.
abbrev reserve : ScallopReserveSnapshot
reserve = record { cash = 6; debt = 5; revenue = 1; supply = 10 }

abbrev vault : ScallopVaultSnapshot
vault = record { scoin_total = 10; principal_total = 5 }

abbrev kai_vault : KaiVaultSnapshot
kai_vault = record { total_available = 10; yt_supply = 10 }

abbrev kai_pm : KaiPmVaultSnapshot
kai_pm = record { yt_in_pm = 10; principal_in_pm = 5 }

-- The answered burn is 2 where a burn of 1 pays the wanted 1.
burn_of_one : scoin_to_burn_for_target_net reserve vault (pos 1) 2_000 8 ≡ ok 2
unfolding scoin_to_burn_for_target_net scallop_denom closed_form divided ceil_div finish refine
    predict_scallop_redeem compute_expected_underlying_scallop scallop_principal_portion
    apply_yield_fee
burn_of_one = refl

one : RedeemPrediction
one = record {
  expected_underlying = 1;
  principal_portion = 0;
  interest = 1;
  fee_amount = 0;
  to_balance = 1;
}

one_pays_one : predict_scallop_redeem reserve vault 1 2_000 ≡ ok one
unfolding scallop_denom predict_scallop_redeem compute_expected_underlying_scallop
    scallop_principal_portion apply_yield_fee one
one_pays_one = refl

burn_pays_example :
    ((n : ℕ) × (sim : RedeemPrediction) × (scoin_to_burn_for_target_net reserve vault
          (pos 4)
          2_000
          8
        ≡ ok n)
      × (n ≤ 10)
      × (predict_scallop_redeem reserve vault n 2_000 ≡ ok sim)
      × (4 ≤ sim.to_balance))
    ⊎ ((sim : RedeemPrediction) × (scoin_to_burn_for_target_net reserve vault (pos 4) 2_000 8
          ≡ ok max_u64)
        × (predict_scallop_redeem reserve vault 10 2_000 ≡ ok sim)
        × (sim.to_balance ≤ 4))
burn_pays_example =
    burn_pays reserve vault 3 2_000 8 (omega arith) (omega arith) (omega arith) (omega arith)

smaller_burn_pays_no_more_example : one.to_balance ≤ 1
smaller_burn_pays_no_more_example =
    smaller_burn_pays_no_more reserve vault 0 2_000 8 (omega arith) (omega arith) (omega arith)
      (omega arith) 2 1 one burn_of_one (omega arith) (omega arith) one_pays_one

fee_takes_interest_only_example :
    (sim : RedeemPrediction) × (predict_scallop_redeem reserve vault 7 2_000 ≡ ok sim)
    × (sim.to_balance + sim.fee_amount ≡ sim.expected_underlying)
    × (sim.fee_amount * fee_denominator ≤ sim.interest * 2_000)
    × ((sim.to_balance ≡ sim.expected_underlying) ⊎ (sim.principal_portion ≤ sim.to_balance))
fee_takes_interest_only_example =
    fee_takes_interest_only reserve vault 2_000 (omega arith) (omega arith) (omega arith) 7

kai_is_scallop_example :
    (yt_to_burn_for_target_net kai_vault kai_pm (pos 4) 2_000 8
      ≡ scoin_to_burn_for_target_net (reserve_of kai_vault) (vault_of kai_pm) (pos 4) 2_000 8)
    × (predict_kai_redeem kai_vault kai_pm 5 2_000
        ≡ predict_scallop_redeem (reserve_of kai_vault) (vault_of kai_pm) 5 2_000)
kai_is_scallop_example = kai_is_scallop kai_vault kai_pm (pos 4) 2_000 8 5 (omega arith)
