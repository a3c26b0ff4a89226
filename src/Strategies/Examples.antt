-- ===== src/Strategies/Examples.antt =====
-- src/strategies: the theorems at concrete inputs.
use lp_agent.Prelude.{◌*◌, ◌^◌, ℕ, arith, false, ◌≡◌, refl, String, none, some, [], ◌∷◌}
use lp_agent.Prelude.Int.{ℤ, pos, ◌+ℤ◌, ◌-ℤ◌, ◌*ℤ◌, ◌/ℤ◌, ◌≤ℤ◌}
use lp_agent.Decision.{RebalancePlan}
use lp_agent.Decision.Invariants.{validate_plan}
use lp_agent.Decision.DiffPlan.{PmState}
use lp_agent.Decision.DiffPlan.Build.{includes}
use lp_agent.Decision.DiffPlan.Plan.Extreme.{held_shares}
use lp_agent.Strategies.{plan_and_reconcile}
use lp_agent.Strategies.MultiBinSpot.{
  MultiBinSpotParams, SpotInput, plan_multi_bin, build_distribution, bar_period_ms, sigma_of,
}
use lp_agent.Strategies.MultiBinSpot.Split.{
  parts_by, floor_weights, any_positive, add_dust, split_by_weight,
}
use lp_agent.Strategies.MultiBinSpot.Rows.{weights_above, weights_below, placed_amounts, kept_bins}
use lp_agent.Strategies.MultiBinSpot.Sound.{multi_bin_is_funded}
use lp_agent.Forecast.Volatility.{scale_sigma_to_horizon}
use lp_agent.Forecast.BinWeights.{
  compute_bin_weights, raw_masses, mass_list, each_weight, mass_in_log_range, norm_cdf,
  mid_price_log, fee_derate, pick_bin_range,
}
use lp_agent.Decision.{sum_from}
use lp_agent.Decision.DiffPlan.{count_up}
use lp_agent.Decision.DiffPlan.Build.{shares_from}
use lp_agent.Decision.DiffPlan.Rows.{human_price_for_bin}
use lp_agent.Decision.DiffPlan.Split.{even_split}
use lp_agent.Strategies.MultiBinSpot.Shares.{SignLaws}
use lp_agent.Prelude.Micro.{micro}
use lp_agent.Strategies.SingleBin.{plan_single_bin}
use lp_agent.Strategies.SingleBin.Straddle.{straddle_deploys_all}

-- The pool has moved to bin 12, above the position.
abbrev left_behind : PmState
left_behind = record {
  pm_id = "m";
  balance_a = pos 5000;
  balance_b = pos 0;
  fee_a = pos 0;
  fee_b = pos 7;
  position_bins =
      record { bin_id = pos 8; liquidity_share = pos 50 }
      ∷ record { bin_id = pos 10; liquidity_share = pos 0 }
      ∷ [];
  position_value = some (pos 0, pos 900);
}

abbrev plain : ℤ → String
plain z = "12"

straddle_deploys_all_example :
    (plan : RebalancePlan) × (plan_single_bin plain {C = Unit} left_behind (pos 12)
      ≡ plan_and_reconcile plan none none)
    × (validate_plan plan (pos 12) ≡ [])
    × (plan.add_amount_a ≡ pos 5000)
    × (plan.add_amount_b ≡ pos 907)
    × (plan.remove_shares ≡ held_shares left_behind.position_bins)
unfolding ◌+ℤ◌ includes
straddle_deploys_all_example =
    straddle_deploys_all plain left_behind (pos 12) 5000 907 refl refl refl refl (refl, (refl, tt))

-- ---- multiBinSpot

micro_signs : SignLaws micro
micro_signs = record {
  literal = λ m k. ground arith;
  natural = λ n. ground arith;
  counting = λ n. ground arith;
  positive = λ x h. ground arith;
  product = λ x y h k. ground arith;
  quotient = λ x y h k. ground arith;
  at_least_one = λ x. ground arith;
  rounded_down = λ x h. ground arith;
  integral = λ x n h e. absurd (ground (arith, e));
}

abbrev narrow : MultiBinSpotParams ℕ
narrow = record {
  sigma_multiplier = 3 * 10 ^ 6;
  horizon_ms = 1_800_000 * 10 ^ 6;
  drift_bins_trigger = pos 3;
  max_half_width_bins = pos 2;
}

abbrev at_spot : SpotInput ℕ
at_spot = record {
  pm = record {
    pm_id = "m";
    balance_a = pos 5001;
    balance_b = pos 3000;
    fee_a = pos 0;
    fee_b = pos 0;
    position_bins = [];
    position_value = none;
  };
  active_bin_id = pos 5;
  fee_rate_bps = 10 * 10 ^ 6;
  spot_price = "1.0";
  history = [];
  orientation = record {
    bin_step = 10 * 10 ^ 6;
    pool_coin_a_decimals = pos 9;
    pool_coin_b_decimals = pos 6;
    pool_coin_a_is_quote = false;
  };
}

abbrev spread : RebalancePlan
spread = record {
  pm_id = "m";
  remove_shares = [];
  add_amount_a = pos 5001;
  add_amount_b = pos 3000;
  add_bins = pos 3 ∷ pos 4 ∷ pos 6 ∷ pos 7 ∷ [];
  add_amounts_a = pos 0 ∷ pos 0 ∷ pos 2500 ∷ pos 2501 ∷ [];
  add_amounts_b = pos 1500 ∷ pos 1500 ∷ pos 0 ∷ pos 0 ∷ [];
  collect_fees = false;
  reason = "multiBinSpot: init σ= bins= center= priceMid=";
  planned_active_bin_id = some (pos 5);
  priority = none;
}

spreads : plan_multi_bin micro {C = ℤ} narrow at_spot ≡ some (plan_and_reconcile spread none none)
unfolding plan_multi_bin build_distribution bar_period_ms sigma_of scale_sigma_to_horizon
    compute_bin_weights raw_masses mass_list each_weight mass_in_log_range norm_cdf mid_price_log
    fee_derate pick_bin_range count_up human_price_for_bin split_by_weight floor_weights
    any_positive add_dust parts_by even_split weights_above weights_below placed_amounts kept_bins
    shares_from sum_from ◌+ℤ◌ ◌-ℤ◌ ◌*ℤ◌ ◌/ℤ◌
spreads = refl

multi_bin_is_funded_example :
    (validate_plan spread (pos 5) ≡ [])
    × (spread.add_amount_a ≤ℤ pos 5001)
    × (spread.add_amount_b ≤ℤ pos 3000)
unfolding ◌+ℤ◌
multi_bin_is_funded_example =
    multi_bin_is_funded micro micro_signs narrow at_spot 5001 3000 spread refl refl spreads
