-- ===== src/Decision/DiffPlan/Examples.antt =====
-- Plans of `diffPlan`, src/decision/diffPlanner.ts, at concrete inputs.
use lp_agent.Prelude.{
  List, ℕ, ◌^◌, ◌*◌, ◌≡◌, ◌≤◌, length, refl, true, false, none, some, [], ◌∷◌, arith,
}
use lp_agent.Prelude.Floats.{Floats}
use lp_agent.Prelude.Micro.{micro}
use lp_agent.Prelude.Int.{ℤ, pos, ◌≤ℤ◌, ◌+ℤ◌, ◌-ℤ◌, ◌*ℤ◌, ◌/ℤ◌}
use lp_agent.State.{normal, extreme}
use lp_agent.Decision.{sum_from, RebalancePlan, emergency}
use lp_agent.Decision.Invariants.{validate_plan}
use lp_agent.Decision.DiffPlan.{
  PmState, PlanContext, PoolOrientation, DiffPlanInput, compute_trend_weights, count_down,
  counter_bins, gaussian_weight, raw_weights, count_up, normalized, compute_normal_weights,
}
use lp_agent.Decision.DiffPlan.Build.{
  Row, has_fees, includes, pm_range, min_bin, max_bin, shares_from, set_entry, insert_by_bin,
  kept_rows, rows_of,
}
use lp_agent.Decision.DiffPlan.Rows.{
  human_price_for_bin, passes_ask_min_filter, target_weights, allowed, add_forced, max_weight,
  candidates_of, shrink_to_fit_ptb, above, below, build_rows,
}
use lp_agent.Decision.DiffPlan.Split.{
  even_split, parts_of, scale_weights, max_weight_from, split_proportional,
}
use lp_agent.Decision.DiffPlan.Quiet.{is_quiet}
use lp_agent.Decision.Inventory.{
  compute_sui_overage, classify_overage, compute_inventory_adjustment, adjust_a, adjust_b,
  adjust_all, apply_inventory_scales, clamp_amounts, with_dust,
}
use lp_agent.Decision.Rescale.{max_idx_from, add_at, scale_all}
use lp_agent.Decision.DiffPlan.Plan.{final_bins, diff_plan, plan_in_market}
use lp_agent.Decision.DiffPlan.Plan.Sound.{diff_plan_is_funded}
use lp_agent.Decision.DiffPlan.Plan.Extreme.{held_shares, extreme_withdraws_all}

-- Weights that are all one.
abbrev even : Floats ℕ
even = record micro { exp = λ a. 10 ^ 6 }

abbrev pm : PmState
pm = record {
  pm_id = "m";
  balance_a = pos 5000;
  balance_b = pos 3000;
  fee_a = pos 101;
  fee_b = pos 0;
  position_bins =
      record { bin_id = pos 4; liquidity_share = pos 50 }
      ∷ record { bin_id = pos 8; liquidity_share = pos 0 }
      ∷ [];
  position_value = none;
}

abbrev orientation : PoolOrientation ℕ
orientation = record {
  bin_step = 10 * 10 ^ 6;
  pool_coin_a_decimals = pos 9;
  pool_coin_b_decimals = pos 6;
  pool_coin_a_is_quote = false;
}

abbrev calm : PlanContext ℕ
calm = record {
  state = normal;
  half_width = pos 1;
  trend_bias = 0;
  strong_trend = false;
  tolerance_bins = pos 0;
}

abbrev input : DiffPlanInput ℕ
input = record {
  pm = pm;
  active_bin_id = pos 5;
  fee_rate_bps = 10 * 10 ^ 6;
  ctx = calm;
  width_sigma = 2 * 10 ^ 6;
  orientation = orientation;
  stop_loss = none;
}

abbrev alarmed : DiffPlanInput ℕ
alarmed = record input { ctx = record calm { state = extreme } }

abbrev moved : RebalancePlan
moved = record {
  pm_id = "m";
  remove_shares = (pos 4, pos 50) ∷ [];
  add_amount_a = pos 5101;
  add_amount_b = pos 3000;
  add_bins = pos 4 ∷ pos 6 ∷ [];
  add_amounts_a = pos 0 ∷ pos 5101 ∷ [];
  add_amounts_b = pos 3000 ∷ pos 0 ∷ [];
  collect_fees = true;
  reason = "diffPlan: NORMAL center= active= bins= halfWidth= trendBias= inv=balanced";
  planned_active_bin_id = some (pos 5);
  priority = none;
}

abbrev filled : List (ℤ × ℕ)
filled = (pos 4, 500_000) ∷ (pos 6, 500_000) ∷ []

abbrev funded : List Row
funded = (pos 4, pos 0, pos 3000) ∷ (pos 6, pos 5101, pos 0) ∷ []

bins_filled : final_bins even input ≡ filled
unfolding gaussian_weight raw_weights count_up normalized compute_normal_weights
    compute_trend_weights count_down counter_bins human_price_for_bin passes_ask_min_filter
    target_weights allowed add_forced max_weight candidates_of shrink_to_fit_ptb includes pm_range
    min_bin max_bin shares_from set_entry ◌+ℤ◌ ◌-ℤ◌ ◌*ℤ◌ ◌/ℤ◌
bins_filled = refl

rows_funded : build_rows even input filled ≡ some funded
unfolding above below build_rows insert_by_bin kept_rows rows_of human_price_for_bin even_split
    parts_of scale_weights max_weight_from split_proportional compute_sui_overage classify_overage
    compute_inventory_adjustment adjust_a adjust_b adjust_all apply_inventory_scales clamp_amounts
    with_dust max_idx_from add_at scale_all sum_from ◌+ℤ◌ ◌-ℤ◌ ◌*ℤ◌ ◌/ℤ◌
rows_funded = refl

not_quiet : is_quiet even input funded ≡ false
unfolding is_quiet min_bin max_bin human_price_for_bin compute_sui_overage classify_overage
    compute_inventory_adjustment ◌+ℤ◌ ◌-ℤ◌ ◌*ℤ◌ ◌/ℤ◌
not_quiet = refl

few_bins : length (final_bins even input) ≤ 99
few_bins = rw bins_filled (omega arith)

moves : diff_plan even input ≡ some (some moved)
unfolding diff_plan plan_in_market shares_from set_entry human_price_for_bin compute_sui_overage
    classify_overage compute_inventory_adjustment sum_from ◌+ℤ◌ ◌-ℤ◌ ◌*ℤ◌ ◌/ℤ◌
moves = rw (bins_filled, rows_funded, not_quiet) refl

diff_plan_is_funded_example :
    (validate_plan moved (pos 5) ≡ [])
    × (moved.add_amount_a ≤ℤ pos 5101)
    × (moved.add_amount_b ≤ℤ pos 3000)
unfolding ◌+ℤ◌
diff_plan_is_funded_example =
    diff_plan_is_funded even input 5101 3000 moved refl refl few_bins moves

extreme_withdraws_all_example :
    (plan : RebalancePlan) × (diff_plan even alarmed ≡ some (some plan))
    × (plan.remove_shares ≡ held_shares pm.position_bins)
    × (plan.collect_fees ≡ has_fees pm)
    × (plan.add_bins ≡ [])
    × (plan.priority ≡ some emergency)
unfolding includes
extreme_withdraws_all_example = extreme_withdraws_all even alarmed refl refl (refl, (refl, tt))
