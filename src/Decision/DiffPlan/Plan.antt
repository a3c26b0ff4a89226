-- ===== src/Decision/DiffPlan/Plan.antt =====
-- `diffPlan` of src/decision/diffPlanner.ts. A call that throws is the outer nothing; the plan null
-- is the inner one.
pub mod Sound
pub mod Extreme
use lp_agent.Prelude.{
  ℕ, zero, suc, ◌+◌, String, Bool, true, false, not, ◌&&◌, ◌||◌, Option, none, some, List, [], ◌∷◌,
  ◌++◌, map, length, ltb, leb, if◌then◌else◌,
}
use Prim.Native.String.{◌++◌ as cat}
use lp_agent.Prelude.Floats.{Floats}
use lp_agent.Prelude.Int.{ℤ, pos, pos_part, neg_part, ◌+ℤ◌, ◌-ℤ◌, ltb_ℤ, leb_ℤ, eqb_ℤ}
use lp_agent.State.{MarketState, normal, trend, extreme, ◌>>=◌}
use lp_agent.Decision.{RebalancePlan, total}
use lp_agent.Decision.Rescale.{first}
use lp_agent.Decision.Inventory.{
  InventoryState, InventoryAdjustment, InventoryRegime, balanced, mild, moderate, severe,
  compute_inventory_adjustment, apply_inventory_scales, clamp_to_available,
}
use lp_agent.Decision.DiffPlan.{
  PositionBin, PmState, PlanContext, StopLoss, PoolOrientation, DiffPlanInput, bin_direction, flip,
  whole, sum_f, weights_of, bins_of, compute_normal_weights, compute_trend_weights, sign_ℤ,
}
use lp_agent.Decision.DiffPlan.Split.{split_proportional}
use lp_agent.Decision.DiffPlan.Build.{
  is_pos, non_empty, has_fees, compute_fixed_ops, ptb_max_ops, all_shares,
  build_extreme_withdraw_plan, pm_range, position_center, value_a, value_b, available_a,
  available_b, includes, stop_loss_exempt, forced_bins, Row, rows_of, kept_rows, set_entry,
}
use lp_agent.Decision.DiffPlan.Rows.{
  human_price_for_bin, target_weights, is_strong_trend, candidates_of, shrink_to_fit_ptb,
  adjustment_of, build_rows,
}
use lp_agent.Decision.DiffPlan.Quiet.{reason_of, is_quiet}

module _ {F : Type 0} (num : Floats F) where
  abbrev pub plan_of : DiffPlanInput F → List Row → RebalancePlan
  plan_of input rows = record {
    pm_id = input.pm.pm_id;
    remove_shares = all_shares input.pm;
    add_amount_a = total (map (λ row. row.1) rows);
    add_amount_b = total (map (λ row. row.2) rows);
    add_bins = map (λ row. row.0) rows;
    add_amounts_a = map (λ row. row.1) rows;
    add_amounts_b = map (λ row. row.2) rows;
    collect_fees = has_fees input.pm;
    reason = reason_of num input rows;
    planned_active_bin_id = some input.active_bin_id;
    priority = none;
  }

  abbrev pub final_bins : DiffPlanInput F → List (ℤ × F)
  final_bins input =
      shrink_to_fit_ptb num (candidates_of num input) input.pm (has_fees input.pm)
        (all_shares input.pm)

  -- NORMAL and TREND.
  unfoldable pub plan_in_market : DiffPlanInput F → Option (Option RebalancePlan)
  plan_in_market input =
      if not (non_empty (final_bins input))
        && not (non_empty (all_shares input.pm))
        && not (has_fees input.pm)
      then some none
      else (do
        rows ← build_rows num input (final_bins input)
        some (if is_quiet num input rows then none else some (plan_of input rows)))

  abbrev pub is_empty_pm : PmState → Bool
  is_empty_pm pm =
      not (is_pos pm.balance_a || is_pos pm.balance_b)
      && not (non_empty pm.position_bins)
      && not (has_fees pm)

  unfoldable pub diff_plan : DiffPlanInput F → Option (Option RebalancePlan)
  diff_plan input = if is_empty_pm input.pm then some none else elim input.ctx.state [
    | extreme ↦ some (build_extreme_withdraw_plan input.pm "EXTREME: full withdrawal")
    | _ ↦ plan_in_market input
  ]
