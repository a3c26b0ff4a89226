-- ===== src/Decision/Examples.antt =====
-- Runs of the plan checks at concrete inputs.
use lp_agent.Prelude.{
  ◌+◌, ◌*◌, ◌/◌, ◌^◌, ◌≤◌, ltb, true, arith, ℕ, ◌≡◌, refl, ◌↔◌, none, some, List, [], ◌∷◌, false,
}
use lp_agent.Prelude.Int.{pos_part, pos, ◌≤ℤ◌, ◌+ℤ◌}
use lp_agent.Prelude.Micro.{micro}
use lp_agent.Decision.AgeStopLoss.{
  LotRecord, PriceContext, evaluate_lot, evaluate_all_lots, should_trigger_stop_loss,
}
use lp_agent.Decision.AgeStopLoss.Aging.{
  severity, HasStale, older_never_milder, stop_loss_triggers_iff,
}
use lp_agent.Decision.{RebalancePlan}
use lp_agent.Decision.Lots.{side_a, Lot, Numbers, sync_lots_after_rebalance}
use lp_agent.Decision.Lots.Additions.{added, sum_of}
use lp_agent.Decision.Lots.Carry.{open_amount, has_lot_since, none_before, lots_keep_age}
use lp_agent.Decision.Invariants.{validate_plan, check_bins, check_bin}
use lp_agent.Decision.Invariants.Sound.{IsPhysical, validate_plan_lem}
use lp_agent.Decision.Rescale.{rescale_plan_to_available}
use lp_agent.Decision.Rescale.Valid.{rescale_valid}

-- Coin A above the active bin 5, coin B below it.
abbrev plan : RebalancePlan
plan = record {
  pm_id = "m";
  remove_shares = [];
  add_amount_a = pos 300;
  add_amount_b = pos 200;
  add_bins = pos 4 ∷ pos 6 ∷ pos 7 ∷ [];
  add_amounts_a = pos 0 ∷ pos 100 ∷ pos 200 ∷ [];
  add_amounts_b = pos 200 ∷ pos 0 ∷ pos 0 ∷ [];
  collect_fees = false;
  reason = "drift";
  planned_active_bin_id = some (pos 5);
  priority = none;
}

validate_plan_lem_example : (validate_plan plan (pos 5) ≡ []) ↔ IsPhysical (pos 5) plan
validate_plan_lem_example = validate_plan_lem (pos 5) plan

rescale_valid_example :
    (after : RebalancePlan) × (rescale_plan_to_available plan (pos 1000) (pos 70) (pos 100)
      ≡ some after)
    × (validate_plan after (pos 5) ≡ [])
    × (after.add_amount_a ≤ℤ pos 1000)
    × (after.add_amount_b ≤ℤ pos 70)
unfolding validate_plan check_bins check_bin ◌+ℤ◌
rescale_valid_example = rescale_valid (pos 5) plan 1000 70 (pos 100) refl

-- Whole numbers in place of JavaScript's.
abbrev whole : Numbers ℕ
whole = record {
  zero = 0;
  add = λ a b. a + b;
  mul = λ a b. a * b;
  div = λ a b. a / b;
  of_bigint = pos_part;
}

abbrev old_lots : List (Lot ℕ)
old_lots =
    (record {
      pm_id = "m";
      side = side_a;
      bin_id = pos 9;
      acquired_at_ms = 5;
      cost_basis = 2;
      amount = pos 150;
      closed_at_ms = none;
      created_at_ms = 5;
    })
    ∷ []

lots_keep_age_example :
    let after = sync_lots_after_rebalance whole "m" plan 3 90 old_lots in
    (open_amount "m" side_a after ≡ sum_of (added plan side_a))
    × (has_lot_since "m" side_a 5 after ≡ true)
unfolding open_amount has_lot_since none_before ◌+ℤ◌
lots_keep_age_example =
    lots_keep_age whole "m" plan 3 90 old_lots side_a 150 300 5 refl (omega arith) refl refl refl
      refl (omega arith)

abbrev stale_lot : LotRecord ℕ
stale_lot = record {
  bin_id = pos 3;
  acquired_at_ms = 1_000;
  cost_basis = 2 * 10 ^ 6;
  amount = pos 70;
}

abbrev fallen : PriceContext ℕ
fallen = record {
  active_bin = pos 3;
  current_mid_price = 3 * 10 ^ 6;
  bin_step = 10 * 10 ^ 6;
  direction = none;
}

micro_tests : (x : ℕ) → ltb 50_000 x ≡ true → ltb 30_000 x ≡ true
micro_tests x h = ground (arith, h)

older_never_milder_example :
    severity (evaluate_lot micro stale_lot 0 fallen 20_000_000)
    ≤ severity (evaluate_lot micro stale_lot 0 fallen 50_000_000)
older_never_milder_example =
    older_never_milder micro stale_lot 0 fallen 20_000_000 50_000_000 micro_tests (omega arith)

stop_loss_triggers_iff_example :
    (should_trigger_stop_loss (evaluate_all_lots micro (stale_lot ∷ []) fallen 20_000_000) ≡ true)
    ↔ HasStale micro fallen 20_000_000 (stale_lot ∷ [])
stop_loss_triggers_iff_example =
    stop_loss_triggers_iff micro fallen 20_000_000 micro_tests refl (stale_lot ∷ [])
