-- ===== src/Decision/DiffPlan/Plan/Sound.antt =====
-- The plans of `diffPlan`, src/decision/diffPlanner.ts, pass the plan check and stay within the
-- capital of the PM.
use lp_agent.Prelude.{
  String, ℕ, ◌≤◌, ◌≡◌, refl, ap, subst, ◌∙◌, Bool, true, false, Option, none, some, List, [],
  length, arith, if◌then◌else◌,
}
use lp_agent.Prelude.Floats.{Floats}
use lp_agent.Prelude.Int.{pos, ◌≤ℤ◌}
use lp_agent.State.{MarketState, normal, trend, extreme}
use lp_agent.Decision.{RebalancePlan, total}
use lp_agent.Decision.Invariants.{validate_plan, check_bins}
use lp_agent.Decision.Invariants.Sound.{validate_plan_lem}
use lp_agent.Decision.Rescale.Valid.{Kept}
use lp_agent.Decision.DiffPlan.Plan.{plan_of, final_bins, plan_in_market, diff_plan}
use lp_agent.Decision.Rescale.Side.{total-pos}
use lp_agent.Decision.DiffPlan.{DiffPlanInput}
use lp_agent.Decision.DiffPlan.Build.{
  build_extreme_withdraw_plan, withdrawal, Row, available_a, available_b,
}
use lp_agent.Decision.DiffPlan.Rows.{is_strong_trend, build_rows}
use lp_agent.Decision.DiffPlan.Rows.Kept.{Fit, Fit-Kept}
use lp_agent.Decision.DiffPlan.Rows.Built.{build_rows-Fit, bound, if_none, same_some}

if_null :
    {A : Type 0} (c : Bool) (x : Option (Option A)) (v : A)
    → (if c then some none else x) ≡ some (some v)
    → x ≡ some (some v)
if_null true x v e = absurd cc
if_null false x v e = e

if_kept :
    {A : Type 0} (c : Bool) (x v : A) → some (if c then none else some x) ≡ some (some v) → x ≡ v
if_kept true x v e = absurd cc
if_kept false x v e = cc

module _ {F : Type 0} (num : Floats F) where
  -- The plan of rows that fit passes the check and adds no more than is there.
  module _ (input : DiffPlanInput F) (a b : ℕ) where
    abbrev IsFunded : RebalancePlan → Type 0
    IsFunded plan =
        (validate_plan plan input.active_bin_id ≡ [])
        × (plan.add_amount_a ≤ℤ pos a)
        × (plan.add_amount_b ≤ℤ pos b)

    plan_of-IsFunded :
        (rows : List Row) → Fit input.active_bin_id rows a b → IsFunded (plan_of num input rows)
    unfolding Kept
    plan_of-IsFunded rows f =
        let (placed, (ks, ea, la), (ls, eb, lb)) = Fit-Kept input.active_bin_id rows a b f in
        let ta = ap total ea ∙ total-pos ks in
        let tb = ap total eb ∙ total-pos ls in
        (
          (validate_plan_lem input.active_bin_id (plan_of num input rows)).1
              (record { placed = placed; total_a = refl; total_b = refl }),
          rw ta (omega (arith, la)),
          rw tb (omega (arith, lb)),
        )

    extreme-IsFunded :
        (reason : String) (plan : RebalancePlan)
        → build_extreme_withdraw_plan input.pm reason ≡ some plan
        → IsFunded plan
    unfolding build_extreme_withdraw_plan validate_plan check_bins
    extreme-IsFunded reason plan e =
        subst IsFunded {x = withdrawal input.pm reason} (same_some (if_none _ _ plan e).1)
          (refl, omega arith, omega arith)

  in_market-IsFunded :
      (input : DiffPlanInput F) (a b : ℕ) (plan : RebalancePlan)
      → available_a input.pm (is_strong_trend num input.ctx) ≡ pos a
      → available_b input.pm (is_strong_trend num input.ctx) ≡ pos b
      → length (final_bins num input) ≤ 99
      → plan_in_market num input ≡ some (some plan)
      → IsFunded input a b plan
  unfolding plan_in_market
  in_market-IsFunded input a b plan ea eb le e =
      let (rows, er, e1) =
        bound (build_rows num input (final_bins num input)) _ (some plan) (if_null _ _ plan e) in
      subst (IsFunded input a b) (if_kept _ _ plan e1) (
        plan_of-IsFunded input a b rows
          (build_rows-Fit num input (final_bins num input) a b rows ea eb le er))

  abbrev by_state : DiffPlanInput F → MarketState → Option (Option RebalancePlan)
  by_state input s = elim s [
    | extreme ↦ some (build_extreme_withdraw_plan input.pm "EXTREME: full withdrawal")
    | _ ↦ plan_in_market num input
  ]

  by_state-IsFunded :
      (input : DiffPlanInput F) (a b : ℕ) (plan : RebalancePlan) (s : MarketState)
      → available_a input.pm (is_strong_trend num input.ctx) ≡ pos a
      → available_b input.pm (is_strong_trend num input.ctx) ≡ pos b
      → length (final_bins num input) ≤ 99
      → by_state input s ≡ some (some plan)
      → IsFunded input a b plan
  by_state-IsFunded input a b plan normal ea eb le e = in_market-IsFunded input a b plan ea eb le e
  by_state-IsFunded input a b plan trend ea eb le e = in_market-IsFunded input a b plan ea eb le e
  by_state-IsFunded input a b plan extreme ea eb le e =
      extreme-IsFunded input a b _ plan (same_some e)

  -- Where the capital that may be deployed is not negative and fewer than a hundred bins are left to
  -- fill, a plan that `diffPlan` returns passes the plan check and adds no more of either coin than
  -- that capital, whatever the floating-point numbers are.
  pub diff_plan_is_funded :
      (input : DiffPlanInput F) (a b : ℕ) (plan : RebalancePlan)
      → available_a input.pm (is_strong_trend num input.ctx) ≡ pos a
      → available_b input.pm (is_strong_trend num input.ctx) ≡ pos b
      → length (final_bins num input) ≤ 99
      → diff_plan num input ≡ some (some plan)
      → (validate_plan plan input.active_bin_id ≡ [])
        × (plan.add_amount_a ≤ℤ pos a)
        × (plan.add_amount_b ≤ℤ pos b)
  unfolding diff_plan
  diff_plan_is_funded input a b plan ea eb le e =
      by_state-IsFunded input a b plan input.ctx.state ea eb le (if_null _ _ plan e)
