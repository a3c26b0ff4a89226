-- ===== src/Strategies/SingleBin.antt =====
-- src/strategies/singleBin.ts: liquidity in the two bins next to the active one. The print of a bin
-- id in the reason is a parameter.
pub mod Straddle
use Prim.Native.String.{◌++◌ as cat}
use lp_agent.Prelude.{
  Bool, true, false, not, ◌&&◌, ◌||◌, String, Option, none, some, List, [], ◌∷◌, ◌++◌,
  if◌then◌else◌,
}
use lp_agent.Prelude.Int.{ℤ, pos, ◌+ℤ◌, ◌-ℤ◌, leb_ℤ}
use lp_agent.Decision.{RebalancePlan}
use lp_agent.Decision.DiffPlan.{PositionBin, PmState}
use lp_agent.Decision.DiffPlan.Build.{
  is_pos, non_empty, has_fees, min_bin, max_bin, value_a, value_b, all_shares,
}
use lp_agent.Strategies.{StrategyOutput, plan_and_reconcile, reconcile_only, quiet}

abbrev pub is_empty : PmState → Bool
is_empty pm =
    not (is_pos pm.balance_a || is_pos pm.balance_b)
    && not (non_empty pm.position_bins)
    && not (has_fees pm)

-- The position reaches from the active bin or below to the active bin or above.
unfoldable pub in_range : ℤ → List PositionBin → Bool
in_range active [] = false
in_range active (b ∷ bs) =
    leb_ℤ (min_bin b.bin_id (b ∷ bs)) active && leb_ℤ active (max_bin b.bin_id (b ∷ bs))

-- The idle balance, the fees when they are collected, and the value of the position.
abbrev pub gross_a : PmState → ℤ
gross_a pm = pm.balance_a +ℤ (if has_fees pm then pm.fee_a else pos 0) +ℤ value_a pm.position_value

abbrev pub gross_b : PmState → ℤ
gross_b pm = pm.balance_b +ℤ (if has_fees pm then pm.fee_b else pos 0) +ℤ value_b pm.position_value

-- What the two guarded pushes leave in one of the three arrays.
abbrev pub pushed : {A : Type 0} → ℤ → ℤ → A → A → List A
pushed a b below above =
    (if is_pos b then below ∷ [] else []) ++ (if is_pos a then above ∷ [] else [])

module _ (print : ℤ → String) where
  unfoldable pub straddle : PmState → ℤ → RebalancePlan
  straddle pm active =
      let a = gross_a pm in
      let b = gross_b pm in
      record {
        pm_id = pm.pm_id;
        remove_shares = all_shares pm;
        add_amount_a = a;
        add_amount_b = b;
        add_bins = pushed a b (active -ℤ pos 1) (active +ℤ pos 1);
        add_amounts_a = pushed a b (pos 0) a;
        add_amounts_b = pushed a b b (pos 0);
        collect_fees = has_fees pm;
        reason = cat "singleBin: recenter straddle around active bin " (print active);
        planned_active_bin_id = some active;
        priority = none;
      }

  unfoldable pub plan_single_bin : {C : Type 0} → PmState → ℤ → StrategyOutput C
  plan_single_bin pm active =
      if is_empty pm
      then quiet "singleBin: no balance, no position, no fees"
      else if in_range active pm.position_bins
      then if has_fees pm
        then reconcile_only "singleBin: in range, fees-only sweep" none
        else quiet "singleBin: in range, no fees"
      else plan_and_reconcile (straddle pm active) none none
