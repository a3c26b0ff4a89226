-- ===== src/Decision/Invariants.antt =====
-- src/decision/planInvariants.ts: the check of a plan against the rules of the pool. Of a
-- violation the code is kept and the message left out.
pub mod Sound
use lp_agent.Prelude.{
  ℕ, String, Bool, true, false, not, ◌&&◌, ◌||◌, List, [], ◌∷◌, ◌++◌, ltb, ◌===◌, if◌then◌else◌,
  length,
}
use lp_agent.Prelude.Int.{ℤ, pos, ◌+ℤ◌, ltb_ℤ, eqb_ℤ}
use lp_agent.Decision.{RebalancePlan}

pub data PlanViolation : Type 0 where
  active_bin_placement side_rule_violation amount_sum_mismatch : PlanViolation
  array_length_mismatch negative_amount : PlanViolation

abbrev pub report_if : Bool → PlanViolation → List PlanViolation
report_if c v = if c then v ∷ [] else []

-- One round of the loop.
unfoldable pub check_bin : ℤ → ℤ → ℤ → ℤ → List PlanViolation
check_bin active_bin_id bin_id amount_a amount_b =
    report_if (ltb_ℤ amount_a (pos 0) || ltb_ℤ amount_b (pos 0)) negative_amount
    ++ (if eqb_ℤ bin_id active_bin_id
        then active_bin_placement ∷ []
        else report_if (ltb_ℤ active_bin_id bin_id && ltb_ℤ (pos 0) amount_b) side_rule_violation
          ++ report_if (ltb_ℤ bin_id active_bin_id && ltb_ℤ (pos 0) amount_a) side_rule_violation)

abbrev pub check_totals : ℤ → ℤ → RebalancePlan → List PlanViolation
check_totals sum_a sum_b plan =
    report_if (not (eqb_ℤ sum_a plan.add_amount_a)) amount_sum_mismatch
    ++ report_if (not (eqb_ℤ sum_b plan.add_amount_b)) amount_sum_mismatch

-- The loop, with the two running sums, and the test of the totals after it.
unfoldable pub check_bins :
    ℤ → RebalancePlan → ℤ → ℤ → List ℤ → List ℤ → List ℤ → List PlanViolation
check_bins active plan sum_a sum_b (bin ∷ bins) (a ∷ xs) (b ∷ ys) =
    check_bin active bin a b ++ check_bins active plan (sum_a +ℤ a) (sum_b +ℤ b) bins xs ys
check_bins active plan sum_a sum_b _ _ _ = check_totals sum_a sum_b plan

unfoldable pub validate_plan : RebalancePlan → ℤ → List PlanViolation
validate_plan plan active_bin_id =
    if not (length plan.add_bins === length plan.add_amounts_a)
      || not (length plan.add_bins === length plan.add_amounts_b)
    then array_length_mismatch ∷ []
    else check_bins active_bin_id plan (pos 0) (pos 0) plan.add_bins plan.add_amounts_a
        plan.add_amounts_b
