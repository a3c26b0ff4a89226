-- ===== src/Decision/Lots/Additions.antt =====
-- What the pass of src/decision/lotStore.ts over the bins of a plan computes: `planSide`.
use lp_agent.Prelude.{
  ◌≡◌, ◌≢◌, sym, ◌∙◌, inl, inr, Bool, Bool-cases, true, false, Option, none, some, List, [], ◌∷◌,
  length, if◌then◌else◌, arith,
}
use lp_agent.Prelude.Int.{ℤ, pos, negsuc, ◌+ℤ◌, ltb_ℤ, ◌<ℤ◌, ◌≤ℤ◌, +ℤ_parts}
use lp_agent.Decision.{RebalancePlan}
use lp_agent.Decision.Lots.{Side, side_a, side_b, plan_side_from, plan_side}
use lp_agent.Decision.Lots.Passes.{add_assoc, zero_add, add_zero}

-- The amounts that a plan adds to a side, and their sum.
abbrev pub added : RebalancePlan → Side → List ℤ
added plan side_a = plan.add_amounts_a
added plan side_b = plan.add_amounts_b

abbrev pub sum_of : List ℤ → ℤ
sum_of [] = pos 0
sum_of (v ∷ vs) = v +ℤ sum_of vs

total-plan_side_from :
    (t : ℤ) (rb : Option ℤ) (ra : ℤ) (bs vs : List ℤ)
    → length vs ≡ length bs
    → (plan_side_from t rb ra bs vs).total ≡ t +ℤ sum_of vs
unfolding plan_side_from
total-plan_side_from t rb ra [] [] h = sym (add_zero t)
total-plan_side_from t rb ra [] (v ∷ vs) h = absurd (omega (arith, h))
total-plan_side_from t rb ra (b ∷ bs) [] h = absurd (omega (arith, h))
total-plan_side_from t rb ra (b ∷ bs) (v ∷ vs) h =
    total-plan_side_from (t +ℤ v) _ _ bs vs (omega (arith, h)) ∙ add_assoc t v (sum_of vs)

pub total-plan_side :
    (plan : RebalancePlan) (side : Side)
    → length (added plan side) ≡ length plan.add_bins
    → (plan_side plan side).total ≡ sum_of (added plan side)
unfolding plan_side
total-plan_side plan side_a h =
    total-plan_side_from (pos 0) none (negsuc 0) plan.add_bins plan.add_amounts_a h ∙ zero_add _
total-plan_side plan side_b h =
    total-plan_side_from (pos 0) none (negsuc 0) plan.add_bins plan.add_amounts_b h ∙ zero_add _

picked :
    (test : Bool) (rb : Option ℤ) → (if test then rb else none) ≡ none → test ≡ true → rb ≡ none
picked true rb e q = e
picked false rb e q = cc

larger_some :
    (ra v : ℤ) (rb : Option ℤ) (b : ℤ)
    → (pos 0 <ℤ ra → rb ≢ none)
    → pos 0 <ℤ (if ltb_ℤ ra v then v else ra)
    → (if ltb_ℤ ra v then some b else rb) ≢ none
larger_some ra v rb b some_bin q = elim (Bool-cases (ltb_ℤ ra v)) [
  | inl l ↦ rw l (λ e. cc)
  | inr l ↦ rw l (some_bin (rw l at q))
]

larger_le : (ra v : ℤ) → (if ltb_ℤ ra v then v else ra) ≤ℤ pos 0 → (ra ≤ℤ pos 0) × (v ≤ℤ pos 0)
larger_le ra v x = elim (Bool-cases (ltb_ℤ ra v)) [
  | inl l ↦ let y : v ≤ℤ pos 0 = rw l at x in (ground (arith, l, y), y)
  | inr l ↦ let y : ra ≤ℤ pos 0 = rw l at x in (y, ground (arith, l, y))
]

-- The code picks a bin for a side whose total is above 0.
rep_bin-plan_side_from :
    (t : ℤ) (rb : Option ℤ) (ra : ℤ) (bs vs : List ℤ)
    → length vs ≡ length bs
    → (pos 0 <ℤ ra → rb ≢ none)
    → (plan_side_from t rb ra bs vs).rep_bin ≡ none
    → (ra ≤ℤ pos 0) × (sum_of vs ≤ℤ pos 0)
unfolding plan_side_from
rep_bin-plan_side_from t rb ra [] [] h some_bin e = elim (Bool-cases (ltb_ℤ (pos 0) ra)) [
  | inl q ↦ absurd (some_bin (ground (arith, q)) (picked (ltb_ℤ (pos 0) ra) rb e q))
  | inr q ↦ (ground (arith, q), omega arith)
]
rep_bin-plan_side_from t rb ra [] (v ∷ vs) h some_bin e = absurd (omega (arith, h))
rep_bin-plan_side_from t rb ra (b ∷ bs) [] h some_bin e = absurd (omega (arith, h))
rep_bin-plan_side_from t rb ra (b ∷ bs) (v ∷ vs) h some_bin e =
    let larger = ltb_ℤ ra v in
    let (x, y) =
      rep_bin-plan_side_from (t +ℤ v) (if larger then some b else rb) (if larger then v else ra) bs
        vs (omega (arith, h)) (larger_some ra v rb b some_bin) e in
    let (p, q) = larger_le ra v x in (p, omega (arith, q, y, +ℤ_parts v (sum_of vs)))

pub rep_bin-plan_side :
    (plan : RebalancePlan) (side : Side)
    → length (added plan side) ≡ length plan.add_bins
    → pos 0 <ℤ sum_of (added plan side)
    → (plan_side plan side).rep_bin ≢ none
unfolding plan_side
rep_bin-plan_side plan side_a h q e =
    let x =
      (rep_bin-plan_side_from (pos 0) none (negsuc 0) plan.add_bins plan.add_amounts_a h
        (λ p. absurd (ground (arith, p))) e).1 in
    absurd (ground (arith, q, x))
rep_bin-plan_side plan side_b h q e =
    let x =
      (rep_bin-plan_side_from (pos 0) none (negsuc 0) plan.add_bins plan.add_amounts_b h
        (λ p. absurd (ground (arith, p))) e).1 in
    absurd (ground (arith, q, x))
