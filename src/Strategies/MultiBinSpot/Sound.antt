-- ===== src/Strategies/MultiBinSpot/Sound.antt =====
-- The plans of multiBinSpot, src/strategies/multiBinSpot.ts, pass the plan check and stay within the
-- capital of the PM.
use Prim.Native.String.{◌++◌ as cat}
use lp_agent.Prelude.{
  ℕ, ◌≡◌, refl, ap, subst, map, ◌∙◌, Bool, true, false, Option, none, some, List, [], arith, All,
  not, ◌&&◌, if◌then◌else◌,
}
use lp_agent.Prelude.Floats.{Floats}
use lp_agent.Prelude.Int.{ℤ, pos, ◌≤ℤ◌}
use lp_agent.Decision.{RebalancePlan, total}
use lp_agent.Decision.Invariants.{validate_plan}
use lp_agent.Decision.Invariants.Sound.{validate_plan_lem}
use lp_agent.Decision.Rescale.Side.{sum, total-pos}
use lp_agent.Decision.Rescale.Valid.{Kept}
use lp_agent.Decision.DiffPlan.Build.{Row, has_fees}
use lp_agent.Decision.DiffPlan.Rows.Kept.{Fit, Fit-Kept, more-Fit}
use lp_agent.Forecast.Volatility.{PriceDistribution}
use lp_agent.Strategies.{StrategyOutput, plan_and_reconcile, plan_only, reconcile_only, quiet}
use lp_agent.Strategies.SingleBin.{is_empty, gross_a, gross_b}
use lp_agent.Strategies.MultiBinSpot.{
  MultiBinSpotParams, SpotInput, rows_with, spot_rows, spot_plan, planned, plan_with,
  should_recenter, has_spot, weights_under, plan_multi_bin, build_distribution, bar_period_ms,
  prices_of,
}
use lp_agent.Strategies.MultiBinSpot.Rows.{weights_above, weights_below, placed_amounts, kept_bins}
use lp_agent.Strategies.MultiBinSpot.Shares.{SignLaws, IsUnsigned, IsWithinSome, split-IsWithin}
use lp_agent.Strategies.MultiBinSpot.Signs.{weights-AreUnsigned, above-IsUnsigned, below-IsUnsigned}
use lp_agent.Strategies.MultiBinSpot.Placed.{placed-Fit}

module _ {F : Type 0} (num : Floats F) (laws : SignLaws num) where
  module _ (active : ℤ) (a b : ℕ) where
    abbrev FitSome : Option (List Row) → Type 0
    FitSome none = Unit
    FitSome (some rows) = Fit active rows a b

    rows_with-FitSome :
        (es : List (ℤ × F)) (above below : Option (List ℤ))
        → IsWithinSome a above
        → IsWithinSome b below
        → FitSome (rows_with num active es above below)
    rows_with-FitSome es none below h k = tt
    rows_with-FitSome es (some xs) none h k = tt
    rows_with-FitSome es (some xs) (some ys) (ms, e, l) (ns, f, g) =
        rw (e, f)
          (more-Fit active (kept_bins (placed_amounts active es (map pos ms) (map pos ns))) (sum ms)
            (sum ns) a b l g (placed-Fit active es ms ns))

  module _ (params : MultiBinSpotParams F) (input : SpotInput F) (a b : ℕ) where
    -- A plan passes the check and adds no more than is there.
    abbrev IsFunded : RebalancePlan → Type 0
    IsFunded plan =
        (validate_plan plan input.active_bin_id ≡ [])
        × (plan.add_amount_a ≤ℤ pos a)
        × (plan.add_amount_b ≤ℤ pos b)

    spot_plan-IsFunded :
        (dist : PriceDistribution F) (rows : List Row)
        → Fit input.active_bin_id rows a b
        → IsFunded (spot_plan num params input dist rows)
    unfolding Kept
    spot_plan-IsFunded dist rows f =
        let (placed, (ks, ea, la), (ls, eb, lb)) = Fit-Kept input.active_bin_id rows a b f in
        let ta = ap total ea ∙ total-pos ks in
        let tb = ap total eb ∙ total-pos ls in
        (
          (validate_plan_lem input.active_bin_id (spot_plan num params input dist rows)).1
              (record { placed = placed; total_a = refl; total_b = refl }),
          rw ta (omega (arith, la)),
          rw tb (omega (arith, lb)),
        )

    module _ (C : Type 0) where
      abbrev AllFunded : Option (StrategyOutput C) → Type 0
      AllFunded none = Unit
      AllFunded (some (plan_and_reconcile plan _ _)) = IsFunded plan
      AllFunded (some (plan_only plan _ _)) = IsFunded plan
      AllFunded (some (reconcile_only _ _)) = Unit
      AllFunded (some (quiet _)) = Unit

      if_funded :
          (c : Bool) (x y : Option (StrategyOutput C))
          → AllFunded x
          → AllFunded y
          → AllFunded (if c then x else y)
      if_funded true x y h k = h
      if_funded false x y h k = k

      planned-AllFunded :
          (dist : PriceDistribution F) (rows : Option (List Row))
          → FitSome input.active_bin_id a b rows
          → AllFunded (planned num params input dist rows)
      planned-AllFunded dist none h = tt
      planned-AllFunded dist (some rows) h = spot_plan-IsFunded dist rows h

      module _ (ea : gross_a input.pm ≡ pos a) (eb : gross_b input.pm ≡ pos b) where
        spot_rows-FitSome :
            (es : List (ℤ × F))
            → All (IsUnsigned num) (weights_above input.active_bin_id es)
            → All (IsUnsigned num) (weights_below input.active_bin_id es)
            → FitSome input.active_bin_id a b (spot_rows num input es)
        spot_rows-FitSome es h k =
            rows_with-FitSome input.active_bin_id a b es _ _ (rw ea (split-IsWithin num laws a _ h))
              (rw eb (split-IsWithin num laws b _ k))

        plan_with-AllFunded :
            (dist : Option (PriceDistribution F)) → AllFunded (plan_with num params input dist)
        plan_with-AllFunded none = tt
        plan_with-AllFunded (some dist) =
            let active = input.active_bin_id in
            let ws = weights_under num params input dist in
            let u = weights-AreUnsigned num laws _ in
            if_funded (not (should_recenter num params input) && not (has_fees input.pm))
              (some (quiet "multiBinSpot: in range, no fees"))
              (planned num params input dist (spot_rows num input ws)) tt
              (planned-AllFunded dist (spot_rows num input ws) (
                spot_rows-FitSome ws (above-IsUnsigned num laws active ws u)
                  (below-IsUnsigned num laws active ws u)))

        plan_multi_bin-AllFunded : AllFunded (plan_multi_bin num params input)
        unfolding plan_multi_bin
        plan_multi_bin-AllFunded =
            let dist =
              build_distribution num (num.number input.spot_price) [] (prices_of num input.history)
                params (bar_period_ms num input.history) in
            let invalid = some (quiet (cat "multiBinSpot: invalid spot price " input.spot_price)) in
            if_funded (is_empty input.pm) (some (quiet "multiBinSpot: empty PM"))
              (if not (has_spot num input) then invalid else plan_with num params input dist) tt
              (if_funded (not (has_spot num input)) invalid (plan_with num params input dist) tt
                (plan_with-AllFunded dist))

  -- Where the numbers keep their signs and the capital is not negative, a plan of multiBinSpot passes
  -- the plan check and adds no more of either coin than the capital.
  pub multi_bin_is_funded :
      {C : Type 0} (params : MultiBinSpotParams F) (input : SpotInput F) (a b : ℕ)
      (plan : RebalancePlan)
      → gross_a input.pm ≡ pos a
      → gross_b input.pm ≡ pos b
      → plan_multi_bin num {C = C} params input ≡ some (plan_and_reconcile plan none none)
      → (validate_plan plan input.active_bin_id ≡ [])
        × (plan.add_amount_a ≤ℤ pos a)
        × (plan.add_amount_b ≤ℤ pos b)
  multi_bin_is_funded {C = C} params input a b plan ea eb e =
      subst (AllFunded params input a b C) e (plan_multi_bin-AllFunded params input a b C ea eb)
