-- ===== src/Decision/DiffPlan/Rows.antt =====
-- The bins and the amounts of `diffPlan`, src/decision/diffPlanner.ts, with the prices of
-- src/domain/binMath.ts. What throws is nothing.
pub mod Placed
pub mod Kept
pub mod Built
use lp_agent.Prelude.{
  ◌+◌, Bool, true, false, not, ◌&&◌, ◌||◌, Option, some, List, [], ◌∷◌, ◌++◌, map, leb,
  if◌then◌else◌,
}
use lp_agent.Prelude.Floats.{Floats}
use lp_agent.Prelude.Int.{ℤ, pos, ◌+ℤ◌, ◌-ℤ◌, ltb_ℤ, eqb_ℤ}
use lp_agent.State.{trend, ◌>>=◌}
use lp_agent.Decision.Inventory.{
  InventoryAdjustment, compute_inventory_adjustment, apply_inventory_scales, clamp_to_available,
}
use lp_agent.Decision.DiffPlan.{
  PmState, PlanContext, PoolOrientation, DiffPlanInput, bin_direction, flip, whole, sum_f,
  weights_of, bins_of, compute_normal_weights, compute_trend_weights, sign_ℤ,
}
use lp_agent.Decision.DiffPlan.Split.{split_proportional}
use lp_agent.Decision.DiffPlan.Build.{
  non_empty, compute_fixed_ops, ptb_max_ops, pm_range, value_a, value_b, available_a, available_b,
  includes, stop_loss_exempt, forced_bins, Row, rows_of, kept_rows,
}

abbrev pub zeros : {A : Type 0} → List A → List ℤ
zeros xs = map (λ _. pos 0) xs

module _ {F : Type 0} (num : Floats F) where
  unfoldable pub human_price_for_bin : PoolOrientation F → ℤ → F
  human_price_for_bin o bin_id =
      let ratio =
        num.pow (num.add (whole num 1) (num.div o.bin_step (whole num 10_000)))
          (num.of_int bin_id) in
      if o.pool_coin_a_is_quote
      then num.div
          (num.pow (whole num 10) (num.of_int (o.pool_coin_b_decimals -ℤ o.pool_coin_a_decimals)))
          ratio
      else num.mul ratio
          (num.pow (whole num 10) (num.of_int (o.pool_coin_a_decimals -ℤ o.pool_coin_b_decimals)))

  unfoldable pub passes_ask_min_filter : ℤ → ℤ → PoolOrientation F → F → Bool
  passes_ask_min_filter bin_id active_bin_id orientation fee_rate_bps =
      let bin_price = human_price_for_bin orientation bin_id in
      let active_price = human_price_for_bin orientation active_bin_id in
      let fee = num.div fee_rate_bps (whole num 10_000) in
      let ask_min_price =
        num.mul active_price
          (num.add (num.add (whole num 1) (num.mul (whole num 2) fee)) (num.decimal 3 3)) in
      if not
        (eqb_ℤ (sign_ℤ num (bin_id -ℤ active_bin_id)) (flip (bin_direction orientation) (pos 1)))
      then true
      else if not (num.is_finite bin_price)
          || not (num.is_finite active_price)
          || num.ge (whole num 0) active_price
      then true
      else num.ge (num.mul bin_price (num.add (whole num 1) fee)) ask_min_price

  -- The target: the weights, and whether the strong trend's quarter of the capital is deployed.
  unfoldable pub target_weights : DiffPlanInput F → List (ℤ × F)
  target_weights input =
      let (pm_lower, pm_upper) =
        pm_range input.pm.position_bins input.active_bin_id input.ctx.half_width in
      elim input.ctx.state [
        | trend ↦
            compute_trend_weights num input.active_bin_id input.ctx.trend_bias input.ctx.half_width
              input.width_sigma pm_lower pm_upper input.ctx.strong_trend
              (bin_direction input.orientation)
        | _ ↦
            compute_normal_weights num input.active_bin_id input.active_bin_id input.ctx.half_width
              input.width_sigma pm_lower pm_upper
      ]

  abbrev pub is_strong_trend : PlanContext F → Bool
  is_strong_trend ctx = elim ctx.state [ trend ↦ ctx.strong_trend | _ ↦ false ]

  unfoldable pub allowed : DiffPlanInput F → List (ℤ × F) → List (ℤ × F)
  allowed input [] = []
  allowed input ((k, w) ∷ entries) =
      let rest = allowed input entries in
      if not (stop_loss_exempt (bin_direction input.orientation) input.stop_loss k)
        && not (passes_ask_min_filter k input.active_bin_id input.orientation input.fee_rate_bps)
      then rest
      else (k, w) ∷ rest

  unfoldable pub add_forced : ℤ → F → List ℤ → List (ℤ × F) → List (ℤ × F)
  add_forced active_bin max_w [] candidates = candidates
  add_forced active_bin max_w (k ∷ ks) candidates = add_forced active_bin max_w ks (
      if eqb_ℤ k active_bin
      then candidates
      else if includes k (bins_of num candidates)
      then candidates
      else candidates ++ (k, max_w) ∷ [])

  unfoldable pub max_weight : F → List F → F
  max_weight m [] = m
  max_weight m (w ∷ ws) = max_weight (num.max m w) ws

  -- `m || 1`
  abbrev pub or_one : F → F
  or_one m = if num.gt m (whole num 0) || num.gt (whole num 0) m then m else whole num 1

  unfoldable pub candidates_of : DiffPlanInput F → List (ℤ × F)
  candidates_of input =
      let candidates = allowed input (target_weights input) in
      add_forced input.active_bin_id (or_one (max_weight (whole num 0) (weights_of num candidates)))
        (forced_bins input.stop_loss) candidates

  -- The sort of the source has no effect: the bins are kept or dropped together.
  unfoldable pub shrink_to_fit_ptb : List (ℤ × F) → PmState → Bool → List (ℤ × ℤ) → List (ℤ × F)
  shrink_to_fit_ptb candidates pm collect_fees remove_shares =
      if leb
        (compute_fixed_ops pm collect_fees remove_shares + (if non_empty candidates then 1 else 0))
        ptb_max_ops
      then candidates
      else []

  unfoldable pub above : ℤ → List (ℤ × F) → List (ℤ × F)
  above active_bin [] = []
  above active_bin ((k, w) ∷ entries) =
      let rest = above active_bin entries in if ltb_ℤ active_bin k then (k, w) ∷ rest else rest

  unfoldable pub below : ℤ → List (ℤ × F) → List (ℤ × F)
  below active_bin [] = []
  below active_bin ((k, w) ∷ entries) =
      let rest = below active_bin entries in if ltb_ℤ k active_bin then (k, w) ∷ rest else rest

  abbrev pub side_weights : List F → List F
  side_weights ws =
      if num.gt (sum_f num ws) (whole num 0) then map (λ w. num.div w (sum_f num ws)) ws else ws

  abbrev pub adjustment_of : DiffPlanInput F → InventoryAdjustment F
  adjustment_of input =
      let o = input.orientation in
      compute_inventory_adjustment num (record {
        available_a = input.pm.balance_a +ℤ input.pm.fee_a +ℤ value_a input.pm.position_value;
        available_b = input.pm.balance_b +ℤ input.pm.fee_b +ℤ value_b input.pm.position_value;
        mid_price_num =
            human_price_for_bin (record o { pool_coin_a_is_quote = false }) input.active_bin_id;
        decimal_adj =
            num.pow (whole num 10) (num.of_int (o.pool_coin_a_decimals -ℤ o.pool_coin_b_decimals));
      })

  -- The capital split over the bins of each side, corrected for the inventory, clamped, filtered
  -- and sorted.
  unfoldable pub build_rows : DiffPlanInput F → List (ℤ × F) → Option (List Row)
  build_rows input final = do
    let ups = above input.active_bin_id final
    let downs = below input.active_bin_id final
    let quarter = is_strong_trend input.ctx
    above_amounts ←
        split_proportional num (available_a input.pm quarter) (side_weights (weights_of num ups))
    below_amounts ←
        split_proportional num (available_b input.pm quarter) (side_weights (weights_of num downs))
    let bins = bins_of num ups ++ bins_of num downs
    (adjusted_a, adjusted_b) ←
        apply_inventory_scales num bins (above_amounts ++ zeros downs) (zeros ups ++ below_amounts)
          input.active_bin_id (adjustment_of input)
    let (clamped_a, clamped_b) =
        clamp_to_available adjusted_a adjusted_b (available_a input.pm quarter)
          (available_b input.pm quarter)
    some (kept_rows (rows_of bins clamped_a clamped_b))
