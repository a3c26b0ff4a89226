-- ===== src/Decision/DiffPlan/Quiet.antt =====
-- The quiet gate of `diffPlan`, src/decision/diffPlanner.ts: whether the position is close enough to
-- the rows that were built. With the text of a plan's reason.
use lp_agent.Prelude.{
  ℕ, ◌+◌, String, Bool, false, not, ◌&&◌, Option, none, some, List, [], ◌∷◌, ◌++◌, map, length,
  if◌then◌else◌,
}
use Prim.Native.String.{◌++◌ as cat}
use lp_agent.Prelude.Floats.{Floats}
use lp_agent.Prelude.Int.{ℤ, pos, pos_part, neg_part, ◌-ℤ◌, leb_ℤ, eqb_ℤ}
use lp_agent.State.{trend}
use lp_agent.Decision.{total}
use lp_agent.Decision.Inventory.{InventoryAdjustment, balanced, mild, moderate, severe}
use lp_agent.Decision.DiffPlan.{
  PositionBin, PlanContext, StopLoss, DiffPlanInput, whole, sum_f, weights_of, bins_of,
}
use lp_agent.Decision.DiffPlan.Build.{
  is_pos, non_empty, position_center, includes, forced_bins, Row, set_entry,
}
use lp_agent.Decision.DiffPlan.Rows.{adjustment_of}

module _ {F : Type 0} (num : Floats F) where
  -- ---- the reason

  abbrev int_text : ℤ → String
  int_text k = num.print (num.of_int k)

  abbrev join_bins : List ℤ → String
  join_bins [] = ""
  join_bins (k ∷ ks) = elim ks [
    | [] ↦ int_text k
    | _ ∷ _ ↦ cat (int_text k) (cat "/" (join_bins ks))
  ]

  abbrev stop_loss_tag : Option StopLoss → String
  stop_loss_tag none = ""
  stop_loss_tag (some s) =
      cat
        (if non_empty s.force_liquidation_bins
          then cat " stopLoss=force@" (join_bins s.force_liquidation_bins)
          else "")
        (elim s.relaxed_ask_floor_bin [
          | none ↦ ""
          | some floor ↦ cat " stopLoss=relax@" (int_text floor)
        ])

  abbrev state_label : PlanContext F → String
  state_label ctx = elim ctx.state [
    | trend ↦ if ctx.strong_trend then "TREND/strong" else "TREND/weak"
    | _ ↦ "NORMAL"
  ]

  abbrev regime_text : InventoryAdjustment F → String
  regime_text adj =
      let overage = cat " overage=" (num.to_fixed adj.sui_overage 2) in
      elim adj.regime [
        | balanced ↦ "balanced"
        | mild ↦ cat "mild" overage
        | moderate ↦ cat "moderate" overage
        | severe ↦ cat "severe" overage
      ]

  abbrev pub reason_of : DiffPlanInput F → List Row → String
  reason_of input rows = cat "diffPlan: " (
      cat (state_label input.ctx) (
        cat " center=" (
          cat (int_text input.active_bin_id) (
            cat " active=" (
              cat (int_text input.active_bin_id) (
                cat " bins=" (
                  cat (int_text (pos (length rows))) (
                    cat " halfWidth=" (
                      cat (int_text input.ctx.half_width) (
                        cat " trendBias=" (
                          cat (num.to_fixed input.ctx.trend_bias 2) (
                            cat " inv=" (
                              cat (regime_text (adjustment_of num input))
                                (stop_loss_tag input.stop_loss))))))))))))))

  -- ---- the quiet gate

  abbrev number_sum : List Row → List (ℤ × F)
  number_sum [] = []
  number_sum ((k, a, b) ∷ rows) = (k, num.add (num.of_int a) (num.of_int b)) ∷ number_sum rows

  unfoldable pub positive_entries : List (ℤ × F) → List (ℤ × F) → List (ℤ × F)
  positive_entries found [] = found
  positive_entries found ((k, v) ∷ entries) =
      positive_entries (if num.gt v (whole num 0) then set_entry k v found else found) entries

  unfoldable pub amounts_to_weights : List Row → List (ℤ × F)
  amounts_to_weights rows =
      let raw = positive_entries [] (number_sum rows) in
      let sum = sum_f num (weights_of num raw) in
      if num.ge (whole num 0) sum then [] else map (λ entry. (entry.0, num.div entry.1 sum)) raw

  unfoldable pub share_weights : ℤ → List (ℤ × F) → List PositionBin → List (ℤ × F)
  share_weights sum found [] = found
  share_weights sum found (b ∷ bs) =
      share_weights sum
        (if is_pos b.liquidity_share
          then set_entry b.bin_id (num.div (num.of_int b.liquidity_share) (num.of_int sum)) found
          else found)
        bs

  unfoldable pub current_position_weights : List PositionBin → List (ℤ × F)
  current_position_weights bins =
      let sum = total (map (λ b. b.liquidity_share) bins) in
      if eqb_ℤ sum (pos 0) then [] else share_weights sum [] bins

  unfoldable pub weight_at : ℤ → List (ℤ × F) → F
  weight_at k [] = whole num 0
  weight_at k ((b, w) ∷ entries) = let rest = weight_at k entries in if eqb_ℤ b k then w else rest

  unfoldable pub deviation_from : F → List (ℤ × F) → List (ℤ × F) → List ℤ → F
  deviation_from sum target current [] = sum
  deviation_from sum target current (k ∷ ks) =
      deviation_from (num.add sum (num.abs (num.sub (weight_at k target) (weight_at k current))))
        target current ks

  unfoldable pub without : List ℤ → List ℤ → List ℤ
  without known [] = []
  without known (k ∷ ks) =
      let rest = without known ks in if includes k known then rest else k ∷ rest

  unfoldable pub shape_deviation : List (ℤ × F) → List (ℤ × F) → F
  shape_deviation target current =
      deviation_from (whole num 0) target current
        (bins_of num target ++ without (bins_of num target) (bins_of num current))

  abbrev pub abs_ℤ : ℤ → ℕ
  abs_ℤ z = pos_part z + neg_part z

  unfoldable pub is_quiet : DiffPlanInput F → List Row → Bool
  is_quiet input rows = elim (position_center input.pm.position_bins) [
    | none ↦ false
    | some center ↦
        not (adjustment_of num input).bypass_gas_filter
        && not (non_empty (forced_bins input.stop_loss))
        && leb_ℤ (pos (abs_ℤ (center -ℤ input.active_bin_id))) input.ctx.tolerance_bins
        && num.gt (num.decimal 15 2) (
            shape_deviation (amounts_to_weights rows)
              (current_position_weights input.pm.position_bins))
  ]
