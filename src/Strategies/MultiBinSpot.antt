-- ===== src/Strategies/MultiBinSpot.antt =====
-- src/strategies/multiBinSpot.ts: liquidity over the bins around the active one, weighted by the
-- distribution of the price that its volatility gives. Nothing where the strategy throws.
pub mod Split
pub mod Rows
pub mod Shares
pub mod Placed
pub mod Signs
pub mod Sound
use Prim.Native.String.{◌++◌ as cat}
use lp_agent.Prelude.{
  ℕ, ◌+◌, ◌-◌, zero, suc, Bool, true, false, not, ◌&&◌, ◌||◌, String, Option, none, some, List, [],
  ◌∷◌, length, ltb, leb, map, if◌then◌else◌,
}
use lp_agent.Prelude.Floats.{Floats}
use lp_agent.Prelude.Int.{ℤ, pos, pos_part, neg_part, ◌-ℤ◌, leb_ℤ}
use lp_agent.Decision.{RebalancePlan, total}
use lp_agent.Decision.DiffPlan.{PmState, PoolOrientation}
use lp_agent.Decision.DiffPlan.Build.{non_empty, has_fees, position_center, all_shares, Row}
use lp_agent.Decision.DiffPlan.Rows.{human_price_for_bin}
use lp_agent.Forecast.Volatility.{
  OhlcvBar, PriceDistribution, default_ewma_lambda, ewma_sigma, parkinson_sigma,
  scale_sigma_to_horizon,
}
use lp_agent.Forecast.BinWeights.{compute_bin_weights, pick_bin_range}
use lp_agent.Strategies.{StrategyOutput, plan_and_reconcile, quiet}
use lp_agent.Strategies.SingleBin.{is_empty, in_range, gross_a, gross_b}
use lp_agent.Strategies.MultiBinSpot.Split.{split_by_weight}
use lp_agent.Strategies.MultiBinSpot.Rows.{weights_above, weights_below, placed_amounts, kept_bins}

pub record MultiBinSpotParams (F : Type 0) : Type 0 where
  pub sigma_multiplier : F
  pub horizon_ms : F
  pub drift_bins_trigger : ℤ
  pub max_half_width_bins : ℤ

pub record PricePrint : Type 0 where
  pub timestamp_ms : ℕ
  pub price : String

-- What the strategy reads at a tick.
pub record SpotInput (F : Type 0) : Type 0 where
  pub pm : PmState
  pub active_bin_id : ℤ
  pub fee_rate_bps : F
  pub spot_price : String
  pub history : List PricePrint
  pub orientation : PoolOrientation F

abbrev last_time : ℕ → List PricePrint → ℕ
last_time t [] = t
last_time t (h ∷ hs) = last_time h.timestamp_ms hs

abbrev pub abs_distance : ℤ → ℤ → ℤ
abs_distance a b = pos (pos_part (a -ℤ b) + neg_part (a -ℤ b))

abbrev pub has_drifted : ℤ → ℤ → Option ℤ → Bool
has_drifted trigger active none = false
has_drifted trigger active (some center) = leb_ℤ trigger (abs_distance active center)

-- Outside its range, where there is a position.
abbrev pub out_of_range : {F : Type 0} → SpotInput F → Bool
out_of_range input =
    non_empty input.pm.position_bins && not (in_range input.active_bin_id input.pm.position_bins)

module _ {F : Type 0} (num : Floats F) where
  abbrev default_params : MultiBinSpotParams F
  default_params = record {
    sigma_multiplier = num.decimal 3 0;
    horizon_ms = num.decimal 1_800_000 0;
    drift_bins_trigger = pos 3;
    max_half_width_bins = pos 16;
  }

  abbrev pub prices_of : List PricePrint → List F
  prices_of [] = []
  prices_of (h ∷ hs) = num.number h.price ∷ prices_of hs

  -- The average spacing of the history, or a minute.
  unfoldable pub bar_period_ms : List PricePrint → F
  bar_period_ms (h ∷ g ∷ hs) =
      let last = last_time g.timestamp_ms hs in
      if ltb h.timestamp_ms last
      then num.max
          (num.div (num.of_int (pos (last - h.timestamp_ms))) (num.of_int (pos (length (g ∷ hs)))))
          (num.decimal 1_000 0)
      else num.decimal 60_000 0
  bar_period_ms _ = num.decimal 60_000 0

  -- The volatility per bar and the name of its estimator.
  unfoldable pub sigma_of : List (OhlcvBar F) → List F → Option (F × String)
  sigma_of bars prices =
      if leb 5 (length bars)
      then some (parkinson_sigma num bars, "parkinson")
      else if leb 2 (length prices)
      then elim (ewma_sigma num prices (default_ewma_lambda num)) [
        | none ↦ none
        | some s ↦ some (s, "ewma")
      ]
      else some (num.decimal 1 3, "cold-start")

  unfoldable pub build_distribution :
      F → List (OhlcvBar F) → List F → MultiBinSpotParams F → F → Option (PriceDistribution F)
  build_distribution spot_price bars prices params period = elim (sigma_of bars prices) [
    | none ↦ none
    | some (s, estimator) ↦ elim (scale_sigma_to_horizon num s period params.horizon_ms) [
      | none ↦ none
      | some sigma ↦ some (record {
        log_mu = num.log spot_price;
        sigma = sigma;
        horizon_ms = params.horizon_ms;
        estimator = estimator;
      })
    ]
  ]

  abbrev pub has_spot : SpotInput F → Bool
  has_spot input =
      num.is_finite (num.number input.spot_price)
      && num.gt (num.number input.spot_price) (num.decimal 0 0)

  abbrev pub drift_triggered : MultiBinSpotParams F → SpotInput F → Bool
  drift_triggered params input =
      has_drifted params.drift_bins_trigger input.active_bin_id
        (position_center input.pm.position_bins)

  abbrev pub should_recenter : MultiBinSpotParams F → SpotInput F → Bool
  should_recenter params input =
      not (non_empty input.pm.position_bins) || out_of_range input || drift_triggered params input

  abbrev pub weights_under : MultiBinSpotParams F → SpotInput F → PriceDistribution F → List (ℤ × F)
  weights_under params input dist =
      let half_bins_raw =
        num.div (num.mul (num.mul params.sigma_multiplier dist.sigma) (num.decimal 10_000 0))
          input.orientation.bin_step in
      compute_bin_weights num (record {
        bins = pick_bin_range num input.active_bin_id half_bins_raw params.max_half_width_bins;
        orientation = input.orientation;
        active_bin_id = input.active_bin_id;
        fee_rate_bps = input.fee_rate_bps;
        distribution = dist;
      })

  abbrev pub rows_with : ℤ → List (ℤ × F) → Option (List ℤ) → Option (List ℤ) → Option (List Row)
  rows_with active weights (some above) (some below) =
      some (kept_bins (placed_amounts active weights above below))
  rows_with active weights (some above) none = none
  rows_with active weights none below = none

  -- The rows of the plan.
  abbrev pub spot_rows : SpotInput F → List (ℤ × F) → Option (List Row)
  spot_rows input weights =
      rows_with input.active_bin_id weights
        (split_by_weight num (gross_a input.pm) (weights_above input.active_bin_id weights))
        (split_by_weight num (gross_b input.pm) (weights_below input.active_bin_id weights))

  abbrev spot_reason : MultiBinSpotParams F → SpotInput F → PriceDistribution F → ℕ → String
  spot_reason params input dist bins = cat "multiBinSpot: " (
      cat
        (if should_recenter params input
          then if out_of_range input
            then "out-of-range"
            else if drift_triggered params input
            then "drift"
            else "init"
          else "fees-only")
        (cat " σ=" (
          cat (num.to_fixed dist.sigma 5) (
            cat " bins=" (
              cat (num.print (num.of_int (pos bins))) (
                cat " center=" (
                  cat (num.print (num.of_int input.active_bin_id)) (
                    cat " priceMid=" (
                      num.to_precision
                        (human_price_for_bin num input.orientation input.active_bin_id) 8)))))))))

  abbrev pub spot_plan :
      MultiBinSpotParams F → SpotInput F → PriceDistribution F → List Row → RebalancePlan
  spot_plan params input dist rows = record {
    pm_id = input.pm.pm_id;
    remove_shares = all_shares input.pm;
    add_amount_a = total (map (λ row. row.1) rows);
    add_amount_b = total (map (λ row. row.2) rows);
    add_bins = map (λ row. row.0) rows;
    add_amounts_a = map (λ row. row.1) rows;
    add_amounts_b = map (λ row. row.2) rows;
    collect_fees = has_fees input.pm;
    reason = spot_reason params input dist (length rows);
    planned_active_bin_id = some input.active_bin_id;
    priority = none;
  }

  abbrev pub planned :
      {C : Type 0}
      → MultiBinSpotParams F
      → SpotInput F
      → PriceDistribution F
      → Option (List Row)
      → Option (StrategyOutput C)
  planned params input dist none = none
  planned params input dist (some rows) =
      some (plan_and_reconcile (spot_plan params input dist rows) none none)

  abbrev pub plan_with :
      {C : Type 0}
      → MultiBinSpotParams F
      → SpotInput F
      → Option (PriceDistribution F)
      → Option (StrategyOutput C)
  plan_with params input none = none
  plan_with params input (some dist) =
      if not (should_recenter params input) && not (has_fees input.pm)
      then some (quiet "multiBinSpot: in range, no fees")
      else planned params input dist (spot_rows input (weights_under params input dist))

  unfoldable pub plan_multi_bin :
      {C : Type 0} → MultiBinSpotParams F → SpotInput F → Option (StrategyOutput C)
  plan_multi_bin params input =
      if is_empty input.pm
      then some (quiet "multiBinSpot: empty PM")
      else if not (has_spot input)
      then some (quiet (cat "multiBinSpot: invalid spot price " input.spot_price))
      else plan_with params input (
          build_distribution (num.number input.spot_price) [] (prices_of input.history) params
            (bar_period_ms input.history))
