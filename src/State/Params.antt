-- ===== src/State/Params.antt =====
-- src/state/params.ts: the thresholds, the tables by state and the derived parameters.
use lp_agent.Prelude.{ℕ, ◌*◌, Option, none, some, if◌then◌else◌}
use lp_agent.Prelude.Floats.{Floats}
use lp_agent.State.{MarketState, normal, trend, extreme, ◌>>=◌}

abbrev pub eval_interval_ms : MarketState → ℕ
eval_interval_ms normal = 20 * 60 * 1_000
eval_interval_ms trend = 15 * 60 * 1_000
eval_interval_ms extreme = 60 * 1_000

abbrev pub min_dwell_ms : MarketState → ℕ
min_dwell_ms normal = 15 * 60 * 1_000
min_dwell_ms trend = 15 * 60 * 1_000
min_dwell_ms extreme = 10 * 60 * 1_000

pub record StateParams (F : Type 0) : Type 0 where
  pub k_w : F
  pub u_high : F
  pub drift_strength_entry : F
  pub drift_strength_exit : F
  pub p_break_entry : F
  pub p_break_exit : F
  pub p_break_sum_extreme : F
  pub p_break_sum_extreme_exit : F
  pub trend_bias_strong : F

module _ {F : Type 0} (num : Floats F) where
  abbrev pub default_state_params : StateParams F
  default_state_params = record {
    k_w = num.decimal 20 1;
    u_high = num.decimal 8 1;
    drift_strength_entry = num.decimal 20 1;
    drift_strength_exit = num.decimal 15 1;
    p_break_entry = num.decimal 6 1;
    p_break_exit = num.decimal 5 1;
    p_break_sum_extreme = num.decimal 7 1;
    p_break_sum_extreme_exit = num.decimal 6 1;
    trend_bias_strong = num.decimal 7 1;
  }

  abbrev pub lending_pct_base : MarketState → F
  lending_pct_base normal = num.decimal 35 2
  lending_pct_base trend = num.decimal 50 2
  lending_pct_base extreme = num.decimal 100 2

  -- `assertFinite` before the value is used.
  abbrev pub assert_finite : {A : Type 0} → F → A → Option A
  assert_finite value result = if num.is_finite value then some result else none

  unfoldable pub derive_half_width : F → StateParams F → Option F
  derive_half_width width_sigma params = assert_finite width_sigma (
      num.max (num.decimal 2 0)
        (num.min (num.decimal 8 0) (num.round (num.mul params.k_w width_sigma))))

  unfoldable pub derive_tolerance_bins : F → F → Option F
  derive_tolerance_bins width_sigma half_width = do
    raw ← assert_finite width_sigma (num.max (num.decimal 1 0) (num.round width_sigma))
    assert_finite half_width (num.min raw half_width)

  unfoldable pub derive_trend_bias : F → F → Option F
  derive_trend_bias p_above p_below = do
    above ← assert_finite p_above p_above
    below ← assert_finite p_below p_below
    some (
        num.max (num.neg (num.decimal 1 0))
          (num.min (num.decimal 1 0) (num.div (num.sub above below) (num.decimal 5 1))))

  abbrev pub base_pct : MarketState → F → F
  base_pct extreme trend_bias = lending_pct_base extreme
  base_pct trend trend_bias =
      num.add (lending_pct_base trend) (num.mul (num.decimal 20 2) (num.abs trend_bias))
  base_pct normal trend_bias = lending_pct_base normal

  unfoldable pub derive_lending_pct : MarketState → F → Option F
  derive_lending_pct state trend_bias =
      assert_finite trend_bias
        (num.max (num.decimal 0 0) (num.min (num.decimal 1 0) (base_pct state trend_bias)))
