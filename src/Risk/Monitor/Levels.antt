-- ===== src/Risk/Monitor/Levels.antt =====
-- The L2 and L1 circuits of src/risk/monitor.ts: `evaluateL2` and `evaluateL1`.
use lp_agent.Prelude.{
  ℕ, ◌+◌, String, Bool, true, false, not, ◌&&◌, Option, none, some, List, [], ◌∷◌, ◌++◌, ltb,
  if◌then◌else◌,
}
use lp_agent.Prelude.Floats.{Floats}
use lp_agent.Risk.Circuits.{
  TriggerResult, any_fires, whole, check_volatility_5m, check_tvl_drop_5m, check_spread_sustained,
  check_p_break_sum, check_pnl_24h, check_data_outage, check_source_staleness, can_exit_extreme,
}
use lp_agent.Risk.Monitor.State.{
  RiskThresholds, L3Thresholds, MonitorPrediction, PoolRiskState, l1, l2, RiskNote, usable,
  minus_one, window_5m_ms,
}

abbrev pub data_stale_threshold_ms : ℕ
data_stale_threshold_ms = 60_000

abbrev pub extreme_stable_required_ms : ℕ
extreme_stable_required_ms = 600_000

-- The leading timestamps before the window.
unfoldable pub drop_before : ℕ → ℕ → List ℕ → List ℕ
drop_before now window [] = []
drop_before now window (t ∷ ts) =
    let rest = drop_before now window ts in if ltb (t + window) now then rest else t ∷ ts

unfoldable pub firing : {F : Type 0} → List (TriggerResult F) → List (TriggerResult F)
firing [] = []
firing (r ∷ rs) = let rest = firing rs in if r.fires then r ∷ rest else rest

abbrev pub entered_or : Option ℕ → ℕ → ℕ
entered_or none now = now
entered_or (some t) now = t

module _ {F : Type 0} (num : Floats F) where
  module _ (thresholds : RiskThresholds F) where
    abbrev pub source_staleness_results : PoolRiskState F → ℕ → List (TriggerResult F)
    source_staleness_results state now =
        check_source_staleness num state.latest_source_staleness thresholds.source_stale_sui_ms
          thresholds.source_stale_cetus_ms thresholds.source_stale_deriv_ms now

    -- Once data has come.
    abbrev pub outage_results : Option ℕ → ℕ → List (TriggerResult F)
    outage_results none now = []
    outage_results (some ts) now = check_data_outage num (some ts) data_stale_threshold_ms now ∷ []

    abbrev pub break_results :
        Option (MonitorPrediction F) → PoolRiskState F → List (TriggerResult F)
    break_results pred state = elim (usable num pred) [
      | some p ↦ check_p_break_sum num p.p_above p.p_below thresholds.p_break_sum ∷ []
      | none ↦ elim state.latest_pred_ts [
        | none ↦ []
        | some _ ↦
            check_p_break_sum num state.latest_p_above state.latest_p_below thresholds.p_break_sum
            ∷ []
      ]
    ]

    abbrev pub volatility_result : PoolRiskState F → ℕ → TriggerResult F
    volatility_result state now =
        check_volatility_5m num state.price_window thresholds.extreme_volatility_5m now window_5m_ms

    abbrev pub tvl_result : PoolRiskState F → ℕ → TriggerResult F
    tvl_result state now =
        check_tvl_drop_5m num state.tvl_window thresholds.tvl_drop_5m now window_5m_ms

    abbrev pub spread_result : PoolRiskState F → ℕ → TriggerResult F
    spread_result state now =
        check_spread_sustained num state.spread_window thresholds.spread_extreme
          thresholds.spread_sustain_ms now

    unfoldable pub l2_results :
        ℕ → Option (MonitorPrediction F) → PoolRiskState F → List (TriggerResult F)
    l2_results now pred state =
        volatility_result state now
        ∷ tvl_result state now
        ∷ spread_result state now
        ∷ (break_results pred state
            ++ check_pnl_24h num state.latest_24h_pnl thresholds.pnl_24h_pct
              ∷ (outage_results state.latest_snapshot_ts now ++ source_staleness_results state now))

    abbrev pub may_exit : ℕ → List (TriggerResult F) → PoolRiskState F → Bool
    may_exit now results state =
        can_exit_extreme num results (entered_or state.extreme_entered_at_ms now)
          extreme_stable_required_ms now thresholds.volatility_recovery
          (volatility_result state now).observed

    module _ (l3 : L3Thresholds F) where
      -- `anyFires && !extremeActive`
      unfoldable pub enter_extreme : ℕ → PoolRiskState F → PoolRiskState F
      enter_extreme now state = record state {
        extreme_active = true;
        extreme_entered_at_ms = some now;
        l2_entered_timestamps =
            drop_before now l3.repeated_l2_window_ms (state.l2_entered_timestamps ++ now ∷ []);
      }

      unfoldable pub evaluate_l2 :
          ℕ → Option (MonitorPrediction F) → PoolRiskState F → PoolRiskState F
      evaluate_l2 now pred state =
          let results = l2_results now pred state in
          if any_fires results && not state.extreme_active
          then enter_extreme now state
          else if not (any_fires results) && state.extreme_active && may_exit now results state
          then record state { extreme_active = false; extreme_entered_at_ms = none }
          else state

    abbrev pub enter_note : String → TriggerResult F → RiskNote F
    enter_note pool_id r = record {
      pool_id = some pool_id;
      pm_id = none;
      level = l2;
      kind = "extreme_enter";
      metric = r.metric;
      threshold = r.threshold;
      observed = if num.is_finite r.observed then r.observed else minus_one num;
      action = "enter_extreme_withdraw_all";
    }

    unfoldable pub enter_notes : String → List (TriggerResult F) → List (RiskNote F)
    enter_notes pool_id [] = []
    enter_notes pool_id (r ∷ rs) = enter_note pool_id r ∷ enter_notes pool_id rs

    abbrev pub exit_note : String → RiskNote F
    exit_note pool_id = record {
      pool_id = some pool_id;
      pm_id = none;
      level = l2;
      kind = "extreme_exit";
      metric = "all_triggers_clear";
      threshold = whole num 0;
      observed = whole num 0;
      action = "resume_normal_operations";
    }

    -- The rows that `evaluateL2` writes.
    unfoldable pub l2_notes :
        String → ℕ → Option (MonitorPrediction F) → PoolRiskState F → List (RiskNote F)
    l2_notes pool_id now pred state =
        let results = l2_results now pred state in
        if any_fires results && not state.extreme_active
        then enter_notes pool_id (firing results)
        else if not (any_fires results) && state.extreme_active && may_exit now results state
        then exit_note pool_id ∷ []
        else []

    -- ---- L1

    abbrev pub in_soft_band : F → Bool
    in_soft_band abs_spread =
        num.ge abs_spread thresholds.l1_spread_soft_band_low
        && num.gt thresholds.l1_spread_soft_band_high abs_spread

    abbrev pub soft_note : String → String → String → F → RiskNote F
    soft_note pool_id kind action abs_spread = record {
      pool_id = some pool_id;
      pm_id = none;
      level = l1;
      kind = kind;
      metric = "spread";
      threshold = thresholds.l1_spread_soft_band_low;
      observed = abs_spread;
      action = action;
    }

    unfoldable pub evaluate_l1 : F → PoolRiskState F → PoolRiskState F
    evaluate_l1 spread state = record state { soft_active = in_soft_band (num.abs spread) }

    unfoldable pub l1_notes : String → F → PoolRiskState F → List (RiskNote F)
    l1_notes pool_id spread state =
        let abs_spread = num.abs spread in
        if in_soft_band abs_spread && not state.soft_active
        then soft_note pool_id "soft_enter" "increase_lending_narrow_width" abs_spread ∷ []
        else if not (in_soft_band abs_spread) && state.soft_active
        then soft_note pool_id "soft_exit" "resume_normal_exposure" abs_spread ∷ []
        else []
