-- ===== src/Risk/Monitor/PreTick.antt =====
-- The check before a tick of src/risk/monitor.ts: `checkPreTick`, `activeLevel` and `volRecovered`.
use lp_agent.Prelude.{
  ℕ, ◌+◌, String, Bool, true, false, not, Option, none, some, List, [], ◌∷◌, ◌++◌, ltb,
  if◌then◌else◌,
}
use lp_agent.Prelude.Floats.{Floats}
use lp_agent.Table.{select}
use lp_agent.Risk.Circuits.{SpreadPoint, TriggerResult, whole, check_p_break_sum, check_pnl_24h}
use Prim.Native.String.{◌++◌ as cat}
use lp_agent.Risk.Emergency.{armed, state as stop_state, is_tripped, is_draining}
use lp_agent.Risk.Monitor.State.{
  RiskThresholds, L3Thresholds, PoolRiskState, RiskLevel, l1, l2, l3, RiskNote, RiskMonitor,
  entry_pool, persist_risk_event, pool_state, put_state, minus_one,
}
use lp_agent.Risk.Monitor.Levels.{
  outage_results, source_staleness_results, volatility_result, tvl_result, spread_result, may_exit,
}
use lp_agent.Risk.Monitor.Trips.{TickInput, context_of, evaluate_l3}

pub data RiskVeto (F : Type 0) : Type 0 where
  emergency drain : String → RiskVeto F
  -- The reason and the trigger; the reason, the bonus in percentage points and the factor.
  extreme : String → String → RiskVeto F
  soft : String → F → F → RiskVeto F

abbrev pub pred_stale_threshold_ms : ℕ
pred_stale_threshold_ms = 2_400_000

unfoldable pub first_firing : {F : Type 0} → List (TriggerResult F) → Option (TriggerResult F)
first_firing [] = none
first_firing (r ∷ rs) = let rest = first_firing rs in if r.fires then some r else rest

abbrev pub is_fresh : Option ℕ → ℕ → Bool
is_fresh none now = false
is_fresh (some ts) now = ltb now (ts + pred_stale_threshold_ms)

module _ {F : Type 0} (num : Floats F) where
  unfoldable pub last_spread : F → List (SpreadPoint F) → F
  last_spread s [] = s
  last_spread s (p ∷ ps) = last_spread (num.abs p.spread) ps

  module _ (thresholds : RiskThresholds F) (l3_limits : L3Thresholds F) where
    -- The trigger list of the veto, in its order.
    abbrev pub break_if_fresh : ℕ → PoolRiskState F → List (TriggerResult F)
    break_if_fresh now risk =
        if is_fresh risk.latest_pred_ts now
        then check_p_break_sum num risk.latest_p_above risk.latest_p_below thresholds.p_break_sum
          ∷ []
        else []

    unfoldable pub veto_results : ℕ → PoolRiskState F → List (TriggerResult F)
    veto_results now risk =
        volatility_result num thresholds risk now
        ∷ tvl_result num thresholds risk now
        ∷ spread_result num thresholds risk now
        ∷ check_pnl_24h num risk.latest_24h_pnl thresholds.pnl_24h_pct
        ∷ (outage_results num thresholds risk.latest_snapshot_ts now
            ++ (source_staleness_results num thresholds risk now ++ break_if_fresh now risk))

    abbrev pub trigger_name : Option (TriggerResult F) → String
    trigger_name none = "unknown"
    trigger_name (some r) = r.metric

    abbrev pub veto_note : TickInput → Option (TriggerResult F) → RiskNote F
    veto_note input r = record {
      pool_id = some input.pool_id;
      pm_id = some input.pm_id;
      level = l2;
      kind = "pre_tick_veto";
      metric = trigger_name r;
      threshold = elim r [ none ↦ whole num 0 | some r ↦ r.threshold ];
      observed = elim r [
        | none ↦ minus_one num
        | some r ↦ if num.is_finite r.observed then r.observed else minus_one num
      ];
      action = "skip_tick_extreme_active";
    }

    abbrev pub soft_veto_note : TickInput → F → RiskNote F
    soft_veto_note input latest_spread = record {
      pool_id = some input.pool_id;
      pm_id = some input.pm_id;
      level = l1;
      kind = "pre_tick_soft";
      metric = "spread";
      threshold = thresholds.l1_spread_soft_band_low;
      observed = latest_spread;
      action = "apply_soft_adjustments";
    }

    abbrev pub extreme_veto :
        ℕ → TickInput → PoolRiskState F → RiskMonitor F → Option (RiskVeto F) × RiskMonitor F
    extreme_veto now input risk m =
        let r = first_firing (veto_results now risk) in
        (
          some (extreme (cat "L2 EXTREME active: " (trigger_name r)) (trigger_name r)),
          persist_risk_event now (veto_note input r) m,
        )

    abbrev pub soft_veto :
        ℕ → TickInput → PoolRiskState F → RiskMonitor F → Option (RiskVeto F) × RiskMonitor F
    soft_veto now input risk m =
        let latest = last_spread (whole num 0) risk.spread_window in
        (
          some (
              soft (cat "L1 soft circuit: spread " (cat (num.to_fixed latest 4) " in soft band"))
                (whole num 10) (num.decimal 7 1)),
          persist_risk_event now (soft_veto_note input latest) m,
        )

    -- After `evaluateL3`.
    unfoldable pub veto_of :
        ℕ → TickInput → PoolRiskState F → RiskMonitor F → Option (RiskVeto F) × RiskMonitor F
    veto_of now input risk m =
        if is_tripped (some (context_of input)) m.stop
        then (some (emergency "emergency stop is active (HALTED)"), m)
        else if is_draining (some (context_of input)) m.stop
        then (some (drain "L3 emergency stop: force-exiting the position before halting"), m)
        else if risk.extreme_active
        then extreme_veto now input risk m
        else if risk.soft_active
        then soft_veto now input risk m
        else (none, m)

    unfoldable pub check_pre_tick :
        ℕ → TickInput → RiskMonitor F → Option (RiskVeto F) × RiskMonitor F
    check_pre_tick now input m =
        let risk = pool_state num input.pool_id m in
        let kept = put_state num input.pool_id risk m in
        veto_of now input risk (evaluate_l3 num l3_limits now input risk kept)

    -- ---- what the state machine and the rebalancer ask

    unfoldable pub active_level : String → RiskMonitor F → Option RiskLevel
    active_level pool_id m =
        elim (stop_state (some (record { pool_id = some pool_id; pm_id = none })) m.stop) [
          | armed ↦ elim (select entry_pool pool_id m.pools) [
            | none ↦ none
            | some e ↦
                if e.risk.extreme_active
                then some l2
                else if e.risk.soft_active
                then some l1
                else none
          ]
          | _ ↦ some l3
        ]

    abbrev pub recovered_in : ℕ → PoolRiskState F → Bool
    recovered_in now risk =
        if not risk.extreme_active
        then true
        else may_exit num thresholds now (veto_results now risk) risk

    unfoldable pub vol_recovered : ℕ → String → RiskMonitor F → Bool
    vol_recovered now pool_id m = elim (select entry_pool pool_id m.pools) [
      | none ↦ true
      | some e ↦ recovered_in now e.risk
    ]
