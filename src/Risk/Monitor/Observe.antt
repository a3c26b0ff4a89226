-- ===== src/Risk/Monitor/Observe.antt =====
-- The observations of src/risk/monitor.ts: `observeForPool`, `observeSourceStaleness`, `set24hPnl`.
use lp_agent.Prelude.{ℕ, String, Option, none, some, ◌++◌}
use lp_agent.Prelude.Floats.{Floats}
use lp_agent.Risk.Monitor.State.{
  RiskThresholds, L3Thresholds, MonitorSnapshot, MonitorPrediction, StalenessInfo, PoolRiskState,
  RiskMonitor, persist_all, pool_state, put_state,
}
use lp_agent.Risk.Monitor.Feed.{push_price, push_tvl, push_spread, store_prediction}
use lp_agent.Risk.Monitor.Levels.{evaluate_l2, l2_notes, evaluate_l1, l1_notes}

module _ {F : Type 0} (num : Floats F) where
  unfoldable pub fed :
      MonitorSnapshot F → Option (MonitorPrediction F) → PoolRiskState F → PoolRiskState F
  fed snapshot pred state =
      store_prediction num snapshot.ts pred
        (record (push_spread num snapshot.ts snapshot.spread (
          push_tvl num snapshot.ts snapshot.tvl_usd
            (push_price num snapshot.ts (num.parse snapshot.cetus_price) state))) {
              latest_snapshot_ts = some snapshot.ts;
            })

  module _ (thresholds : RiskThresholds F) (l3 : L3Thresholds F) (now : ℕ) (pool_id : String) where
    unfoldable pub observed_state :
        MonitorSnapshot F → Option (MonitorPrediction F) → PoolRiskState F → PoolRiskState F
    observed_state snapshot pred state =
        evaluate_l1 num thresholds snapshot.spread
          (evaluate_l2 num thresholds l3 now pred (fed snapshot pred state))

    unfoldable pub observe_for_pool :
        MonitorSnapshot F → Option (MonitorPrediction F) → RiskMonitor F → RiskMonitor F
    observe_for_pool snapshot pred m =
        let state = fed snapshot pred (pool_state num pool_id m) in
        persist_all now
          (l2_notes num thresholds pool_id now pred state
            ++ l1_notes num thresholds pool_id snapshot.spread
                (evaluate_l2 num thresholds l3 now pred state))
          (put_state num pool_id (observed_state snapshot pred (pool_state num pool_id m)) m)

    abbrev pub sampled : StalenessInfo → PoolRiskState F → PoolRiskState F
    sampled staleness state = record state {
      latest_source_staleness = some (record {
        captured_at_ms = now;
        sui = staleness.sui;
        cetus = staleness.cetus;
        derivatives = staleness.derivatives;
      });
    }

    unfoldable pub observe_source_staleness : StalenessInfo → RiskMonitor F → RiskMonitor F
    observe_source_staleness staleness m =
        let state = sampled staleness (pool_state num pool_id m) in
        persist_all now (l2_notes num thresholds pool_id now none state)
          (put_state num pool_id (evaluate_l2 num thresholds l3 now none state) m)

  unfoldable pub set_24h_pnl : String → F → RiskMonitor F → RiskMonitor F
  set_24h_pnl pool_id pnl_fraction m =
      put_state num pool_id (record (pool_state num pool_id m) { latest_24h_pnl = pnl_fraction }) m
