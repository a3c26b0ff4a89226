-- ===== src/Risk/Monitor/Trips.antt =====
-- The L3 conditions of src/risk/monitor.ts: `evaluateL3`, which trips the emergency stop of the pool.
use lp_agent.Prelude.{
  ℕ, ◌+◌, String, Bool, false, ◌&&◌, Option, none, some, List, length, leb, ltb, not, false, true,
  if◌then◌else◌,
}
use lp_agent.Prelude.Floats.{Floats}
use lp_agent.Risk.Circuits.{SourceStalenessInput, keep_if}
use Prim.Native.String.{◌++◌ as cat}
use lp_agent.Prelude.Int.{pos}
use lp_agent.Risk.Emergency.{
  EmergencyContext, EmergencyState, armed, pool, state as stop_state, trip,
}
use lp_agent.Risk.Monitor.State.{
  L3Thresholds, PoolRiskState, l3, RiskNote, RiskMonitor, persist_risk_event,
}

pub record TickInput : Type 0 where
  pub pool_id : String
  pub pm_id : String
  -- `positionBins.length > 0`
  pub position_open : Bool

abbrev pub context_of : TickInput → EmergencyContext
context_of input = record { pool_id = some input.pool_id; pm_id = some input.pm_id }

abbrev pub is_armed : EmergencyState → Bool
is_armed armed = true
is_armed _ = false

abbrev pub recent_l2 : ℕ → ℕ → List ℕ → List ℕ
recent_l2 now window ts = keep_if (λ t. leb now (t + window)) ts

-- The age of the pool's feed in the last sample is beyond the outage.
abbrev pub is_unreadable : ℕ → Option SourceStalenessInput → Bool
is_unreadable outage_ms none = false
is_unreadable outage_ms (some sample) = ltb outage_ms sample.cetus

abbrev pub cetus_age : Option SourceStalenessInput → ℕ
cetus_age none = 0
cetus_age (some sample) = sample.cetus

module _ {F : Type 0} (num : Floats F) where
  abbrev pub number_text : ℕ → String
  number_text n = num.print (num.of_int (pos n))

  module _ (l3_limits : L3Thresholds F) where
    abbrev pub trip_note : TickInput → String → F → F → RiskNote F
    trip_note input metric threshold observed = record {
      pool_id = some input.pool_id;
      pm_id = some input.pm_id;
      level = l3;
      kind = "emergency_trip";
      metric = metric;
      threshold = threshold;
      observed = observed;
      action = "trip_emergency_stop";
    }

    unfoldable pub trip_pool : ℕ → TickInput → RiskNote F → String → RiskMonitor F → RiskMonitor F
    trip_pool now input note reason m =
        let noted = persist_risk_event now note m in
        record noted { stop = trip reason (pool input.pool_id) now noted.stop }

    abbrev pub repeated_l2 : ℕ → PoolRiskState F → ℕ
    repeated_l2 now risk =
        length (recent_l2 now l3_limits.repeated_l2_window_ms risk.l2_entered_timestamps)

    -- The three conditions, while the stop is armed for the PM.
    unfoldable pub evaluate_armed : ℕ → TickInput → PoolRiskState F → RiskMonitor F → RiskMonitor F
    evaluate_armed now input risk m =
        if leb l3_limits.repeated_l2_count (repeated_l2 now risk)
        then trip_pool now input
            (trip_note input "repeated_l2" (num.of_int (pos l3_limits.repeated_l2_count))
              (num.of_int (pos (repeated_l2 now risk))))
            (cat "repeated L2: " (
              cat (number_text (repeated_l2 now risk)) (
                cat " EXTREME activations within " (
                  cat (number_text l3_limits.repeated_l2_window_ms)
                    (cat "ms for pool " input.pool_id)))))
            m
        else if is_unreadable l3_limits.outage_ms risk.latest_source_staleness
            && input.position_open
        then trip_pool now input
            (trip_note input "pool_unreadable_with_position" (num.of_int (pos l3_limits.outage_ms))
              (num.of_int (pos (cetus_age risk.latest_source_staleness))))
            (cat "cannot read pool state for " (
              cat (number_text (cetus_age risk.latest_source_staleness)) (
                cat "ms (> " (
                  cat (number_text l3_limits.outage_ms)
                    (cat "ms) with an open position on pool " input.pool_id)))))
            m
        else if num.gt l3_limits.pnl_pct risk.latest_24h_pnl
        then trip_pool now input
            (trip_note input "pnl_catastrophic" l3_limits.pnl_pct risk.latest_24h_pnl)
            (cat "24h PnL " (
              cat (num.print risk.latest_24h_pnl) (
                cat " below catastrophic threshold "
                  (cat (num.print l3_limits.pnl_pct) (cat " for pool " input.pool_id)))))
            m
        else m

    unfoldable pub evaluate_l3 : ℕ → TickInput → PoolRiskState F → RiskMonitor F → RiskMonitor F
    evaluate_l3 now input risk m =
        if not (is_armed (stop_state (some (context_of input)) m.stop))
        then m
        else evaluate_armed now input risk m
