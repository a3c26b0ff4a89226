-- ===== src/Risk/Examples.antt =====
-- Runs of the emergency stop at concrete inputs.
use lp_agent.Prelude.{◌≤◌, ◌≡◌, refl, eq_iff, true, false, none, some, List, [], ◌∷◌, arith}
use lp_agent.Table.{select, update}
use lp_agent.Risk.Emergency.{
  halted, pm, EmergencyContext, DrainOutcome, RiskEvent, RiskDb, EmergencyStop, severity, scope_key,
  context_keys, create_emergency_stop, state, is_tripped, trip, insert_risk_event, unresolved,
  is_tripped_at, record_drain_attempt, drain_each, drain_step, applicable, hits, sort_by_severity,
  insert_by_severity, first_state, set_latch, rehydrate,
}
use lp_agent.Risk.Emergency.Latching.{
  StopCall, trip_call, drain_call, run_call, run_calls, contains, never_less_severe,
}
use lp_agent.Risk.Emergency.Draining.{drain_all, drain_ends}
use lp_agent.Risk.Emergency.Restart.{restart_keeps_stop}

abbrev fresh_db : RiskDb
fresh_db = record { events = []; last_id = 0 }

abbrev fresh : EmergencyStop
fresh = record { latches = []; db = fresh_db }

abbrev here : EmergencyContext
here = record { pool_id = some "p"; pm_id = some "m" }

abbrev still_deployed : DrainOutcome
still_deployed = record { position_empty = false }

abbrev calls : List StopCall
calls = trip_call "tx failures" (pm "m") 10 ∷ drain_call here still_deployed ∷ []

never_less_severe_example :
    severity (state (some here) fresh) ≤ severity (state (some here) (run_calls 3 calls fresh))
never_less_severe_example = never_less_severe 3 here calls fresh

drain_ends_example :
    is_tripped (some here) (
      drain_all 3 here
        (still_deployed ∷ still_deployed ∷ still_deployed ∷ [])
        (trip "tx failures" (pm "m") 10 fresh))
    ≡ true
unfolding contains context_keys scope_key
drain_ends_example =
    drain_ends 3 (omega arith) here "tx failures" (pm "m") 10
      (still_deployed ∷ still_deployed ∷ still_deployed ∷ []) fresh refl (omega arith)

restart_keeps_stop_example :
    state (some here) (
      create_emergency_stop
        (λ n. "1")
        (run_calls 3 calls (create_emergency_stop (λ n. "1") fresh_db)).db)
    ≡ halted
unfolding run_calls run_call trip is_tripped_at record_drain_attempt drain_each drain_step
    applicable hits sort_by_severity insert_by_severity first_state state context_keys scope_key
    set_latch create_emergency_stop rehydrate unresolved select update insert_risk_event
restart_keeps_stop_example =
    restart_keeps_stop (λ n. "1") 3 fresh_db calls here
      ((λ e. ground (arith, eq_iff "m" "")), (tt, tt)) (λ e. cc)

-- The database after a trip, and after the operator's reset.
abbrev stopped_row : RiskEvent
stopped_row = record {
  id = 1;
  pool_id = none;
  pm_id = some "m";
  ts_ms = 10;
  level = "L3";
  kind = "emergency_stop";
  metric = "emergency_stop";
  threshold = 0;
  observed = 1;
  action = "drain_position_then_halt";
  resolved_at_ms = none;
}

abbrev reset_row : RiskEvent
reset_row = record {
  id = 2;
  pool_id = none;
  pm_id = none;
  ts_ms = 20;
  level = "L3";
  kind = "emergency_stop_reset";
  metric = "emergency_stop";
  threshold = 0;
  observed = 0;
  action = "manual_reset:checked";
  resolved_at_ms = none;
}

abbrev cleared_db : RiskDb
cleared_db = record {
  events = (record stopped_row { resolved_at_ms = some 20 }) ∷ reset_row ∷ [];
  last_id = 2;
}
