-- ===== src/State/Machine/Runs.antt =====
-- Sequences of evaluations of a machine of src/state/machine.ts.
use lp_agent.Prelude.{ℕ, suc, refl, String, Bool, Option, none, List, [], ◌∷◌, All, arith}
use lp_agent.Prelude.Floats.{Floats}
use lp_agent.State.{normal, StateRow, StateHistory}
use lp_agent.State.Params.{StateParams}
use lp_agent.State.Transitions.{MarketSnapshot, PredictionResponse, ExtremeSignal}
use lp_agent.State.Machine.{StateMachine, create_state_machine, advance}
use lp_agent.State.Machine.Moves.{advance-Ticked}
use lp_agent.State.Machine.Timeline.{IsOlder, Timeline, Ticked-Timeline}

-- The arguments of one call of `advance`, with the time that it reads.
pub record Tick (F : Type 0) : Type 0 where
  pub snapshot : MarketSnapshot F
  pub pred : PredictionResponse F
  pub extreme_signal : Option ExtremeSignal
  pub vol_recovered : Bool
  pub now_ms : ℕ

module _ {F : Type 0} (num : Floats F) (params : StateParams F) where
  unfoldable pub run : List (Tick F) → StateMachine F → StateMachine F
  run [] m = m
  run (t ∷ ts) m =
      run ts (advance num params t.snapshot t.pred t.extreme_signal t.vol_recovered t.now_ms m).1

  run-Timeline :
      {before : List StateRow} (ts : List (Tick F)) (m : StateMachine F)
      → Timeline before m
      → Timeline before (run ts m)
  unfolding run
  run-Timeline [] m t = t
  run-Timeline (tick ∷ ts) m t = run-Timeline ts _ (
      Ticked-Timeline tick.now_ms t (
        advance-Ticked num params tick.snapshot tick.pred tick.extreme_signal tick.vol_recovered
          tick.now_ms m))

  -- However a new machine is evaluated, with whatever throws, the rows it has written are a
  -- timeline in front of the rows that were in the table, the ids of which are not above the last id: one open row, which is the current state,
  -- each closed row ends where the next begins and names it as the state before, a stay lasts its minimum dwell
  -- unless EXTREME ends it, and EXTREME returns to the state it was entered from.
  pub history_is_Timeline :
      (pool_id : String) (db : StateHistory) (boot_ms : ℕ) (ts : List (Tick F))
      → All (IsOlder (suc db.last_id)) db.rows
      → Timeline db.rows (run ts (create_state_machine pool_id db boot_ms))
  history_is_Timeline pool_id db boot_ms ts older =
      run-Timeline ts (create_state_machine pool_id db boot_ms) (record {
        open_row = record {
          id = suc db.last_id;
          pool_id = pool_id;
          entered_at_ms = boot_ms;
          exited_at_ms = none;
          state = normal;
          trigger = "init";
          prev_state = none;
        };
        closed = [];
        rows_eq = refl;
        is_open = refl;
        is_current = refl;
        state_eq = refl;
        entered_eq = refl;
        prev_eq = refl;
        pool_eq = refl;
        ids = older;
        last = omega arith;
        chain = (refl, refl);
      })
