-- ===== src/State/Machine.antt =====
-- src/state/machine.ts: the machine of market states of one pool.
pub mod Moves
pub mod Timeline
pub mod Runs
pub mod Signals
pub mod Throws
pub mod Calm
use lp_agent.Prelude.{
  ℕ, String, Bool, true, false, not, ◌==◌, ◌&&◌, Option, none, some, List, [], ◌∷◌, if◌then◌else◌,
}
use Prim.Native.String.{◌++◌ as cat}
use lp_agent.Prelude.Floats.{Floats}
use lp_agent.State.{
  MarketState, normal, trend, extreme, same_state, ◌>>=◌, StateHistory, insert_row, close_row,
}
use lp_agent.State.Params.{
  StateParams, min_dwell_ms, eval_interval_ms, derive_half_width, derive_tolerance_bins,
  derive_trend_bias, derive_lending_pct,
}
use lp_agent.State.Transitions.{
  MarketSnapshot, PredictionResponse, ExtremeSignal, p_break, compute_drift_strength, dwell_elapsed,
  should_enter_trend, should_exit_trend, should_enter_extreme, should_exit_extreme,
}

pub record StateContext (F : Type 0) : Type 0 where
  pub state : MarketState
  pub entered_at_ms : ℕ
  pub eval_interval_ms : ℕ
  pub half_width : F
  pub trend_bias : F
  pub strong_trend : Bool
  pub lending_pct : F
  pub tolerance_bins : F
  pub min_dwell_ms : ℕ

-- The closure of `createStateMachine`: its pool, `internalState`, `lastCtx` and the table it writes.
pub record StateMachine (F : Type 0) : Type 0 where
  pub pool_id : String
  pub state : MarketState
  pub entered_at_ms : ℕ
  pub current_row_id : Option ℕ
  pub prev_state : Option MarketState
  pub last_ctx : Option (StateContext F)
  pub history : StateHistory

abbrev pub create_state_machine : {F : Type 0} → String → StateHistory → ℕ → StateMachine F
create_state_machine pool_id db boot_ms =
    let db' = insert_row pool_id boot_ms normal "init" none db in
    record {
      pool_id = pool_id;
      state = normal;
      entered_at_ms = boot_ms;
      current_row_id = some db'.last_id;
      prev_state = none;
      last_ctx = none;
      history = db';
    }

abbrev pub close_current : ℕ → Option ℕ → StateHistory → StateHistory
close_current now_ms none h = h
close_current now_ms (some id) h = close_row now_ms id h

unfoldable pub transition :
    {F : Type 0} → MarketState → String → ℕ → StateMachine F → StateMachine F
transition to trigger now_ms m =
    let h =
      insert_row m.pool_id now_ms to trigger (some m.state)
        (close_current now_ms m.current_row_id m.history) in
    record m {
      state = to;
      entered_at_ms = now_ms;
      current_row_id = some h.last_id;
      prev_state = some m.state;
      history = h;
    }

-- The state that EXTREME returns to.
abbrev pub return_state : Option MarketState → MarketState
return_state none = normal
return_state (some normal) = normal
return_state (some trend) = trend
return_state (some extreme) = normal

module _ {F : Type 0} (num : Floats F) where
  abbrev pub bias_of : MarketState → PredictionResponse F → Option F
  bias_of trend pred = derive_trend_bias num pred.p_above pred.p_below
  bias_of normal pred = some (num.decimal 0 0)
  bias_of extreme pred = some (num.decimal 0 0)

  unfoldable pub context_of :
      StateParams F → MarketState → ℕ → PredictionResponse F → Option (StateContext F)
  context_of params state entered_at_ms pred = do
    trend_bias ← bias_of state pred
    lending_pct ← derive_lending_pct num state trend_bias
    half_width ← derive_half_width num pred.width_sigma params
    tolerance_bins ← derive_tolerance_bins num pred.width_sigma half_width
    some (record {
      state = state;
      entered_at_ms = entered_at_ms;
      eval_interval_ms = eval_interval_ms state;
      half_width = half_width;
      trend_bias = trend_bias;
      strong_trend = num.gt (num.abs trend_bias) params.trend_bias_strong;
      lending_pct = lending_pct;
      tolerance_bins = tolerance_bins;
      min_dwell_ms = min_dwell_ms state;
    })

  abbrev pub cached :
      Option (StateContext F) → StateMachine F → Option (StateContext F) × StateMachine F
  cached none m = (none, m)
  cached (some ctx) m = (some ctx, record m { last_ctx = some ctx })

  -- The context of the machine's own state, in the cache and returned, or a throw that leaves the
  -- machine as it is.
  unfoldable pub build_context :
      StateParams F
      → PredictionResponse F
      → StateMachine F
      → Option (StateContext F) × StateMachine F
  build_context params pred m = cached (context_of params m.state m.entered_at_ms pred) m

  abbrev drift_part : F → StateParams F → String
  drift_part drift_strength params =
      cat "drift_strength="
        (cat (num.to_fixed drift_strength 4) (cat ">" (num.print params.drift_strength_entry)))

  abbrev break_part : PredictionResponse F → StateParams F → String
  break_part pred params =
      cat "p_break="
        (cat (num.to_fixed (p_break num pred) 4) (cat ">" (num.print params.p_break_entry)))

  -- The parts joined by a comma.
  abbrev build_trend_entry_trigger : PredictionResponse F → F → StateParams F → String
  build_trend_entry_trigger pred drift_strength params = cat "trend_entry: " (
      if num.gt drift_strength params.drift_strength_entry
      then (if num.gt (p_break num pred) params.p_break_entry
          then cat (drift_part drift_strength params) (cat ", " (break_part pred params))
          else drift_part drift_strength params)
      else if num.gt (p_break num pred) params.p_break_entry
      then break_part pred params
      else cat "drift_strength=" (num.to_fixed drift_strength 4))

  -- The non-emergency transitions, after the minimum dwell, from each state. The machine that
  -- `none` comes with is unchanged: the predicate threw.
  unfoldable pub from_normal :
      StateParams F
      → MarketSnapshot F
      → PredictionResponse F
      → ℕ
      → StateMachine F
      → Option (StateMachine F)
  from_normal params snapshot pred now_ms m = do
    enter ← should_enter_trend num snapshot pred params
    if enter
        then (do
          drift_strength ← compute_drift_strength num snapshot
          some (transition trend (build_trend_entry_trigger pred drift_strength params) now_ms m))
        else some m

  unfoldable pub from_trend :
      StateParams F
      → MarketSnapshot F
      → PredictionResponse F
      → ℕ
      → StateMachine F
      → Option (StateMachine F)
  from_trend params snapshot pred now_ms m = do
    exit ← should_exit_trend num snapshot pred params
    some (
        if exit
        then transition normal "trend_exit: drift_strength and p_break both cleared" now_ms m
        else m)

  unfoldable pub from_extreme :
      StateParams F
      → PredictionResponse F
      → Option ExtremeSignal
      → Bool
      → ℕ
      → StateMachine F
      → StateMachine F
  from_extreme params pred extreme_signal vol_recovered now_ms m =
      if should_exit_extreme num pred extreme_signal vol_recovered m.entered_at_ms now_ms params
      then transition (return_state m.prev_state)
          "extreme_exit: all conditions cleared + stability + vol_recovery" now_ms m
      else m

  abbrev pub settle :
      MarketState
      → StateParams F
      → MarketSnapshot F
      → PredictionResponse F
      → Option ExtremeSignal
      → Bool
      → ℕ
      → StateMachine F
      → Option (StateMachine F)
  settle normal params snapshot pred extreme_signal vol_recovered now_ms m =
      from_normal params snapshot pred now_ms m
  settle trend params snapshot pred extreme_signal vol_recovered now_ms m =
      from_trend params snapshot pred now_ms m
  settle extreme params snapshot pred extreme_signal vol_recovered now_ms m =
      some (from_extreme params pred extreme_signal vol_recovered now_ms m)

  abbrev pub built :
      StateParams F
      → PredictionResponse F
      → StateMachine F
      → Option (StateMachine F)
      → Option (StateContext F) × StateMachine F
  built params pred m none = (none, m)
  built params pred m (some m') = build_context params pred m'

  abbrev pub escalation :
      StateMachine F → PredictionResponse F → Option ExtremeSignal → StateParams F → Option String
  escalation m pred extreme_signal params =
      if same_state m.state extreme
      then none
      else should_enter_extreme num pred extreme_signal params

  abbrev pub settled :
      StateParams F
      → MarketSnapshot F
      → PredictionResponse F
      → Option ExtremeSignal
      → Bool
      → ℕ
      → StateMachine F
      → Option String
      → Option (StateMachine F)
  settled params snapshot pred extreme_signal vol_recovered now_ms m (some trigger) =
      some (transition extreme trigger now_ms m)
  settled params snapshot pred extreme_signal vol_recovered now_ms m none =
      if dwell_elapsed m.state m.entered_at_ms now_ms
      then settle m.state params snapshot pred extreme_signal vol_recovered now_ms m
      else some m

  -- `now_ms` is the injected clock. The context is nothing where the call throws.
  unfoldable pub advance :
      StateParams F
      → MarketSnapshot F
      → PredictionResponse F
      → Option ExtremeSignal
      → Bool
      → ℕ
      → StateMachine F
      → Option (StateContext F) × StateMachine F
  advance params snapshot pred extreme_signal vol_recovered now_ms m = built params pred m (
      settled params snapshot pred extreme_signal vol_recovered now_ms m
        (escalation m pred extreme_signal params))

  abbrev bootstrap_context : StateMachine F → Option (StateContext F)
  bootstrap_context m = do
    lending_pct ← derive_lending_pct num m.state (num.decimal 0 0)
    some (record {
      state = m.state;
      entered_at_ms = m.entered_at_ms;
      eval_interval_ms = eval_interval_ms m.state;
      half_width = num.decimal 2 0;
      trend_bias = num.decimal 0 0;
      strong_trend = false;
      lending_pct = lending_pct;
      tolerance_bins = num.decimal 1 0;
      min_dwell_ms = min_dwell_ms m.state;
    })

  unfoldable pub current : StateMachine F → Option (StateContext F)
  current m = elim m.last_ctx [
    | none ↦ bootstrap_context m
    | some ctx ↦ if same_state ctx.state m.state then some ctx else bootstrap_context m
  ]
