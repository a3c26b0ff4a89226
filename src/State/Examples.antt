-- ===== src/State/Examples.antt =====
-- Runs of the machine and the journal at concrete inputs, over fixed-point numbers with six places.
use lp_agent.Prelude.{
  ℕ, suc, map, ◌*◌, ◌^◌, ◌≡◌, ◌≢◌, refl, true, false, Option, none, some, [], ◌∷◌, arith, eq_iff,
}
use lp_agent.Prelude.Micro.{micro}
use lp_agent.State.{normal, trend, extreme, StateRow, StateHistory}
use lp_agent.State.Params.{StateParams, default_state_params}
use lp_agent.State.Transitions.{
  MarketSnapshot, PredictionResponse, ExtremeSignal, is_active, p_sum, should_exit_extreme,
  dwell_elapsed, compute_drift_strength,
}
use lp_agent.State.Machine.{
  StateMachine, create_state_machine, transition, advance, from_extreme, build_context, context_of,
}
use lp_agent.State.Machine.Moves.{HasDwelled}
use lp_agent.State.Machine.Timeline.{Timeline}
use lp_agent.State.Machine.Runs.{Tick, run, history_is_Timeline}
use lp_agent.State.Machine.Signals.{active_signal_reaches_extreme, extreme_exit_needs_all}
use lp_agent.State.Machine.Throws.{entry_row, left_at, throw_keeps_transition}
use lp_agent.State.Machine.Calm.{IsCalm, calm_reaches_normal}
use lp_agent.State.Journal.{latest_open, record_regime_transition}
use lp_agent.State.Journal.OneOpen.{open_count, journal_keeps_one_open}

abbrev params : StateParams ℕ
params = default_state_params micro

abbrev flat : MarketSnapshot ℕ
flat = record { sui = [] }

abbrev mild : PredictionResponse ℕ
mild = record { width_sigma = 2 * 10 ^ 6; p_above = 10 ^ 5; p_below = 10 ^ 5 }

abbrev torn : PredictionResponse ℕ
torn = record { width_sigma = 2 * 10 ^ 6; p_above = 4 * 10 ^ 5; p_below = 4 * 10 ^ 5 }

abbrev boundless : PredictionResponse ℕ
boundless = record { width_sigma = 10 ^ 10; p_above = 10 ^ 5; p_below = 10 ^ 5 }

abbrev alarm : ExtremeSignal
alarm = record { active = true; trigger = "tvl_drop" }

abbrev tick : PredictionResponse ℕ → Option ExtremeSignal → ℕ → Tick ℕ
tick pred signal now_ms = record {
  snapshot = flat;
  pred = pred;
  extreme_signal = signal;
  vol_recovered = true;
  now_ms = now_ms;
}

abbrev empty : StateHistory
empty = record { rows = []; last_id = 0 }

abbrev fresh : StateMachine ℕ
fresh = create_state_machine "pool" empty 0

abbrev in_extreme : StateMachine ℕ
in_extreme = record fresh { state = extreme; prev_state = some normal }

history_is_Timeline_example : Timeline [] (
    run micro params
      (tick torn none 60_000 ∷ tick mild (some alarm) 700_000 ∷ tick mild none 2_000_000 ∷ [])
      fresh)
history_is_Timeline_example =
    history_is_Timeline micro params "pool" empty 0
      (tick torn none 60_000 ∷ tick mild (some alarm) 700_000 ∷ tick mild none 2_000_000 ∷ []) tt

active_signal_reaches_extreme_example :
    (advance micro params flat mild (some alarm) true 1 fresh).1.state ≡ extreme
active_signal_reaches_extreme_example =
    active_signal_reaches_extreme micro params flat mild alarm refl true 1 fresh

throw_keeps_transition_example :
    let (answer, m') = advance micro params flat boundless (some alarm) true 1 fresh in
    (answer ≡ none)
    × (m'.state ≡ extreme)
    × (m'.entered_at_ms ≡ 1)
    × (m'.prev_state ≡ some normal)
    × (m'.history.rows
        ≡ entry_row fresh.pool_id (suc fresh.history.last_id) 1 "tvl_drop" normal
          ∷ map (left_at 1 fresh.current_row_id) fresh.history.rows)
throw_keeps_transition_example =
    throw_keeps_transition micro params flat boundless alarm refl true 1 fresh normal_ne refl
  where
    normal_ne : normal ≢ extreme
    normal_ne h = ground (arith, h)

leaves : (advance micro params flat mild none true 700_000 in_extreme).1.state ≢ extreme
unfolding advance dwell_elapsed from_extreme should_exit_extreme transition build_context context_of
leaves h = ground (arith, h)

extreme_exit_needs_all_example :
    ((advance micro params flat mild none true 700_000 in_extreme).1.state ≡ normal)
    × HasDwelled in_extreme 700_000
    × (is_active none ≡ false)
    × (micro.gt (p_sum micro mild) params.p_break_sum_extreme_exit ≡ false)
    × (true ≡ true)
extreme_exit_needs_all_example =
    extreme_exit_needs_all micro params flat mild none true 700_000 in_extreme refl leaves

mild-IsCalm : (now_ms : ℕ) → IsCalm micro params (tick mild none now_ms)
unfolding compute_drift_strength
mild-IsCalm now_ms = record {
  no_signal = refl;
  recovered = refl;
  drift_strength = 0;
  drift_eq = refl;
  drift_entry = refl;
  drift_exit = refl;
  break_entry = refl;
  break_exit = refl;
  sum_entry = refl;
  sum_exit = refl;
}

calm_reaches_normal_example :
    (run micro params (tick mild none 700_000 ∷ tick mild none 1_600_000 ∷ []) in_extreme).state
    ≡ normal
calm_reaches_normal_example =
    calm_reaches_normal micro params (tick mild none 700_000) (tick mild none 1_600_000)
      (mild-IsCalm 700_000) (mild-IsCalm 1_600_000) in_extreme (omega arith) (omega arith)

-- A second process, or the shadow machine, leaves two open rows for the pool.
two_open_rows :
    open_count "pool" (create_state_machine {F = ℕ} "pool" fresh.history 5).history.rows ≡ 2
two_open_rows = refl

abbrev journal : StateHistory
journal = record_regime_transition empty "pool" trend "presence: start" 10

journal_keeps_one_open_example :
    (open_count "pool" journal.rows ≡ 1)
    × ((row : StateRow) × (latest_open "pool" journal.rows ≡ some row) × (row.state ≡ trend))
    × (record_regime_transition journal "pool" trend "presence: again" 20 ≡ journal)
    × (open_count "other" journal.rows ≡ 0)
journal_keeps_one_open_example =
    journal_keeps_one_open empty "pool" trend "presence: start" 10 tt (omega arith)
      "presence: again" "other" 20 (λ h. ground (arith, h, eq_iff "pool" "other"))
