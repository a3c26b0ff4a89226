-- ===== src/State/Machine/Calm.antt =====
-- Calm markets bring a machine of src/state/machine.ts back to NORMAL.
use lp_agent.Prelude.{
  ℕ, ◌+◌, ◌*◌, ◌≤◌, ◌≡◌, ◌≢◌, refl, sym, ap, ◌∙◌, ◌⊎◌, inl, inr, String, Bool, true, false, Option,
  none, some, [], ◌∷◌, arith, Option-cases, if◌then◌else◌,
}
use lp_agent.Prelude.Floats.{Floats}
use lp_agent.State.{MarketState, normal, trend, extreme, same_state}
use lp_agent.State.Params.{StateParams, min_dwell_ms}
use lp_agent.State.Transitions.{
  is_active, p_sum, p_break, compute_drift_strength, should_enter_extreme, should_exit_extreme,
  should_enter_trend, should_exit_trend, dwell_elapsed,
}
use lp_agent.State.Machine.{
  StateMachine, advance, transition, return_state, built, settle, from_extreme, from_trend,
  from_normal,
}
use lp_agent.State.Machine.Moves.{HasDwelled, Ticked, stayed, moved, advance-Ticked}
use lp_agent.State.Machine.Runs.{Tick, run}
use lp_agent.State.Machine.Signals.{advance_settles, state-build_context}

none_either : (b : Bool) (o : Option String) → o ≡ none → (if b then none else o) ≡ none
none_either true o h = refl
none_either false o h = h

state-cases : (s : MarketState) → (s ≡ normal) ⊎ (s ≡ trend) ⊎ (s ≡ extreme)
state-cases normal = inl refl
state-cases trend = inr (inl refl)
state-cases extreme = inr (inr refl)

return_state-ne : (s : Option MarketState) → return_state s ≢ extreme
return_state-ne none h = ground (arith, h)
return_state-ne (some normal) h = ground (arith, h)
return_state-ne (some trend) h = ground (arith, h)
return_state-ne (some extreme) h = ground (arith, h)

dwell_le : (s : MarketState) → min_dwell_ms s ≤ 15 * 60 * 1_000
dwell_le normal = omega arith
dwell_le trend = omega arith
dwell_le extreme = omega arith

entered_le :
    {F : Type 0} {m : StateMachine F} (now_ms : ℕ) {m' : StateMachine F}
    → m.entered_at_ms ≤ now_ms
    → Ticked m now_ms m'
    → m'.entered_at_ms ≤ now_ms
unfolding transition
entered_le now_ms le (stayed ctx) = le
entered_le now_ms le (moved to trigger ctx move) = omega arith

module _ {F : Type 0} (num : Floats F) (params : StateParams F) where
  -- No signal, recovered volatility, and every measure below its thresholds of entry and exit.
  pub record IsCalm (t : Tick F) : Type 0 where
    pub no_signal : is_active t.extreme_signal ≡ false
    pub recovered : t.vol_recovered ≡ true
    pub drift_strength : F
    pub drift_eq : compute_drift_strength num t.snapshot ≡ some drift_strength
    pub drift_entry : num.gt drift_strength params.drift_strength_entry ≡ false
    pub drift_exit : num.gt drift_strength params.drift_strength_exit ≡ false
    pub break_entry : num.gt (p_break num t.pred) params.p_break_entry ≡ false
    pub break_exit : num.gt (p_break num t.pred) params.p_break_exit ≡ false
    pub sum_entry : num.gt (p_sum num t.pred) params.p_break_sum_extreme ≡ false
    pub sum_exit : num.gt (p_sum num t.pred) params.p_break_sum_extreme_exit ≡ false

  module _ (t : Tick F) (calm : IsCalm t) where
    no_entry : should_enter_extreme num t.pred t.extreme_signal params ≡ none
    unfolding should_enter_extreme
    no_entry = elim (Option-cases t.extreme_signal) [
      | inl e ↦ rw (e, calm.sum_entry) refl
      | inr (s, e) ↦ ground (arith, e, calm.no_signal, calm.sum_entry)
    ]

    no_trend : should_enter_trend num t.snapshot t.pred params ≡ some false
    unfolding should_enter_trend
    no_trend = rw (calm.drift_eq, calm.drift_entry, calm.break_entry) refl

    trend_over : should_exit_trend num t.snapshot t.pred params ≡ some true
    unfolding should_exit_trend
    trend_over = rw (calm.drift_eq, calm.drift_exit, calm.break_exit) refl

    module _ (m : StateMachine F) (dwelled : HasDwelled m t.now_ms) where
      abbrev after : StateMachine F
      after = (advance num params t.snapshot t.pred t.extreme_signal t.vol_recovered t.now_ms m).1

      extreme_over :
          m.state ≡ extreme
          → should_exit_extreme num t.pred t.extreme_signal t.vol_recovered m.entered_at_ms t.now_ms
              params
            ≡ true
      unfolding should_exit_extreme
      extreme_over e = ground (arith, calm.no_signal, calm.sum_exit, calm.recovered, e, dwelled)

      no_escalation :
          (s : MarketState)
          → (if same_state s extreme
              then none
              else should_enter_extreme num t.pred t.extreme_signal params)
            ≡ none
      no_escalation s = none_either (same_state s extreme) _ no_entry

      settled_as : (s : MarketState) → StateMachine F
      settled_as s =
          (built num params t.pred m
            (settle num s params t.snapshot t.pred t.extreme_signal t.vol_recovered t.now_ms m)).1

      after-settled : (s : MarketState) → m.state ≡ s → after ≡ settled_as s
      unfolding settled_as dwell_elapsed
      after-settled s e =
          ap (λ r. r.1)
            (advance_settles num params t.snapshot t.pred t.extreme_signal t.vol_recovered t.now_ms
              m (no_escalation m.state) (ground (arith, dwelled)))
          ∙ ap settled_as e

      from_normal_stays : from_normal num params t.snapshot t.pred t.now_ms m ≡ some m
      unfolding from_normal
      from_normal_stays = rw no_trend refl

      from_trend_leaves :
          from_trend num params t.snapshot t.pred t.now_ms m
          ≡ some
              (transition normal "trend_exit: drift_strength and p_break both cleared" t.now_ms m)
      unfolding from_trend
      from_trend_leaves = rw trend_over refl

      at_normal : m.state ≡ normal → after.state ≡ normal
      unfolding settled_as
      at_normal e =
          ap (λ r. r.state) (after-settled normal e)
          ∙ rw (settled_as, from_normal_stays)
              (state-build_context num params t.snapshot t.pred m ∙ e)

      at_trend : m.state ≡ trend → after.state ≡ normal
      unfolding settled_as transition
      at_trend e =
          ap (λ r. r.state) (after-settled trend e)
          ∙ rw (settled_as, from_trend_leaves)
              (state-build_context num params t.snapshot t.pred (
                transition normal "trend_exit: drift_strength and p_break both cleared" t.now_ms m))

      abbrev left : StateMachine F
      left =
          transition (return_state m.prev_state)
            "extreme_exit: all conditions cleared + stability + vol_recovery" t.now_ms m

      at_extreme : m.state ≡ extreme → after.state ≡ return_state m.prev_state
      unfolding settled_as transition from_extreme
      at_extreme e =
          ap (λ r. r.state) (after-settled extreme e)
          ∙ rw (settled_as, from_extreme, extreme_over e)
              (state-build_context num params t.snapshot t.pred left)

      not_extreme : after.state ≢ extreme
      not_extreme h = elim (state-cases m.state) [
        | inl e ↦ ground (arith, at_normal e, h)
        | inr (inl e) ↦ ground (arith, at_trend e, h)
        | inr (inr e) ↦ return_state-ne m.prev_state (sym (at_extreme e) ∙ h)
      ]

      ready : (later : ℕ) → t.now_ms + 15 * 60 * 1_000 ≤ later → HasDwelled after later
      ready later le = omega (
        arith,
        le,
        dwell_le after.state,
        entered_le t.now_ms (omega (arith, dwelled)) (
            advance-Ticked num params t.snapshot t.pred t.extreme_signal t.vol_recovered t.now_ms
              m),
      )

  module _ (first second : Tick F) (first_calm : IsCalm first) (second_calm : IsCalm second) where
    settles :
        (s : MarketState)
        → s ≢ extreme
        → (m : StateMachine F) → m.state ≡ s
        → HasDwelled m second.now_ms
        → (advance num params second.snapshot second.pred second.extreme_signal second.vol_recovered
            second.now_ms m).1.state
          ≡ normal
    settles normal h m e dwelled = at_normal second second_calm m dwelled e
    settles trend h m e dwelled = at_trend second second_calm m dwelled e
    settles extreme h m e dwelled = absurd (h refl)

    -- Two calm evaluations, the first after the minimum dwell of the state that the machine is in and
    -- the second at least fifteen minutes after the first, leave the machine in NORMAL.
    pub calm_reaches_normal :
        (m : StateMachine F)
        → HasDwelled m first.now_ms
        → first.now_ms + 15 * 60 * 1_000 ≤ second.now_ms
        → (run num params (first ∷ second ∷ []) m).state ≡ normal
    unfolding run
    calm_reaches_normal m dwelled later =
        let m' =
          (advance num params first.snapshot first.pred first.extreme_signal first.vol_recovered
            first.now_ms m).1 in
        settles m'.state (not_extreme first first_calm m dwelled) m' refl
          (ready first first_calm m dwelled second.now_ms later)
