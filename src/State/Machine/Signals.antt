-- ===== src/State/Machine/Signals.antt =====
-- What a risk signal does to a machine of src/state/machine.ts: the way into EXTREME and out of it.
use lp_agent.Prelude.{
  ℕ, ◌≡◌, ◌≢◌, refl, ap, ◌∙◌, ◌⊎◌, inl, inr, String, Bool, true, false, Option, none, some, arith,
  Bool-cases,
}
use lp_agent.Prelude.Floats.{Floats}
use lp_agent.State.{MarketState, normal, trend, extreme, same_state}
use lp_agent.State.Params.{StateParams}
use lp_agent.State.Transitions.{
  MarketSnapshot, PredictionResponse, ExtremeSignal, is_active, p_sum, should_enter_extreme,
  should_exit_extreme, dwell_elapsed,
}
use lp_agent.State.Machine.{
  StateContext, StateMachine, advance, transition, return_state, built, build_context, cached,
  context_of, escalation, settle, from_extreme,
}
use lp_agent.State.Machine.Moves.{HasDwelled}

pub extreme-cases :
    (s : MarketState) → (s ≡ extreme) ⊎ ((s ≢ extreme) × (same_state s extreme ≡ false))
extreme-cases normal = inr (λ e. ground (arith, e), refl)
extreme-cases trend = inr (λ e. ground (arith, e), refl)
extreme-cases extreme = inl refl

module _ {F : Type 0} (num : Floats F) (params : StateParams F) (snapshot : MarketSnapshot F)
    (pred : PredictionResponse F) where
  -- A context that is built or throws leaves all but the cache.
  pub state-cached :
      (ctx : Option (StateContext F)) (m : StateMachine F) → (cached num ctx m).1.state ≡ m.state
  state-cached none m = refl
  state-cached (some ctx) m = refl

  pub state-build_context :
      (m : StateMachine F) → (build_context num params pred m).1.state ≡ m.state
  unfolding build_context
  state-build_context m = state-cached (context_of num params m.state m.entered_at_ms pred) m

  module _ (signal : Option ExtremeSignal) (vol_recovered : Bool) (now_ms : ℕ)
      (m : StateMachine F) where
    abbrev after : Option (StateContext F) × StateMachine F
    after = advance num params snapshot pred signal vol_recovered now_ms m

    -- The three courses of an evaluation.
    pub advance_escalates :
        (trigger : String)
        → same_state m.state extreme ≡ false
        → should_enter_extreme num pred signal params ≡ some trigger
        → after ≡ build_context num params pred (transition extreme trigger now_ms m)
    unfolding advance
    advance_escalates trigger e h = rw (e, h) refl

    pub advance_waits :
        escalation num m pred signal params ≡ none
        → dwell_elapsed m.state m.entered_at_ms now_ms ≡ false
        → after ≡ build_context num params pred m
    unfolding advance
    advance_waits e h = rw (e, h) refl

    pub advance_settles :
        escalation num m pred signal params ≡ none
        → dwell_elapsed m.state m.entered_at_ms now_ms ≡ true
        → after
          ≡ built num params pred m
              (settle num m.state params snapshot pred signal vol_recovered now_ms m)
    unfolding advance
    advance_settles e h = rw (e, h) refl

    -- In EXTREME.
    in_extreme : m.state ≡ extreme → escalation num m pred signal params ≡ none
    in_extreme e = rw e refl

    settled_as : (s : MarketState) → Option (StateContext F) × StateMachine F
    settled_as s =
        built num params pred m (settle num s params snapshot pred signal vol_recovered now_ms m)

    state_settled :
        m.state ≡ extreme
        → dwell_elapsed m.state m.entered_at_ms now_ms ≡ true
        → after.1.state ≡ (from_extreme num params pred signal vol_recovered now_ms m).state
    unfolding settled_as
    state_settled e h =
        ap (λ r. r.1.state) (advance_settles (in_extreme e) h)
        ∙ ap (λ s. (settled_as s).1.state) e
        ∙ state-build_context (from_extreme num params pred signal vol_recovered now_ms m)

    state_waits :
        m.state ≡ extreme
        → dwell_elapsed m.state m.entered_at_ms now_ms ≡ false
        → after.1.state ≡ m.state
    state_waits e h = ap (λ r. r.1.state) (advance_waits (in_extreme e) h) ∙ state-build_context m

    -- The ways that EXTREME is left or kept at an evaluation.
    exit_or_stay :
        m.state ≡ extreme
        → (after.1.state ≡ extreme)
          ⊎ ((HasDwelled m now_ms)
              × (should_exit_extreme num pred signal vol_recovered m.entered_at_ms now_ms params
                  ≡ true)
              × (after.1.state ≡ return_state m.prev_state))
    unfolding dwell_elapsed from_extreme transition
    exit_or_stay e = elim (Bool-cases (dwell_elapsed m.state m.entered_at_ms now_ms)) [
      | inr h ↦ inl (state_waits e h ∙ e)
      | inl h ↦
          elim (Bool-cases
            (should_exit_extreme num pred signal vol_recovered m.entered_at_ms now_ms params)) [
              | inl x ↦ inr (ground (arith, h), x, state_settled e h ∙ rw x refl)
              | inr x ↦ inl (state_settled e h ∙ rw x e)
            ]
    ]

    exit_conditions :
        should_exit_extreme num pred signal vol_recovered m.entered_at_ms now_ms params ≡ true
        → (is_active signal ≡ false)
          × (num.gt (p_sum num pred) params.p_break_sum_extreme_exit ≡ false)
          × (vol_recovered ≡ true)
    unfolding should_exit_extreme
    exit_conditions x = ground (arith, x)

    -- A machine leaves EXTREME only to the state that it remembers, after the minimum dwell, with no
    -- active signal, the sum of the break probabilities back at the exit threshold or below and the volatility recovered.
    pub extreme_exit_needs_all :
        m.state ≡ extreme
        → after.1.state ≢ extreme
        → (after.1.state ≡ return_state m.prev_state)
          × HasDwelled m now_ms
          × (is_active signal ≡ false)
          × (num.gt (p_sum num pred) params.p_break_sum_extreme_exit ≡ false)
          × (vol_recovered ≡ true)
    extreme_exit_needs_all e h = elim (exit_or_stay e) [
      | inl s ↦ absurd (h s)
      | inr (dwelled, x, back) ↦
          (back, dwelled, (exit_conditions x).0, (exit_conditions x).1, (exit_conditions x).2)
    ]

  module _ (signal : ExtremeSignal) (active : signal.active ≡ true) (vol_recovered : Bool)
      (now_ms : ℕ) (m : StateMachine F) where
    pub entered : should_enter_extreme num pred (some signal) params ≡ some signal.trigger
    unfolding should_enter_extreme
    entered = rw active refl

    no_exit :
        should_exit_extreme num pred (some signal) vol_recovered m.entered_at_ms now_ms params
        ≡ false
    unfolding should_exit_extreme
    no_exit = rw active refl

    -- An evaluation with an active signal leaves the machine in EXTREME, from every state, however
    -- short the current stay is and whatever the snapshot and the prediction are.
    pub active_signal_reaches_extreme :
        (advance num params snapshot pred (some signal) vol_recovered now_ms m).1.state ≡ extreme
    unfolding transition
    active_signal_reaches_extreme = elim (extreme-cases m.state) [
      | inl e ↦ elim (exit_or_stay (some signal) vol_recovered now_ms m e) [
        | inl s ↦ s
        | inr (dwelled, x, back) ↦ absurd (ground (arith, x, no_exit))
      ]
      | inr (h, e) ↦
          ap (λ r. r.1.state)
            (advance_escalates (some signal) vol_recovered now_ms m signal.trigger e entered)
          ∙ state-build_context (transition extreme signal.trigger now_ms m)
    ]
