-- ===== src/State/Machine/Moves.antt =====
-- The transitions of src/state/machine.ts as a relation, and that an evaluation makes at most one.
use lp_agent.Prelude.{
  ℕ, ◌+◌, ◌≤◌, ◌≡◌, ◌≢◌, refl, inl, inr, String, Bool, true, false, Option, none, some, Bool-cases,
  arith, if◌then◌else◌,
}
use lp_agent.Prelude.Floats.{Floats}
use lp_agent.State.{MarketState, normal, trend, extreme, ◌>>=◌}
use lp_agent.State.Params.{StateParams, min_dwell_ms}
use lp_agent.State.Transitions.{
  MarketSnapshot, PredictionResponse, ExtremeSignal, dwell_elapsed, should_enter_trend,
  should_exit_trend, should_exit_extreme, compute_drift_strength,
}
use lp_agent.State.Machine.{
  StateContext, StateMachine, transition, return_state, advance, build_context, from_normal,
  from_trend, from_extreme, cached, context_of, settle, settled, built, escalation,
}

abbrev pub HasDwelled : {F : Type 0} → StateMachine F → ℕ → Type 0
HasDwelled m now_ms = m.entered_at_ms + min_dwell_ms m.state ≤ now_ms

module _ {F : Type 0} where
  -- The state that a machine may enter at a time.
  pub data Move (m : StateMachine F) (now_ms : ℕ) : MarketState → Type 0 where
    escalate : m.state ≢ extreme → Move m now_ms extreme
    drift : m.state ≡ normal → HasDwelled m now_ms → Move m now_ms trend
    calm : m.state ≡ trend → HasDwelled m now_ms → Move m now_ms normal
    recover : m.state ≡ extreme → HasDwelled m now_ms → Move m now_ms (return_state m.prev_state)

  -- A machine that only its cached context may tell from `m`, or from `m` after one transition.
  pub data Ticked (m : StateMachine F) (now_ms : ℕ) : StateMachine F → Type 0 where
    stayed : (ctx : Option (StateContext F)) → Ticked m now_ms (record m { last_ctx = ctx })
    moved :
        (to : MarketState) (trigger : String) (ctx : Option (StateContext F))
        → Move m now_ms to
        → Ticked m now_ms (record (transition to trigger now_ms m) { last_ctx = ctx })

module _ {F : Type 0} (num : Floats F) (params : StateParams F) (snapshot : MarketSnapshot F)
    (pred : PredictionResponse F) (extreme_signal : Option ExtremeSignal) (vol_recovered : Bool)
    (now_ms : ℕ) where
  cached-Ticked :
      {m m' : StateMachine F}
      → Ticked m now_ms m'
      → (ctx : Option (StateContext F)) → Ticked m now_ms (cached num ctx m').1
  cached-Ticked t none = t
  cached-Ticked (stayed c) (some ctx) = stayed (some ctx)
  cached-Ticked (moved to trigger c move) (some ctx) = moved to trigger (some ctx) move

  abbrev Settled : StateMachine F → Option (StateMachine F) → Type 0
  Settled m none = Unit
  Settled m (some m') = Ticked m now_ms m'

  same : (m : StateMachine F) → Ticked m now_ms m
  same m = stayed m.last_ctx

  moved_now :
      (m : StateMachine F) (to : MarketState) (trigger : String)
      → Move m now_ms to
      → Ticked m now_ms (transition to trigger now_ms m)
  unfolding transition
  moved_now m to trigger move = moved to trigger m.last_ctx move

  chosen :
      (b : Bool) {m m' : StateMachine F}
      → Ticked m now_ms m'
      → Ticked m now_ms (if b then m' else m)
  chosen true t = t
  chosen false {m} t = same m

  bound :
      {A : Type 0} (m : StateMachine F) (o : Option A) (f : A → Option (StateMachine F))
      → ((a : A) → Settled m (f a))
      → Settled m (o >>= f)
  bound m none f h = tt
  bound m (some a) f h = h a

  from_normal-Settled :
      (m : StateMachine F)
      → m.state ≡ normal
      → HasDwelled m now_ms
      → Settled m (from_normal num params snapshot pred now_ms m)
  unfolding from_normal
  from_normal-Settled m e dwelled =
      bound m (should_enter_trend num snapshot pred params) _ (λ enter. entered enter _ (
        bound m (compute_drift_strength num snapshot) _
          (λ strength. moved_now m trend _ (drift e dwelled))))
    where
      entered :
          (b : Bool) (o : Option (StateMachine F))
          → Settled m o
          → Settled m (if b then o else some m)
      entered true o s = s
      entered false o s = same m

  from_trend-Settled :
      (m : StateMachine F)
      → m.state ≡ trend
      → HasDwelled m now_ms
      → Settled m (from_trend num params snapshot pred now_ms m)
  unfolding from_trend
  from_trend-Settled m e dwelled =
      bound m (should_exit_trend num snapshot pred params) _
        (λ exit. chosen exit (moved_now m normal _ (calm e dwelled)))

  from_extreme-Ticked :
      (m : StateMachine F)
      → m.state ≡ extreme
      → HasDwelled m now_ms
      → Ticked m now_ms (from_extreme num params pred extreme_signal vol_recovered now_ms m)
  unfolding from_extreme
  from_extreme-Ticked m e dwelled =
      chosen
        (should_exit_extreme num pred extreme_signal vol_recovered m.entered_at_ms now_ms params)
        (moved_now m (return_state m.prev_state) _ (recover e dwelled))

  settle-Settled :
      (m : StateMachine F) (s : MarketState)
      → m.state ≡ s
      → HasDwelled m now_ms
      → Settled m (settle num s params snapshot pred extreme_signal vol_recovered now_ms m)
  settle-Settled m normal e dwelled = from_normal-Settled m e dwelled
  settle-Settled m trend e dwelled = from_trend-Settled m e dwelled
  settle-Settled m extreme e dwelled = from_extreme-Ticked m e dwelled

  dwelled_of :
      (m : StateMachine F)
      → dwell_elapsed m.state m.entered_at_ms now_ms ≡ true
      → HasDwelled m now_ms
  unfolding dwell_elapsed
  dwelled_of m e = ground (arith, e)

  settled-Settled :
      (m : StateMachine F) (o : Option String)
      → escalation num m pred extreme_signal params ≡ o
      → Settled m (settled num params snapshot pred extreme_signal vol_recovered now_ms m o)
  settled-Settled m (some trigger) e =
      moved_now m extreme trigger (escalate (λ h. ground (arith, e, h)))
  settled-Settled m none e = elim (Bool-cases (dwell_elapsed m.state m.entered_at_ms now_ms)) [
    | inl h ↦ rw h (settle-Settled m m.state refl (dwelled_of m h))
    | inr h ↦ rw h (same m)
  ]

  built-Ticked :
      (m : StateMachine F) (o : Option (StateMachine F))
      → Settled m o
      → Ticked m now_ms (built num params pred m o).1
  unfolding build_context
  built-Ticked m none t = same m
  built-Ticked m (some m') t =
      cached-Ticked t (context_of num params m'.state m'.entered_at_ms pred)

  -- An evaluation changes nothing but the cached context or makes one transition that the relation allows.
  pub advance-Ticked :
      (m : StateMachine F)
      → Ticked m now_ms (advance num params snapshot pred extreme_signal vol_recovered now_ms m).1
  unfolding advance
  advance-Ticked m =
      built-Ticked m
        (settled num params snapshot pred extreme_signal vol_recovered now_ms m
          (escalation num m pred extreme_signal params))
        (settled-Settled m (escalation num m pred extreme_signal params) refl)
