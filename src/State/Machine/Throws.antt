-- ===== src/State/Machine/Throws.antt =====
-- An evaluation of src/state/machine.ts that throws after its transition.
use lp_agent.Prelude.{
  ℕ, suc, ◌≡◌, ◌≢◌, refl, ap, ◌∙◌, inl, inr, String, true, false, Bool, Option, none, some, List,
  [], ◌∷◌, map, ◌===◌, if◌then◌else◌,
}
use lp_agent.Prelude.Floats.{Floats}
use lp_agent.State.{MarketState, extreme, ◌>>=◌, StateRow, StateHistory, close_rows}
use lp_agent.State.Params.{StateParams, derive_half_width, derive_lending_pct}
use lp_agent.State.Transitions.{MarketSnapshot, PredictionResponse, ExtremeSignal}
use lp_agent.State.Machine.{
  StateMachine, advance, transition, build_context, context_of, bias_of, close_current,
}
use lp_agent.State.Machine.Signals.{extreme-cases, advance_escalates, entered}

-- The row of a stay in EXTREME that has just begun.
abbrev pub entry_row : String → ℕ → ℕ → String → MarketState → StateRow
entry_row pool_id id now_ms trigger from = record {
  id = id;
  pool_id = pool_id;
  entered_at_ms = now_ms;
  exited_at_ms = none;
  state = extreme;
  trigger = trigger;
  prev_state = some from;
}

-- A row once the stay of the current row has ended.
abbrev pub left_at : ℕ → Option ℕ → StateRow → StateRow
left_at now_ms none row = row
left_at now_ms (some id) row =
    if row.id === id then record row { exited_at_ms = some now_ms } else row

left_none : (now_ms : ℕ) (rows : List StateRow) → rows ≡ map (left_at now_ms none) rows
left_none now_ms [] = refl
left_none now_ms (row ∷ rows) = ap (λ z. row ∷ z) (left_none now_ms rows)

left_some :
    (now_ms id : ℕ) (rows : List StateRow)
    → close_rows now_ms id rows ≡ map (left_at now_ms (some id)) rows
unfolding close_rows
left_some now_ms id [] = refl
left_some now_ms id (row ∷ rows) =
    ap (λ z. left_at now_ms (some id) row ∷ z) (left_some now_ms id rows)

rows-close_current :
    (now_ms : ℕ) (current : Option ℕ) (h : StateHistory)
    → (close_current now_ms current h).rows ≡ map (left_at now_ms current) h.rows
rows-close_current now_ms none h = left_none now_ms h.rows
rows-close_current now_ms (some id) h = left_some now_ms id h.rows

last_id-close_current :
    (now_ms : ℕ) (current : Option ℕ) (h : StateHistory)
    → (close_current now_ms current h).last_id ≡ h.last_id
last_id-close_current now_ms none h = refl
last_id-close_current now_ms (some id) h = refl

bind-none :
    {A B : Type 0} (o : Option A) (f : A → Option B) → ((a : A) → f a ≡ none) → (o >>= f) ≡ none
bind-none none f h = refl
bind-none (some a) f h = h a

rows-transition :
    {F : Type 0} (trigger : String) (now_ms : ℕ) (m : StateMachine F)
    → (transition extreme trigger now_ms m).history.rows
      ≡ entry_row m.pool_id (suc m.history.last_id) now_ms trigger m.state
        ∷ map (left_at now_ms m.current_row_id) m.history.rows
unfolding transition
rows-transition trigger now_ms m =
    ap
      (λ id.
        entry_row m.pool_id (suc id) now_ms trigger m.state
        ∷ (close_current now_ms m.current_row_id m.history).rows)
      (last_id-close_current now_ms m.current_row_id m.history)
    ∙ ap (λ rows. entry_row m.pool_id (suc m.history.last_id) now_ms trigger m.state ∷ rows)
        (rows-close_current now_ms m.current_row_id m.history)

module _ {F : Type 0} (num : Floats F) (params : StateParams F) (snapshot : MarketSnapshot F)
    (pred : PredictionResponse F) where
  throws :
      num.is_finite pred.width_sigma ≡ false
      → (s : MarketState) (t : ℕ) → context_of num params s t pred ≡ none
  unfolding context_of derive_half_width
  throws h s t =
      bind-none (bias_of num s pred) _
        (λ bias. bind-none (derive_lending_pct num s bias) _ (λ pct. rw h refl))

  module _ (signal : ExtremeSignal) (active : signal.active ≡ true) (vol_recovered : Bool)
      (now_ms : ℕ) (m : StateMachine F) where
    throws_after_transition :
        m.state ≢ extreme
        → num.is_finite pred.width_sigma ≡ false
        → advance num params snapshot pred (some signal) vol_recovered now_ms m
          ≡ (none, transition extreme signal.trigger now_ms m)
    unfolding build_context
    throws_after_transition h fin = elim (extreme-cases m.state) [
      | inl e ↦ absurd (h e)
      | inr (_, e) ↦
          advance_escalates num params snapshot pred (some signal) vol_recovered now_ms m
            signal.trigger e (entered num params snapshot pred signal active vol_recovered now_ms m)
          ∙ rw
              (throws fin (transition extreme signal.trigger now_ms m).state
                (transition extreme signal.trigger now_ms m).entered_at_ms)
              refl
    ]

    -- An evaluation of a machine that is not in EXTREME, with an active signal, throws at a
    -- prediction without a finite width. The machine is in EXTREME all the same, since that time and
    -- with the state it came from; a row of the transition, open and with the signal's trigger,
    -- stands in front of the others, and the current row among these has its exit.
    pub throw_keeps_transition :
        m.state ≢ extreme
        → num.is_finite pred.width_sigma ≡ false
        → let (answer, m') =
            advance num params snapshot pred (some signal) vol_recovered now_ms m in
          (answer ≡ none)
          × (m'.state ≡ extreme)
          × (m'.entered_at_ms ≡ now_ms)
          × (m'.prev_state ≡ some m.state)
          × (m'.history.rows
              ≡ entry_row m.pool_id (suc m.history.last_id) now_ms signal.trigger m.state
                ∷ map (left_at now_ms m.current_row_id) m.history.rows)
    throw_keeps_transition h fin = rw (throws_after_transition h fin) (
      refl,
      unfold transition in refl,
      unfold transition in refl,
      unfold transition in refl,
      rows-transition signal.trigger now_ms m,
    )
