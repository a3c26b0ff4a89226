-- ===== src/State/Machine/Timeline.antt =====
-- The rows that a machine of src/state/machine.ts writes, as a timeline.
use lp_agent.Prelude.{
  ℕ, suc, ◌+◌, ◌≤◌, ◌<◌, ◌≡◌, ◌≢◌, refl, sym, ap, ◌∙◌, ◌⊎◌, inl, inr, String, Option, none, some,
  List, [], ◌∷◌, ◌++◌, All, arith,
}
use lp_agent.State.{MarketState, normal, trend, extreme, StateRow, close_rows}
use lp_agent.State.Params.{min_dwell_ms}
use lp_agent.State.Machine.{StateContext, StateMachine, transition, return_state, close_current}
use lp_agent.State.Machine.Moves.{Move, escalate, drift, calm, recover, Ticked, stayed, moved}

-- A row and the next one: the exit is the next entry, the next row names the state it came from,
-- a stay lasts its minimum dwell unless EXTREME ends it, and EXTREME returns to where it came from.
abbrev pub IsNext : StateRow → StateRow → Type 0
IsNext row next =
    (row.exited_at_ms ≡ some next.entered_at_ms)
    × (next.prev_state ≡ some row.state)
    × (next.pool_id ≡ row.pool_id)
    × (next.state ≢ row.state)
    × ((next.state ≡ extreme) ⊎ (row.entered_at_ms + min_dwell_ms row.state ≤ next.entered_at_ms))
    × ((row.state ≢ extreme) ⊎ (row.prev_state ≡ some next.state))

-- The rows before a row, newest first, back to the first one in NORMAL.
abbrev pub IsChain : StateRow → List StateRow → Type 0
IsChain next [] = (next.state ≡ normal) × (next.prev_state ≡ none)
IsChain next (row ∷ rows) = IsNext row next × IsChain row rows

abbrev pub IsOlder : ℕ → StateRow → Type 0
IsOlder id row = row.id < id

-- The machine's rows in front of the rows of `before`: one open row, which is the state it is in,
-- and the closed rows that lead to it.
pub record Timeline {F : Type 0} (before : List StateRow) (m : StateMachine F) : Type 0 where
  pub open_row : StateRow
  pub closed : List StateRow
  pub rows_eq : m.history.rows ≡ open_row ∷ (closed ++ before)
  pub is_open : open_row.exited_at_ms ≡ none
  pub is_current : m.current_row_id ≡ some open_row.id
  pub state_eq : open_row.state ≡ m.state
  pub entered_eq : open_row.entered_at_ms ≡ m.entered_at_ms
  pub prev_eq : open_row.prev_state ≡ m.prev_state
  pub pool_eq : open_row.pool_id ≡ m.pool_id
  pub ids : All (IsOlder open_row.id) (closed ++ before)
  pub last : open_row.id ≤ m.history.last_id
  pub chain : IsChain open_row closed

pub older_close :
    (t id : ℕ) (rows : List StateRow) → All (IsOlder id) rows → close_rows t id rows ≡ rows
unfolding close_rows
older_close t id [] h = refl
older_close t id (row ∷ rows) h = ground (arith, older_close t id rows h.1)

returned : (s : MarketState) → s ≢ extreme → return_state (some s) ≡ s
returned normal h = refl
returned trend h = refl
returned extreme h = absurd (h refl)

IsOlder-step :
    (id id' : ℕ) (rows : List StateRow) → id ≤ id' → All (IsOlder id) rows → All (IsOlder id') rows
IsOlder-step id id' [] le h = tt
IsOlder-step id id' (row ∷ rows) le h = (omega (arith, h.0), IsOlder-step id id' rows le h.1)

exit_keeps_IsChain :
    (exit : Option ℕ) (row : StateRow) (rows : List StateRow)
    → IsChain row rows
    → IsChain (record row { exited_at_ms = exit }) rows
exit_keeps_IsChain exit row [] chain = chain
exit_keeps_IsChain exit row (r ∷ rows) chain = chain

-- Where an EXTREME row came from.
came_from :
    (row : StateRow) (rows : List StateRow)
    → row.state ≡ extreme
    → IsChain row rows
    → (row.prev_state ≡ some (return_state row.prev_state))
      × (return_state row.prev_state ≢ extreme)
came_from row [] e chain = ground (arith, e, chain.0)
came_from row (r ∷ rows) e chain = ground (arith, e, chain.0, returned r.state)

module _ {F : Type 0} (m : StateMachine F) (now_ms : ℕ) where
  abbrev next_of : MarketState → String → StateRow
  next_of to trigger = record {
    id = suc m.history.last_id;
    pool_id = m.pool_id;
    entered_at_ms = now_ms;
    exited_at_ms = none;
    state = to;
    trigger = trigger;
    prev_state = some m.state;
  }

module _ {F : Type 0} {before : List StateRow} (m : StateMachine F) (now_ms : ℕ) where
  rules :
      {to : MarketState} (t : Timeline before m)
      → Move m now_ms to
      → (to ≢ m.state)
        × ((to ≡ extreme) ⊎ (m.entered_at_ms + min_dwell_ms m.state ≤ now_ms))
        × ((m.state ≢ extreme) ⊎ (m.prev_state ≡ some to))
  rules t (escalate h) = (λ e. h (sym e), inl refl, inl h)
  rules t (drift e h) = (λ q. ground (arith, q, e), inr h, inl (λ q. ground (arith, q, e)))
  rules t (calm e h) = (λ q. ground (arith, q, e), inr h, inl (λ q. ground (arith, q, e)))
  rules t (recover e h) =
      let (back, other) = came_from t.open_row t.closed (t.state_eq ∙ e) t.chain in
      (
        λ q. other (ap return_state t.prev_eq ∙ q ∙ e),
        inr h,
        inr (sym t.prev_eq ∙ back ∙ ap (λ p. some (return_state p)) t.prev_eq),
      )

  -- The closed row and the row after it.
  Move-IsNext :
      (to : MarketState) (trigger : String) (t : Timeline before m)
      → Move m now_ms to
      → IsNext (record t.open_row { exited_at_ms = some now_ms }) (next_of m now_ms to trigger)
  Move-IsNext to trigger t move =
      let (other, dwelled, back) = rules t move in
      rw (t.state_eq, t.entered_eq, t.prev_eq, t.pool_eq) (refl, refl, refl, other, dwelled, back)

  closed_current :
      (t : Timeline before m)
      → close_current now_ms m.current_row_id m.history ≡ record {
        rows = record t.open_row { exited_at_ms = some now_ms } ∷ (t.closed ++ before);
        last_id = m.history.last_id;
      }
  unfolding close_rows
  closed_current t =
      rw (t.is_current, t.rows_eq, older_close now_ms t.open_row.id (t.closed ++ before) t.ids)
        (ground arith)

  Move-Timeline :
      (to : MarketState) (trigger : String) (ctx : Option (StateContext F))
      → Timeline before m
      → Move m now_ms to
      → Timeline before (record (transition to trigger now_ms m) { last_ctx = ctx })
  unfolding transition
  Move-Timeline to trigger ctx t move = record {
    open_row = next_of m now_ms to trigger;
    closed = record t.open_row { exited_at_ms = some now_ms } ∷ t.closed;
    rows_eq = rw (closed_current t) refl;
    is_open = refl;
    is_current = rw (closed_current t) refl;
    state_eq = refl;
    entered_eq = refl;
    prev_eq = refl;
    pool_eq = refl;
    ids = (
      omega (arith, t.last),
      IsOlder-step t.open_row.id (suc m.history.last_id) (t.closed ++ before)
          (omega (arith, t.last)) t.ids,
    );
    last = rw (closed_current t) (omega arith);
    chain = (
      Move-IsNext to trigger t move,
      exit_keeps_IsChain (some now_ms) t.open_row t.closed t.chain,
    );
  }

pub Ticked-Timeline :
    {F : Type 0} {before : List StateRow} {m : StateMachine F} (now_ms : ℕ) {m' : StateMachine F}
    → Timeline before m
    → Ticked m now_ms m'
    → Timeline before m'
Ticked-Timeline now_ms t (stayed ctx) = record {
  open_row = t.open_row;
  closed = t.closed;
  rows_eq = t.rows_eq;
  is_open = t.is_open;
  is_current = t.is_current;
  state_eq = t.state_eq;
  entered_eq = t.entered_eq;
  prev_eq = t.prev_eq;
  pool_eq = t.pool_eq;
  ids = t.ids;
  last = t.last;
  chain = t.chain;
}
Ticked-Timeline {m = m} now_ms t (moved to trigger ctx move) =
    Move-Timeline m now_ms to trigger ctx t move
