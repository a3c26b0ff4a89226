-- ===== src/State.antt =====
-- src/state: the machine of market states and the journal of regimes, which both write the table
-- market_state_history.
pub mod Params
pub mod Transitions
pub mod Machine
pub mod Journal
mod Examples
use lp_agent.Prelude.{
  ℕ, ◌===◌, String, Bool, true, false, Option, none, some, List, [], ◌∷◌, suc, if◌then◌else◌,
}

-- What throws a RangeError is nothing.
infixl 5 ◌>>=◌
abbrev pub ◌>>=◌ : {A B : Type 0} → Option A → (A → Option B) → Option B
none >>= f = none
some a >>= f = f a

-- NORMAL, TREND and EXTREME.
pub data MarketState : Type 0 where
  normal trend extreme : MarketState

abbrev pub same_state : MarketState → MarketState → Bool
same_state normal normal = true
same_state trend trend = true
same_state extreme extreme = true
same_state _ _ = false

-- A row of market_state_history.
pub record StateRow : Type 0 where
  pub id : ℕ
  pub pool_id : String
  pub entered_at_ms : ℕ
  pub exited_at_ms : Option ℕ
  pub state : MarketState
  pub trigger : String
  pub prev_state : Option MarketState

-- The table, newest row first, with the last id that AUTOINCREMENT gave.
pub record StateHistory : Type 0 where
  pub rows : List StateRow
  pub last_id : ℕ

-- INSERT INTO market_state_history (pool_id, entered_at_ms, state, trigger, prev_state)
abbrev pub insert_row :
    String → ℕ → MarketState → String → Option MarketState → StateHistory → StateHistory
insert_row pool_id entered_at_ms state trigger prev_state h = record {
  rows =
      record {
        id = suc h.last_id;
        pool_id = pool_id;
        entered_at_ms = entered_at_ms;
        exited_at_ms = none;
        state = state;
        trigger = trigger;
        prev_state = prev_state;
      }
      ∷ h.rows;
  last_id = suc h.last_id;
}

-- UPDATE market_state_history SET exited_at_ms = ? WHERE id = ?
unfoldable pub close_rows : ℕ → ℕ → List StateRow → List StateRow
close_rows exited_at_ms id [] = []
close_rows exited_at_ms id (row ∷ rows) =
    (if row.id === id then record row { exited_at_ms = some exited_at_ms } else row)
    ∷ close_rows exited_at_ms id rows

abbrev pub close_row : ℕ → ℕ → StateHistory → StateHistory
close_row exited_at_ms id h = record h { rows = close_rows exited_at_ms id h.rows }
