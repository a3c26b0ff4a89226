-- ===== src/State/Journal.antt =====
-- src/state/regimeJournal.ts: the regimes of a rule-based strategy in market_state_history.
pub mod OneOpen
use lp_agent.Prelude.{
  ℕ, String, Bool, true, false, ◌==◌, ◌&&◌, Option, none, some, List, [], ◌∷◌, ltb, if◌then◌else◌,
}
use lp_agent.State.{MarketState, same_state, StateRow, StateHistory, insert_row, close_row}

-- exited_at_ms IS NULL
abbrev pub is_open_row : StateRow → Bool
is_open_row row = elim row.exited_at_ms [ none ↦ true | some _ ↦ false ]

abbrev pub is_open_of : String → StateRow → Bool
is_open_of pool_id row = row.pool_id == pool_id && is_open_row row

abbrev pub later : StateRow → Option StateRow → StateRow
later row none = row
later row (some r) = if ltb row.entered_at_ms r.entered_at_ms then r else row

-- SELECT ... WHERE pool_id = ? AND exited_at_ms IS NULL ORDER BY entered_at_ms DESC LIMIT 1. SQL
-- leaves ties open; here the newest row wins.
unfoldable pub latest_open : String → List StateRow → Option StateRow
latest_open pool_id [] = none
latest_open pool_id (row ∷ rows) =
    let rest = latest_open pool_id rows in
    if is_open_of pool_id row then some (later row rest) else rest

-- The rest of the function, for the row that was found.
abbrev pub record_over :
    StateHistory → String → MarketState → String → ℕ → Option StateRow → StateHistory
record_over db pool_id state trigger now_ms none = insert_row pool_id now_ms state trigger none db
record_over db pool_id state trigger now_ms (some row) =
    if same_state row.state state
    then db
    else insert_row pool_id now_ms state trigger (some row.state) (close_row now_ms row.id db)

unfoldable pub record_regime_transition :
    StateHistory → String → MarketState → String → ℕ → StateHistory
record_regime_transition db pool_id state trigger now_ms =
    record_over db pool_id state trigger now_ms (latest_open pool_id db.rows)
