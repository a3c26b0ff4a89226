-- ===== src/Treasury/Backfill.antt =====
-- src/treasury/backfill.ts: credits for the deposits that were recorded before their coin had a
-- rate. `canonical` is `canonicalType`.
pub mod Rows
pub mod Worth
pub mod Grants
use lp_agent.Prelude.{
  ℕ, ◌+◌, String, Bool, true, false, not, ◌&&◌, Option, none, some, List, [], ◌∷◌, ◌==◌, ltb,
  if◌then◌else◌, length,
}
use lp_agent.Table.{update}
use lp_agent.Table.Filter.{filter}
use lp_agent.Treasury.Db.{
  CreditRate, DepositRecord, Db, Result, ok, throw, Exec, raise, no_credit_rate,
}
use lp_agent.Treasury.Credits.{credits_for_amount}
use lp_agent.Treasury.Store.{deposit_key, add_credits, get_credit_rate}

pub record BackfillResult : Type 0 where
  pub coin_type : String
  pub processed : ℕ
  pub credits_granted : ℕ
  pub skipped : ℕ

-- rate_num IS NULL
abbrev pub has_no_rate : DepositRecord → Bool
has_no_rate d = elim d.rate_num [ none ↦ true | some _ ↦ false ]

-- WHERE coin_type = ? AND rate_num IS NULL
abbrev pub needs_backfill : String → DepositRecord → Bool
needs_backfill coin_type d = (d.coin_type == coin_type) && has_no_rate d

-- WHERE coin_type = ? AND rate_num IS NOT NULL
abbrev pub is_rated : String → DepositRecord → Bool
is_rated coin_type d = (d.coin_type == coin_type) && not (has_no_rate d)

-- UPDATE treasury_deposits SET credits_granted = ?, rate_num = ?, rate_den = ?
abbrev pub set_rate : ℕ → CreditRate → DepositRecord → DepositRecord
set_rate granted rate d = record d {
  credits_granted = granted;
  rate_num = some rate.rate_num;
  rate_den = some rate.rate_den;
}

-- One row of the loop, with the running total.
unfoldable pub grant_row : CreditRate → DepositRecord → ℕ → Db → ℕ × Db
grant_row rate row total db =
    let granted = credits_for_amount row.amount_delta (some rate) in
    let deposits = update deposit_key row.id (set_rate granted rate) db.deposits in
    if ltb 0 granted
    then (
      total + granted,
      record db { deposits = deposits; users = add_credits row.sui_address granted db.users },
    )
    else (total, record db { deposits = deposits })

unfoldable pub grant_rows : CreditRate → List DepositRecord → ℕ → Db → ℕ × Db
grant_rows rate [] total db = (total, db)
grant_rows rate (row ∷ rows) total db =
    let (total', db') = grant_row rate row total db in grant_rows rate rows total' db'

module _ (canonical : String → String) where
  -- The statements of the transaction cannot fail, so it commits.
  unfoldable pub backfill_credits : String → Exec BackfillResult
  backfill_credits raw_coin_type db =
      let coin_type = canonical raw_coin_type in
      elim (get_credit_rate coin_type db) [
        | none ↦ raise no_credit_rate db
        | some rate ↦
            let rows = filter (needs_backfill coin_type) db.deposits in
            let (total, db') = grant_rows rate rows 0 db in
            (
              ok (record {
                coin_type = coin_type;
                processed = length rows;
                credits_granted = total;
                skipped = length (filter (is_rated coin_type) db.deposits);
              }),
              db',
            )
      ]
