-- ===== src/Treasury/Backfill/Grants.antt =====
-- What src/treasury/backfill.ts does as a whole, and when it is run once more.
use lp_agent.Treasury.Store.Ledger.{credits_of}
use lp_agent.Prelude.{
  ℕ, ◌+◌, String, ◌≡◌, refl, ap, ◌∙◌, true, none, some, List, [], ◌∷◌, length, sum_by, arith,
}
use lp_agent.Table.{select}
use lp_agent.Table.Filter.{filter, filter-Unique, filter-IsFound, All-map}
use lp_agent.Treasury.Db.{CreditRate, DepositRecord, Db, ok}
use lp_agent.Treasury.Credits.{credits_for_amount}
use lp_agent.Treasury.Store.{deposit_key, get_credit_rate}
use lp_agent.Treasury.Store.Ledger.{IsLedger}
use lp_agent.Treasury.Backfill.{
  BackfillResult, needs_backfill, is_rated, grant_rows, backfill_credits,
}
use lp_agent.Treasury.Backfill.Rows.{
  open_count, open_count-filter, rates-grant_rows, Ready, grant_rows_lem,
}
use lp_agent.Treasury.Backfill.Worth.{
  worth_to, settled_row, credits-grant_rows, deposits-grant_rows,
}

empty_of_length : (ds : List DepositRecord) → length ds ≡ 0 → ds ≡ []
empty_of_length [] h = refl
empty_of_length (d ∷ ds) h = absurd (omega arith)

abbrev report : String → CreditRate → Db → BackfillResult
report coin rate db = record {
  coin_type = coin;
  processed = length (filter (needs_backfill coin) db.deposits);
  credits_granted = (grant_rows rate (filter (needs_backfill coin) db.deposits) 0 db).0;
  skipped = length (filter (is_rated coin) db.deposits);
}

backfill_credits_lem :
    (canonical : String → String) (raw : String) (db : Db) {rate : CreditRate}
    → get_credit_rate (canonical raw) db ≡ some rate
    → backfill_credits canonical raw db ≡ (
      ok (report (canonical raw) rate db),
      (grant_rows rate (filter (needs_backfill (canonical raw)) db.deposits) 0 db).1,
    )
unfolding backfill_credits
backfill_credits_lem canonical raw db rated = rw (rated, backfill_credits)

module _ (canonical : String → String) (raw : String) (db : Db) (v : IsLedger db)
    {rate : CreditRate} (rated : get_credit_rate (canonical raw) db ≡ some rate) where
  abbrev coin : String
  coin = canonical raw

  abbrev rows : List DepositRecord
  rows = filter (needs_backfill coin) db.deposits

  abbrev after : Db
  after = (grant_rows rate rows 0 db).1

  rows-Ready : Ready rate coin db rows
  rows-Ready = (
    filter-Unique deposit_key (needs_backfill coin) db.deposits v.deposits_unique,
    All-map rows (λ r f. ((f.0, no_rate r f.1), f.1))
        (filter-IsFound deposit_key (needs_backfill coin) db.deposits v.deposits_unique),
  )
    where
      no_rate : (r : DepositRecord) → needs_backfill coin r ≡ true → r.rate_num ≡ none
      no_rate r h = ground arith

  nothing_left : filter (needs_backfill coin) after.deposits ≡ []
  unfolding open_count
  nothing_left =
      let (kept, counted, total) = grant_rows_lem rate coin rows 0 db v rows-Ready in
      empty_of_length _ (
        omega (
          arith,
          counted,
          open_count-filter coin db.deposits,
          open_count-filter coin after.deposits,
        ))

  still_rated : get_credit_rate coin after ≡ some rate
  unfolding get_credit_rate
  still_rated = rw (rates-grant_rows rate rows 0 db) rated

  second_lem :
      (grant_rows rate (filter (needs_backfill coin) after.deposits) 0 after ≡ (0, after))
      × (length (filter (needs_backfill coin) after.deposits) ≡ 0)
  unfolding grant_rows
  second_lem = (rw nothing_left, rw nothing_left)

  -- Where the coin has a rate, a backfill of a ledger returns and keeps the ledger. It gives every
  -- user what the user's deposits of the coin without a rate are worth, reports the sum of all of
  -- these, gives each of them its credits and the rate, and leaves every other deposit as it was.
  -- Run once more, it returns again, with nothing processed and nothing granted, and leaves the
  -- database as it is.
  pub backfill_once :
      (a k : String)
      → (res again : BackfillResult) × (db' : Db) × (backfill_credits canonical raw db
          ≡ (ok res, db'))
        × IsLedger db'
        × (res.credits_granted
            ≡ sum_by
                (λ (r : DepositRecord). credits_for_amount r.amount_delta (some rate))
                (filter (needs_backfill (canonical raw)) db.deposits))
        × (credits_of a db'.users
            ≡ credits_of a db.users
              + sum_by
                  (worth_to rate (canonical raw) a)
                  (filter (needs_backfill (canonical raw)) db.deposits))
        × (select deposit_key k db'.deposits
            ≡ settled_row rate (canonical raw) (select deposit_key k db.deposits))
        × (backfill_credits canonical raw db' ≡ (ok again, db'))
        × (again.processed ≡ 0)
        × (again.credits_granted ≡ 0)
  backfill_once a k =
      let (kept, counted, total) = grant_rows_lem rate coin rows 0 db v rows-Ready in
      (
        report coin rate db,
        report coin rate after,
        after,
        backfill_credits_lem canonical raw db rated,
        kept,
        omega (arith, total),
        credits-grant_rows rate coin a rows 0 db v rows-Ready,
        deposits-grant_rows rate coin k db v rows-Ready,
        backfill_credits_lem canonical raw after still_rated
            ∙ ap (λ (d : Db). (ok (report coin rate after), d))
                (ap (λ (r : ℕ × Db). r.1) second_lem.0),
        second_lem.1,
        ap (λ (r : ℕ × Db). r.0) second_lem.0,
      )
