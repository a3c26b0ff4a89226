-- ===== src/Treasury/Examples.antt =====
-- Runs of the treasury's operations at concrete inputs.
use lp_agent.Prelude.{
  ℕ, ◌+◌, ◌≤◌, ◌<◌, ◌≡◌, refl, ◌⊎◌, true, false, none, some, List, [], ◌∷◌, ◌==◌, if◌then◌else◌,
  arith, sum_by,
}
use lp_agent.Prelude.Int.{pos}
use lp_agent.Table.{select}
use lp_agent.Table.Filter.{filter}
use lp_agent.Treasury.Db.{TreasuryUser, CreditRate, DepositRecord, accepted, Db, ok}
use lp_agent.Treasury.Credits.{credits_for_amount}
use lp_agent.Treasury.Store.{
  integer, row_of, ChargeRequest, attempt_charge_tx, refund_charge_tx, get_credit_rate,
  get_address_balance, deposit_key,
}
use lp_agent.Treasury.Store.Ledger.{IsLedger, credits_of, debited, granted}
use lp_agent.Treasury.Store.Outcomes.{paid_charge, rejected_charge}
use lp_agent.Treasury.Store.Charging.{charge_moves_cost, refund_undoes_charge}
use lp_agent.Treasury.Watcher.{read_balance_cache, tick_coin}
use lp_agent.Treasury.Watcher.Crediting.{earned, tick_coin-credits}
use lp_agent.Treasury.Watcher.Debounce.{abstract_cache, observe, IsCounted, tick_coin-observe}
use lp_agent.Treasury.Backfill.{BackfillResult, backfill_credits, needs_backfill}
use lp_agent.Treasury.Backfill.Worth.{worth_to, settled_row}
use lp_agent.Treasury.Backfill.Grants.{backfill_once}
use lp_agent.Treasury.Charges.{Platform, SignedRequest, charge_for_service_with_signature}
use lp_agent.Treasury.Charges.Signed.{charged_once, unsigned_moves_nothing}
use lp_agent.Treasury.History.{
  TreasuryCall, register, set_credit_rate, poll, charge, empty_db, after_calls, books_balance,
}
use lp_agent.Treasury.OpsStore.{
  TreasuryOp, sweep, RecordOpArgs, record_op, MarkOpResultArgs, did_succeed, did_fail,
  mark_op_result, get_op_by_id, succeeded, pending,
}
use lp_agent.Treasury.OpsStore.Outcome.{recorded_then_reported}

abbrev alice : TreasuryUser
alice = record {
  sui_address = "0xa";
  derivation_index = 1;
  deposit_address = "0xd1";
  credits = 10;
  created_at_ms = 1;
}

abbrev sui_rate : CreditRate
sui_rate = record {
  coin_type = "sui";
  rate_num = 3;
  rate_den = 2;
  updated_at_ms = 1;
  updated_by = none;
}

abbrev shop : Db
shop = record {
  users = alice ∷ [];
  rates = sui_rate ∷ [];
  balances = [];
  deposits = [];
  charges = [];
  nonces = [];
}

abbrev rebalance : ChargeRequest
rebalance = record {
  nonce = "n1";
  sui_address = "0xa";
  pm_id = none;
  cost = integer (pos 4);
  memo = none;
}

charge_moves_cost_example :
    let first = attempt_charge_tx rebalance 100 shop in
    ((4 ≤ 10)
      × (first.0 ≡ ok (paid_charge rebalance 4 100))
      × (first.1.charges ≡ row_of (paid_charge rebalance 4 100) ∷ shop.charges)
      × (credits_of "0xa" first.1.users + (if rebalance.sui_address == "0xa" then 4 else 0)
          ≡ credits_of "0xa" shop.users))
    ⊎ ((10 < 4)
        × (first.0 ≡ ok (rejected_charge rebalance 4 100))
        × (first.1.charges ≡ row_of (rejected_charge rebalance 4 100) ∷ shop.charges)
        × (first.1.users ≡ shop.users))
unfolding select
charge_moves_cost_example = charge_moves_cost rebalance 4 100 shop {u = alice} refl refl refl "0xa"

refund_undoes_charge_example :
    let refund = refund_charge_tx "n1" "failed" (attempt_charge_tx rebalance 100 shop).1 in
    (refund.0 ≡ ok true)
    × (credits_of "0xa" refund.1.users ≡ credits_of "0xa" shop.users)
    × (refund_charge_tx "n1" "again" refund.1 ≡ (ok false, refund.1))
unfolding select
refund_undoes_charge_example =
    refund_undoes_charge rebalance 4 100 shop {u = alice} refl refl refl (omega arith) "failed"
      "0xa" "again"

-- ---- signed charges

-- A platform that reads messages as they stand and accepts alice's signature.
abbrev platform : Platform
platform = record {
  decode_base64 = λ t. t;
  trim = λ t. t;
  number_to_string = λ n. "4";
  verify = λ message signature. if signature == "by 0xa" then some "0xa" else none;
}

abbrev signed : SignedRequest
signed = record {
  sui_address = "0xa";
  credits = integer (pos 4);
  message_b64 = "LiquidityManager:charge:0xa:4:n2";
  signature = "by 0xa";
  nonce = "n2";
  memo = none;
}

abbrev forged : SignedRequest
forged = record signed { signature = "by another" }

charged_once_example :
    let after = (charge_for_service_with_signature platform signed 100 shop).1 in
    (after ≡ shop) ⊎ ((charge_for_service_with_signature platform signed 200 after).1 ≡ after)
charged_once_example = charged_once platform signed signed 100 200 shop refl refl

unsigned_moves_nothing_example :
    let after = (charge_for_service_with_signature platform forged 100 shop).1 in
    (after.users ≡ shop.users) × (after.charges ≡ shop.charges)
unsigned_moves_nothing_example = unsigned_moves_nothing platform forged 100 shop (λ e. ground arith)

-- The shop after alice's nonce was accepted.
abbrev used : Db
used = record shop {
  nonces =
      (record {
        sui_address = "0xa";
        nonce = "n2";
        status = accepted;
        error = none;
        created_at_ms = 50;
      })
      ∷ [];
}

-- ---- the watcher and the backfill

abbrev seen_once : Db
seen_once = record shop {
  balances =
      (record {
        deposit_address = "0xd1";
        coin_type = "sui";
        last_seen_balance = 0;
        last_seen_ms = 1;
        pending_balance = some 4;
        pending_count = 1;
      })
      ∷ [];
}

tick_coin-observe_example :
    let after = (tick_coin alice 100 "sui" "dep_1" 4 seen_once).1 in
    (r : ℕ × ℕ) × ((tick_coin alice 100 "sui" "dep_1" 4 seen_once).0 ≡ ok r)
    × (abstract_cache (read_balance_cache "0xd1" "sui" after)
        ≡ observe (abstract_cache (read_balance_cache "0xd1" "sui" seen_once)) 4)
    × IsCounted (read_balance_cache "0xd1" "sui" after)
unfolding read_balance_cache get_address_balance select
tick_coin-observe_example =
    tick_coin-observe alice 100 "sui" "dep_1" 4 seen_once refl (λ e. cc) refl

-- A deposit of 4 that was recorded before its coin had a rate.
abbrev old_deposit : DepositRecord
old_deposit = record {
  id = "dep_0";
  sui_address = "0xa";
  deposit_address = "0xd1";
  coin_type = "sui";
  amount_delta = pos 4;
  prev_balance = 0;
  new_balance = 4;
  credits_granted = 0;
  rate_num = none;
  rate_den = none;
  observed_at_ms = 1;
}

abbrev unrated_shop : Db
unrated_shop = record shop {
  users = record alice { credits = 0 } ∷ [];
  deposits = old_deposit ∷ [];
}

unrated_shop-IsLedger : IsLedger unrated_shop
unfolding credits_of select
unrated_shop-IsLedger = record {
  users_unique = (refl, tt);
  charges_unique = tt;
  deposits_unique = (refl, tt);
  unrated = ((λ e. refl), tt);
  strangers = λ a h. ground arith;
  balanced = λ a. ground arith;
}

backfill_once_example :
    (res again : BackfillResult) × (db' : Db) × (backfill_credits (λ t. t) "sui" unrated_shop
      ≡ (ok res, db'))
    × IsLedger db'
    × (res.credits_granted
        ≡ sum_by
            (λ (r : DepositRecord). credits_for_amount r.amount_delta (some sui_rate))
            (filter (needs_backfill "sui") unrated_shop.deposits))
    × (credits_of "0xa" db'.users
        ≡ credits_of "0xa" unrated_shop.users
          + sum_by
              (worth_to sui_rate "sui" "0xa")
              (filter (needs_backfill "sui") unrated_shop.deposits))
    × (select deposit_key "dep_0" db'.deposits
        ≡ settled_row sui_rate "sui" (select deposit_key "dep_0" unrated_shop.deposits))
    × (backfill_credits (λ t. t) "sui" db' ≡ (ok again, db'))
    × (again.processed ≡ 0)
    × (again.credits_granted ≡ 0)
unfolding get_credit_rate select
backfill_once_example =
    backfill_once (λ t. t) "sui" unrated_shop unrated_shop-IsLedger {rate = sui_rate} refl "0xa"
      "dep_0"

-- ---- the treasury over time

abbrev day : List (ℕ × TreasuryCall)
day =
    (1, register "0xa" (λ i. "0xd1"))
    ∷ (2, set_credit_rate "sui" (pos 3) (pos 2) none)
    ∷ (
      3,
      poll (λ a. some (record { coin_type = "sui"; total_balance = 4; deposit_id = "d1" } ∷ [])),
    )
    ∷ (
      4,
      poll (λ a. some (record { coin_type = "sui"; total_balance = 4; deposit_id = "d2" } ∷ [])),
    )
    ∷ (5, charge rebalance)
    ∷ []

books_balance_example :
    let db = after_calls platform (λ t. t) day empty_db in
    (credits_of "0xa" db.users + debited "0xa" db ≡ granted "0xa" db)
    × (debited "0xa" db ≤ granted "0xa" db)
books_balance_example = books_balance platform (λ t. t) day "0xa"

-- ---- the operator's log

abbrev sweep_args : RecordOpArgs
sweep_args = record {
  op_kind = sweep;
  from_address = "0xd1";
  to_address = some "0xt";
  coin_type_in = "sui";
  amount_in = pos 9;
  coin_type_out = none;
  amount_out = none;
  initiated_by = "admin";
}

abbrev swept : TreasuryOp
swept = record {
  id = "op_1";
  op_kind = sweep;
  from_address = "0xd1";
  to_address = some "0xt";
  coin_type_in = "sui";
  amount_in = pos 9;
  coin_type_out = none;
  amount_out = none;
  digest = none;
  status = pending;
  error = none;
  initiated_by = "admin";
  created_at_ms = 7;
}

abbrev success : MarkOpResultArgs
success = record {
  status = did_succeed;
  digest = some "0xf00";
  amount_out = some (pos 9);
  error = none;
}

abbrev failure : MarkOpResultArgs
failure = record { status = did_fail; digest = none; amount_out = none; error = some "timeout" }

recorded_then_reported_example :
    get_op_by_id "op_1" (mark_op_result "op_1" success (swept ∷ [])) ≡ (
      if "op_1" == "op_1"
      then some
          (record swept { status = succeeded; digest = some "0xf00"; amount_out = some (pos 9) })
      else get_op_by_id "op_1" [])
unfolding record_op select
recorded_then_reported_example =
    recorded_then_reported "op_1" "op_1" sweep_args 7 success [] (swept ∷ []) refl

tick_coin-credits_example :
    credits_of "0xa" (tick_coin alice 100 "sui" "dep_1" 4 seen_once).1.users
    ≡ credits_of "0xa" seen_once.users
      + (if alice.sui_address == "0xa" then earned alice 100 "sui" "dep_1" 4 seen_once else 0)
unfolding read_balance_cache get_address_balance select
tick_coin-credits_example =
    tick_coin-credits alice 100 "sui" "dep_1" 4 seen_once refl (λ e. cc) "0xa" refl
