-- ===== src/Treasury/History.antt =====
-- The treasury over time: the calls of src/treasury that write, in any order, from an empty
-- database. A deposit is recorded by the watcher alone.
use lp_agent.Prelude.{
  ℕ, ◌+◌, ◌≤◌, String, ◌≡◌, refl, Option, List, [], ◌∷◌, arith, inl, inr, Option-cases,
}
use lp_agent.Prelude.Int.{ℤ}
use lp_agent.Table.{select}
use lp_agent.Treasury.Db.{Db, pure, bind-keeps}
use lp_agent.Treasury.Store.{
  ChargeRequest, register_user_tx, upsert_credit_rate, attempt_charge_tx, get_credit_rate,
}
use lp_agent.Treasury.Store.Ledger.{IsLedger, credits_of, granted, debited}
use lp_agent.Treasury.Store.Keeps.{
  register_user_tx-IsLedger, attempt_charge_tx-IsLedger, refund_charge_tx-IsLedger,
}
use lp_agent.Treasury.Watcher.{CoinBalance, poll_once}
use lp_agent.Treasury.Watcher.Ledger.{poll_once-IsLedger}
use lp_agent.Treasury.Backfill.{backfill_credits}
use lp_agent.Treasury.Backfill.Grants.{backfill_once}
use lp_agent.Treasury.Charges.{
  Platform, SignedRequest, attempt_charge, refund_charge, charge_row_to_result,
  charge_for_service_with_signature,
}
use lp_agent.Treasury.Charges.Signed.{charge_for_service_with_signature-IsLedger}

pub data TreasuryCall : Type 0 where
  register : String → (ℕ → String) → TreasuryCall
  set_credit_rate : String → ℤ → ℤ → Option String → TreasuryCall
  poll : (String → Option (List CoinBalance)) → TreasuryCall
  backfill : String → TreasuryCall
  charge : ChargeRequest → TreasuryCall
  refund_of : String → String → TreasuryCall
  signed_charge : SignedRequest → TreasuryCall

abbrev pub empty_db : Db
empty_db = record {
  users = [];
  rates = [];
  balances = [];
  deposits = [];
  charges = [];
  nonces = [];
}

module _ (platform : Platform) (canonical : String → String) where
  -- The database after a call, at the time `now_ms`.
  unfoldable pub after_call : TreasuryCall → ℕ → Db → Db
  after_call (register a derive) now_ms db = (register_user_tx a derive now_ms db).1
  after_call (set_credit_rate c num den by) now_ms db =
      (upsert_credit_rate c num den by now_ms db).1
  after_call (poll get) now_ms db = (poll_once canonical get now_ms db).1
  after_call (backfill raw) now_ms db = (backfill_credits canonical raw db).1
  after_call (charge q) now_ms db = (attempt_charge q now_ms db).1
  after_call (refund_of nonce reason) now_ms db = (refund_charge nonce reason db).1
  after_call (signed_charge q) now_ms db =
      (charge_for_service_with_signature platform q now_ms db).1

  unfoldable pub after_calls : List (ℕ × TreasuryCall) → Db → Db
  after_calls [] db = db
  after_calls ((now_ms, c) ∷ cs) db = after_calls cs (after_call c now_ms db)

  set_credit_rate-IsLedger :
      (c : String) (num den : ℤ) (by : Option String) (now_ms : ℕ) (db : Db)
      → IsLedger db
      → IsLedger (upsert_credit_rate c num den by now_ms db).1
  unfolding upsert_credit_rate
  set_credit_rate-IsLedger c num den by now_ms db v = record {
    users_unique = ground (arith, v.users_unique);
    charges_unique = ground (arith, v.charges_unique);
    deposits_unique = ground (arith, v.deposits_unique);
    unrated = ground (arith, v.unrated);
    strangers = λ a h. ground (arith, v.strangers a);
    balanced = λ a. ground (arith, v.balanced a);
  }

  backfill-IsLedger :
      (raw : String) (db : Db) → IsLedger db → IsLedger (backfill_credits canonical raw db).1
  backfill-IsLedger raw db v = elim (Option-cases (get_credit_rate (canonical raw) db)) [
    | inl e ↦ unfold backfill_credits in rw (e, backfill_credits) v
    | inr (rate, e) ↦
        let (res, again, after, run, kept, total, paid, marked, rerun, idle, nothing) =
          backfill_once canonical raw db v e "" "" in
        rw run kept
  ]

  after_call-IsLedger :
      (c : TreasuryCall) (now_ms : ℕ) (db : Db) → IsLedger db → IsLedger (after_call c now_ms db)
  unfolding after_call attempt_charge refund_charge
  after_call-IsLedger (register a derive) now_ms db v =
      register_user_tx-IsLedger a derive now_ms db v
  after_call-IsLedger (set_credit_rate c num den by) now_ms db v =
      set_credit_rate-IsLedger c num den by now_ms db v
  after_call-IsLedger (poll get) now_ms db v = poll_once-IsLedger canonical get now_ms db v
  after_call-IsLedger (backfill raw) now_ms db v = backfill-IsLedger raw db v
  after_call-IsLedger (charge q) now_ms db v =
      bind-keeps IsLedger (attempt_charge_tx q now_ms) (λ row. pure (charge_row_to_result row)) db
        (attempt_charge_tx-IsLedger q now_ms db v) (λ row s h. h)
  after_call-IsLedger (refund_of nonce reason) now_ms db v =
      refund_charge_tx-IsLedger nonce reason db v
  after_call-IsLedger (signed_charge q) now_ms db v =
      charge_for_service_with_signature-IsLedger platform q now_ms db v

  after_calls-IsLedger :
      (calls : List (ℕ × TreasuryCall)) (db : Db) → IsLedger db → IsLedger (after_calls calls db)
  unfolding after_calls
  after_calls-IsLedger [] db v = v
  after_calls-IsLedger ((now_ms, c) ∷ cs) db v =
      after_calls-IsLedger cs (after_call c now_ms db) (after_call-IsLedger c now_ms db v)

  empty_db-IsLedger : IsLedger empty_db
  unfolding credits_of select
  empty_db-IsLedger = record {
    users_unique = tt;
    charges_unique = tt;
    deposits_unique = tt;
    unrated = tt;
    strangers = λ a h. (refl, refl);
    balanced = λ a. ground arith;
  }

  -- Whatever calls the treasury sees, in any order and from an empty database, and whichever of them
  -- are refused: what a user holds, together with what the user has been charged and not been
  -- refunded, is what the user's recorded deposits granted. So no user is charged more than the
  -- deposits granted.
  pub books_balance :
      (calls : List (ℕ × TreasuryCall)) (a : String)
      → let db = after_calls calls empty_db in
        (credits_of a db.users + debited a db ≡ granted a db) × (debited a db ≤ granted a db)
  books_balance calls a =
      let v = after_calls-IsLedger calls empty_db empty_db-IsLedger in
      (v.balanced a, omega (arith, v.balanced a))
