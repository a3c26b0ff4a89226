-- ===== src/Treasury/Watcher/Ledger.antt =====
-- A polling cycle keeps the ledger's invariant, whatever the client reports or refuses.
use lp_agent.Prelude.{
  ℕ, ◌+◌, String, refl, Option, none, some, List, [], ◌∷◌, inl, inr, Option-cases, ltb, ◌===◌,
  Bool-cases, Bool, true, false, if◌then◌else◌,
}
use lp_agent.Treasury.Db.{
  TreasuryUser, CreditRate, DepositRecord, ◌>>◌, Db, bind-keeps, pure, modify,
}
use lp_agent.Treasury.Credits.{credits_for_amount}
use lp_agent.Treasury.Store.{get_credit_rate, record_deposit_tx, list_users, upsert_address_balance}
use lp_agent.Treasury.Store.Ledger.{IsLedger, IsLedger-other_tables, IsUnratedZero}
use lp_agent.Treasury.Store.Keeps.{record_deposit_tx-IsLedger}
use lp_agent.Treasury.Watcher.{
  CoinBalance, WatcherTickStats, deposit_of, credit_inflow, tick_coin, tick_coins, tick_one_user,
  poll_users, poll_once, tally, clear_pending_observation, write_pending_observation,
  BalanceCacheState, read_balance_cache, confirmed_of, has_pending, next_count,
}

-- The watcher's deposits follow the contract of `record_deposit_tx`.
deposit_of-IsUnratedZero :
    (u : TreasuryUser) (c id : String) (old new now_ms : ℕ) (rate : Option CreditRate)
    → IsUnratedZero (deposit_of u c id old new now_ms rate)
unfolding deposit_of credits_for_amount
deposit_of-IsUnratedZero u c id old new now_ms none h = refl
deposit_of-IsUnratedZero u c id old new now_ms (some r) h = cc

clear-IsLedger :
    (a c : String) (db : Db) → IsLedger db → IsLedger (clear_pending_observation a c db)
unfolding clear_pending_observation
clear-IsLedger a c db v = IsLedger-other_tables db db.rates _ db.nonces v

write-IsLedger :
    (a c : String) (old new count now_ms : ℕ) (db : Db)
    → IsLedger db
    → IsLedger (write_pending_observation a c old new count now_ms db)
unfolding write_pending_observation
write-IsLedger a c old new count now_ms db v = IsLedger-other_tables db db.rates _ db.nonces v

move-IsLedger :
    (a c : String) (new now_ms : ℕ) (db : Db)
    → IsLedger db
    → IsLedger (upsert_address_balance a c new now_ms db)
unfolding upsert_address_balance
move-IsLedger a c new now_ms db v = IsLedger-other_tables db db.rates _ db.nonces v

credit_inflow-IsLedger :
    (u : TreasuryUser) (c id : String) (old new now_ms : ℕ) (db : Db)
    → IsLedger db
    → IsLedger (credit_inflow u c id old new now_ms db).1
unfolding credit_inflow
credit_inflow-IsLedger u c id old new now_ms db v =
    bind-keeps IsLedger (record_deposit_tx d)
      (λ _. modify (clear_pending_observation u.deposit_address c) >> pure (1, d.credits_granted))
      db (record_deposit_tx-IsLedger d db (deposit_of-IsUnratedZero u c id old new now_ms _) v)
      (λ _ s h. clear-IsLedger u.deposit_address c s h)
  where
    d : DepositRecord
    d = deposit_of u c id old new now_ms (get_credit_rate c db)

tick_coin-IsLedger :
    (u : TreasuryUser) (now_ms : ℕ) (c id : String) (current : ℕ) (db : Db)
    → IsLedger db
    → IsLedger (tick_coin u now_ms c id current db).1
unfolding tick_coin
tick_coin-IsLedger u now_ms c id current db v = elim (Bool-cases (current === confirmed)) [
  | inl same ↦ rw same (still (has_pending cache))
  | inr moved ↦ rw moved (elim (Bool-cases (ltb (next_count cache current) 2)) [
    | inl early ↦ rw early (write-IsLedger u.deposit_address c confirmed current _ now_ms db v)
    | inr again ↦ rw again (elim (Bool-cases (ltb current confirmed)) [
      | inl out ↦ rw out (
          clear-IsLedger u.deposit_address c _
            (move-IsLedger u.deposit_address c current now_ms db v))
      | inr inflow ↦ rw inflow (credit_inflow-IsLedger u c id confirmed current now_ms db v)
    ])
  ])
]
  where
    cache : Option BalanceCacheState
    cache = read_balance_cache u.deposit_address c db

    confirmed : ℕ
    confirmed = confirmed_of cache

    still :
        (b : Bool) → IsLedger (if b then clear_pending_observation u.deposit_address c db else db)
    still true = clear-IsLedger u.deposit_address c db v
    still false = v

module _ (canonical : String → String) where
  tick_coins-IsLedger :
      (u : TreasuryUser) (now_ms : ℕ) (bs : List CoinBalance) (acc : ℕ × ℕ) (db : Db)
      → IsLedger db
      → IsLedger (tick_coins canonical u now_ms bs acc db).1
  unfolding tick_coins
  tick_coins-IsLedger u now_ms [] acc db v = v
  tick_coins-IsLedger u now_ms (b ∷ bs) (n, g) db v =
      bind-keeps IsLedger (tick_coin u now_ms (canonical b.coin_type) b.deposit_id b.total_balance)
        (λ r. tick_coins canonical u now_ms bs (n + r.0, g + r.1)) db
        (tick_coin-IsLedger u now_ms (canonical b.coin_type) b.deposit_id b.total_balance db v)
        (λ r s h. tick_coins-IsLedger u now_ms bs (n + r.0, g + r.1) s h)

  tick_one_user-IsLedger :
      (get : String → Option (List CoinBalance)) (u : TreasuryUser) (now_ms : ℕ) (db : Db)
      → IsLedger db
      → IsLedger (tick_one_user canonical get u now_ms db).1
  unfolding tick_one_user
  tick_one_user-IsLedger get u now_ms db v = elim (Option-cases (get u.deposit_address)) [
    | inl e ↦ rw (e, tick_one_user) v
    | inr (bs, e) ↦ rw (e, tick_one_user) (tick_coins-IsLedger u now_ms bs (0, 0) db v)
  ]

  poll_users-IsLedger :
      (get : String → Option (List CoinBalance)) (us : List TreasuryUser) (now_ms : ℕ)
      (stats : WatcherTickStats) (db : Db)
      → IsLedger db
      → IsLedger (poll_users canonical get us now_ms stats db).1
  unfolding poll_users
  poll_users-IsLedger get [] now_ms stats db v = v
  poll_users-IsLedger get (u ∷ us) now_ms stats db v =
      let (r, db') = tick_one_user canonical get u now_ms db in
      poll_users-IsLedger get us now_ms (tally canonical r stats) db'
        (tick_one_user-IsLedger get u now_ms db v)

  pub poll_once-IsLedger :
      (get : String → Option (List CoinBalance)) (now_ms : ℕ) (db : Db)
      → IsLedger db
      → IsLedger (poll_once canonical get now_ms db).1
  unfolding poll_once
  poll_once-IsLedger get now_ms db v = poll_users-IsLedger get (list_users db) now_ms _ db v
