-- ===== src/Treasury/Watcher/Crediting.antt =====
-- What one observation of `tickOneUser` (src/treasury/watcher.ts) does to the users' credits.
use lp_agent.Prelude.{
  ℕ, ◌+◌, String, ◌≡◌, refl, ◌≢◌, Bool, false, ◌&&◌, Option, none, some, arith, ltb, ◌===◌, ◌==◌,
  if◌then◌else◌, inl, inr, Option-cases,
}
use lp_agent.Prelude.Int.{sub_ℕ}
use lp_agent.Table.{select}
use lp_agent.Treasury.Db.{TreasuryUser, DepositRecord, Db}
use lp_agent.Treasury.Credits.{credits_for_amount}
use lp_agent.Treasury.Store.{
  user_key, deposit_key, get_credit_rate, record_deposit_tx, deposit_body, insert_deposit,
  upsert_address_balance, add_credits,
}
use lp_agent.Treasury.Store.Ledger.{credits_of, credits_of-add}
use lp_agent.Treasury.Watcher.{
  BalanceCacheState, read_balance_cache, write_pending_observation, clear_pending_observation,
  confirmed_of, deposit_of, credit_inflow, tick_coin,
}
use lp_agent.Treasury.Watcher.Debounce.{IsCounted}

module _ (user : TreasuryUser) (now_ms : ℕ) (c id : String) (v : ℕ) (db : Db) where
  abbrev row : Option BalanceCacheState
  row = read_balance_cache user.deposit_address c db

  -- The value is the one in flight, and above the baseline.
  abbrev pub is_confirmed_inflow : Bool
  is_confirmed_inflow = elim row [
    | none ↦ false
    | some s ↦ elim s.pending_balance [ none ↦ false | some w ↦ w === v ] && ltb s.confirmed v
  ]

  abbrev pub earned : ℕ
  earned =
      if is_confirmed_inflow
      then credits_for_amount (sub_ℕ v (confirmed_of row)) (get_credit_rate c db)
      else 0

  module _ (fresh : select deposit_key id db.deposits ≡ none)
      (known : select user_key user.sui_address db.users ≢ none) where
    users-record :
        (d : DepositRecord)
        → d.id ≡ id
        → d.sui_address ≡ user.sui_address
        → (record_deposit_tx d db).1.users ≡ (
            if ltb 0 d.credits_granted
            then add_credits user.sui_address d.credits_granted db.users
            else db.users)
    unfolding record_deposit_tx deposit_body insert_deposit upsert_address_balance
    users-record d e f = elim (Option-cases (select user_key user.sui_address db.users)) [
      | inl none_known ↦ absurd (known none_known)
      | inr (u, h) ↦ ground arith
    ]

    users-inflow :
        (old : ℕ)
        → let g = credits_for_amount (sub_ℕ v old) (get_credit_rate c db) in
          (credit_inflow user c id old v now_ms db).1.users
          ≡ (if ltb 0 g then add_credits user.sui_address g db.users else db.users)
    unfolding credit_inflow deposit_of clear_pending_observation
    users-inflow old =
        ground
          (arith, users-record (deposit_of user c id old v now_ms (get_credit_rate c db)) refl refl)

    credits-inflow :
        (a : String) (old : ℕ)
        → let g = credits_for_amount (sub_ℕ v old) (get_credit_rate c db) in
          credits_of a (credit_inflow user c id old v now_ms db).1.users
          ≡ credits_of a db.users + (if user.sui_address == a then g else 0)
    credits-inflow a old =
        let g = credits_for_amount (sub_ℕ v old) (get_credit_rate c db) in
        rw (users-inflow old) (ground (arith, credits_of-add a user.sui_address g db.users known))

    -- For a registered user, a deposit id that is not taken, and a counter that tells whether a value
    -- is in flight: an observation credits the user with what the rise over the baseline is worth,
    -- if the same value was already in flight and is above the baseline. Otherwise, and for every
    -- other user, no credits change.
    pub tick_coin-credits :
        (a : String)
        → IsCounted row
        → credits_of a (tick_coin user now_ms c id v db).1.users
          ≡ credits_of a db.users + (if user.sui_address == a then earned else 0)
    unfolding tick_coin write_pending_observation clear_pending_observation upsert_address_balance
    tick_coin-credits a counted = ground (arith, credits-inflow a (confirmed_of row))
