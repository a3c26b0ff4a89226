-- ===== src/Treasury/Watcher.antt =====
-- src/treasury/watcher.ts: one polling cycle. The RPC client and `normalizeStructTag` are
-- parameters; an observed balance carries the id that `newDepositId()` draws if it is recorded.
-- `canonicalType` is of src/sui/lending/typeNorm.ts.
pub mod Debounce
pub mod Crediting
pub mod Ledger
use lp_agent.Prelude.{
  ℕ, ◌+◌, ◌-◌, String, Bool, true, false, not, ◌&&◌, ◌||◌, Option, none, some, List, [], ◌∷◌, ltb,
  ◌===◌, if◌then◌else◌,
}
use lp_agent.Prelude.Int.{ℤ, pos, sub_ℕ}
use lp_agent.Treasury.Db.{
  TreasuryUser, CreditRate, AddressBalance, DepositRecord, Db, Result, ok, throw, Exec, pure, raise,
  ◌>>=◌, ◌>>◌, modify, gets, fetch_failed,
}
use lp_agent.Treasury.Credits.{credits_for_amount}
use lp_agent.Treasury.Store.{
  get_address_balance, update_balance, upsert_balance, upsert_address_balance, get_credit_rate,
  record_deposit_tx, list_users,
}

abbrev pub balance_confirm_polls : ℕ
balance_confirm_polls = 2

pub record CoinBalance : Type 0 where
  pub coin_type : String
  pub total_balance : ℕ
  pub deposit_id : String

-- The debounce's view of a row: the confirmed baseline and the observation in flight.
pub record BalanceCacheState : Type 0 where
  pub confirmed : ℕ
  pub pending_balance : Option ℕ
  pub pending_count : ℕ

unfoldable pub read_balance_cache : String → String → Db → Option BalanceCacheState
read_balance_cache a c db = elim (get_address_balance a c db.balances) [
  | none ↦ none
  | some row ↦ some (record {
    confirmed = row.last_seen_balance;
    pending_balance = row.pending_balance;
    pending_count = row.pending_count;
  })
]

unfoldable pub write_pending_observation : String → String → ℕ → ℕ → ℕ → ℕ → Db → Db
write_pending_observation a c baseline observed count now_ms db = record db {
  balances =
      upsert_balance
        (record {
          deposit_address = a;
          coin_type = c;
          last_seen_balance = baseline;
          last_seen_ms = now_ms;
          pending_balance = some observed;
          pending_count = count;
        })
        (λ row. record row {
          pending_balance = some observed;
          pending_count = count;
          last_seen_ms = now_ms;
        })
        db.balances;
}

unfoldable pub clear_pending_observation : String → String → Db → Db
clear_pending_observation a c db = record db {
  balances =
      update_balance a c (λ row. record row { pending_balance = none; pending_count = 0 })
        db.balances;
}

-- `cache?.confirmed ?? 0n`
abbrev pub confirmed_of : Option BalanceCacheState → ℕ
confirmed_of none = 0
confirmed_of (some s) = s.confirmed

-- `cache && (cache.pendingBalance !== null || cache.pendingCount !== 0)`
abbrev pub has_pending : Option BalanceCacheState → Bool
has_pending none = false
has_pending (some s) = elim s.pending_balance [ none ↦ not (s.pending_count === 0) | some _ ↦ true ]

-- `pendingMatches ? (cache?.pendingCount ?? 0) + 1 : 1`
abbrev pub next_count : Option BalanceCacheState → ℕ → ℕ
next_count none current = 1
next_count (some s) current = elim s.pending_balance [
  | none ↦ 1
  | some p ↦ if p === current then s.pending_count + 1 else 1
]

abbrev pub rate_num_of : Option CreditRate → Option ℕ
rate_num_of none = none
rate_num_of (some r) = some r.rate_num

abbrev pub rate_den_of : Option CreditRate → Option ℕ
rate_den_of none = none
rate_den_of (some r) = some r.rate_den

-- The deposit row of a confirmed inflow.
unfoldable pub deposit_of :
    TreasuryUser → String → String → ℕ → ℕ → ℕ → Option CreditRate → DepositRecord
deposit_of user coin_type id confirmed current now_ms rate = record {
  id = id;
  sui_address = user.sui_address;
  deposit_address = user.deposit_address;
  coin_type = coin_type;
  amount_delta = sub_ℕ current confirmed;
  prev_balance = confirmed;
  new_balance = current;
  credits_granted = credits_for_amount (sub_ℕ current confirmed) rate;
  rate_num = rate_num_of rate;
  rate_den = rate_den_of rate;
  observed_at_ms = now_ms;
}

-- The confirmed inflow: record the deposit, then clear the observation.
unfoldable pub credit_inflow : TreasuryUser → String → String → ℕ → ℕ → ℕ → Exec (ℕ × ℕ)
credit_inflow user coin_type id confirmed current now_ms = do
  rate ← gets (get_credit_rate coin_type)
  let d = deposit_of user coin_type id confirmed current now_ms rate
  record_deposit_tx d
  modify (clear_pending_observation user.deposit_address coin_type)
  pure (1, d.credits_granted)

-- One coin of `tickOneUser`, its type in canonical form; the result is the number of new deposits
-- and the credits granted.
unfoldable pub tick_coin : TreasuryUser → ℕ → String → String → ℕ → Exec (ℕ × ℕ)
tick_coin user now_ms coin_type id current db =
    let a = user.deposit_address in
    let cache = read_balance_cache a coin_type db in
    let confirmed = confirmed_of cache in
    if current === confirmed
    then (ok (0, 0), if has_pending cache then clear_pending_observation a coin_type db else db)
    else if ltb (next_count cache current) balance_confirm_polls
    then (
      ok (0, 0),
      write_pending_observation a coin_type confirmed current (next_count cache current) now_ms db,
    )
    else if ltb current confirmed
    then (
      ok (0, 0),
      clear_pending_observation a coin_type (upsert_address_balance a coin_type current now_ms db),
    )
    else credit_inflow user coin_type id confirmed current now_ms db

pub record WatcherTickStats : Type 0 where
  pub users_scanned : ℕ
  pub new_deposits : ℕ
  pub credits_granted_total : ℕ
  pub errors : ℕ

-- `canonicalType`: the SDK's normal form, or the trimmed text where the SDK throws.
unfoldable pub canonical_type : (String → Option String) → (String → String) → String → String
canonical_type normalize_struct_tag trim t = elim (normalize_struct_tag t) [
  | none ↦ trim t
  | some s ↦ s
]

module _ (canonical : String → String) where
  -- The loop of `tickOneUser` over the balances that the client returned.
  unfoldable pub tick_coins : TreasuryUser → ℕ → List CoinBalance → ℕ × ℕ → Exec (ℕ × ℕ)
  tick_coins user now_ms [] acc = pure acc
  tick_coins user now_ms (b ∷ bs) (n, g) = do
    (n', g') ← tick_coin user now_ms (canonical b.coin_type) b.deposit_id b.total_balance
    tick_coins user now_ms bs (n + n', g + g')

  -- `none` is a client call that rejects.
  unfoldable pub tick_one_user :
      (String → Option (List CoinBalance)) → TreasuryUser → ℕ → Exec (ℕ × ℕ)
  tick_one_user get_all_balances user now_ms = elim (get_all_balances user.deposit_address) [
    | none ↦ raise fetch_failed
    | some balances ↦ tick_coins user now_ms balances (0, 0)
  ]

  -- The `try`/`catch` of `pollOnce`, on the statistics.
  abbrev pub tally : Result (ℕ × ℕ) → WatcherTickStats → WatcherTickStats
  tally (ok (n, g)) s = record {
    users_scanned = s.users_scanned + 1;
    new_deposits = s.new_deposits + n;
    credits_granted_total = s.credits_granted_total + g;
    errors = s.errors;
  }
  tally (throw e) s = record s { users_scanned = s.users_scanned + 1; errors = s.errors + 1 }

  unfoldable pub poll_users :
      (String → Option (List CoinBalance))
      → List TreasuryUser
      → ℕ
      → WatcherTickStats
      → Db
      → WatcherTickStats × Db
  poll_users get_all_balances [] now_ms stats db = (stats, db)
  poll_users get_all_balances (u ∷ us) now_ms stats db =
      let (r, db') = tick_one_user get_all_balances u now_ms db in
      poll_users get_all_balances us now_ms (tally r stats) db'

  unfoldable pub poll_once : (String → Option (List CoinBalance)) → ℕ → Db → WatcherTickStats × Db
  poll_once get_all_balances now_ms db =
      poll_users get_all_balances (list_users db) now_ms
        (record { users_scanned = 0; new_deposits = 0; credits_granted_total = 0; errors = 0 }) db
