-- ===== src/Treasury/Watcher/Debounce.antt =====
-- The debounce of `tickOneUser` against its specification: a change of balance is acted on when
-- the same new value is seen twice in a row, and otherwise leaves no trace but the observation.
use lp_agent.Prelude.{
  ◌≢◌, ◌⊎◌, inl, inr, Option-cases, ℕ, String, ◌≡◌, refl, Option, none, some, List, [], ◌∷◌, arith,
  ◌===◌, eq_iff, if◌then◌else◌,
}
use lp_agent.Table.{select}
use lp_agent.Treasury.Db.{Error, throw, Result, TreasuryUser, AddressBalance, DepositRecord, Db, ok}
use lp_agent.Treasury.Store.{
  user_key, deposit_key, get_address_balance, update_balance, upsert_balance,
  upsert_address_balance, record_deposit_tx, deposit_body, insert_deposit, get_credit_rate,
}
use lp_agent.Treasury.Watcher.{
  BalanceCacheState, read_balance_cache, write_pending_observation, clear_pending_observation,
  confirmed_of, next_count, deposit_of, credit_inflow, tick_coin,
}

-- SELECT after the balance table's writes.
module _ (a c : String) (f : AddressBalance → AddressBalance)
    (keeps_a : (b : AddressBalance) → (f b).deposit_address ≡ b.deposit_address)
    (keeps_c : (b : AddressBalance) → (f b).coin_type ≡ b.coin_type) where
  get-update_balance :
      (bs : List AddressBalance)
      → get_address_balance a c (update_balance a c f bs)
        ≡ elim (get_address_balance a c bs) [ none ↦ none | some b ↦ some (f b) ]
  unfolding get_address_balance update_balance
  get-update_balance [] = refl
  get-update_balance (b ∷ bs) = ground (arith, keeps_a b, keeps_c b, get-update_balance bs)

  get-upsert_balance :
      (n ms : ℕ) (p : Option ℕ) (k : ℕ) (bs : List AddressBalance)
      → let row : AddressBalance = record {
        deposit_address = a;
        coin_type = c;
        last_seen_balance = n;
        last_seen_ms = ms;
        pending_balance = p;
        pending_count = k;
      } in
        get_address_balance a c (upsert_balance row f bs)
        ≡ elim (get_address_balance a c bs) [ none ↦ some row | some b ↦ some (f b) ]
  unfolding upsert_balance get_address_balance
  get-upsert_balance n ms p k bs = ground (arith, get-update_balance bs, eq_iff a a, eq_iff c c)

-- The state of the specification: the balance that credits were booked against, and a new value
-- that has been seen once.
pub record Debounce : Type 0 where
  pub baseline : ℕ
  pub seen : Option ℕ

unfoldable pub abstract_cache : Option BalanceCacheState → Debounce
abstract_cache none = record { baseline = 0; seen = none }
abstract_cache (some s) = record { baseline = s.confirmed; seen = s.pending_balance }

-- One observation of the value `v`.
unfoldable pub observe : Debounce → ℕ → Debounce
observe d v = if v === d.baseline then record { baseline = v; seen = none } else elim d.seen [
  | none ↦ record d { seen = some v }
  | some w ↦ if w === v then record { baseline = v; seen = none } else record d { seen = some v }
]

-- The counter says whether a value is in flight.
abbrev pub IsCounted : Option BalanceCacheState → Type 0
IsCounted none = Unit
IsCounted (some s) = s.pending_count ≡ elim s.pending_balance [ none ↦ 0 | some _ ↦ 1 ]

module _ (a c : String) (db : Db) where
  abbrev cache : Option BalanceCacheState
  cache = read_balance_cache a c db

  read-clear : read_balance_cache a c (clear_pending_observation a c db) ≡ elim cache [
    | none ↦ none
    | some s ↦ some (record { confirmed = s.confirmed; pending_balance = none; pending_count = 0 })
  ]
  unfolding read_balance_cache clear_pending_observation
  read-clear = ground (
    arith,
    get-update_balance a c (λ row. record row { pending_balance = none; pending_count = 0 })
        (λ b. refl) (λ b. refl) db.balances,
  )

  read-write :
      (old new k ms : ℕ)
      → read_balance_cache a c (write_pending_observation a c old new k ms db)
        ≡ some (record {
          confirmed = elim cache [ none ↦ old | some s ↦ s.confirmed ];
          pending_balance = some new;
          pending_count = k;
        })
  unfolding read_balance_cache write_pending_observation
  read-write old new k ms = ground (
    arith,
    get-upsert_balance a c
        (λ row. record row { pending_balance = some new; pending_count = k; last_seen_ms = ms })
        (λ b. refl) (λ b. refl) old ms (some new) k db.balances,
  )

  read-move :
      (new ms : ℕ)
      → read_balance_cache a c (upsert_address_balance a c new ms db)
        ≡ some (elim cache [
          | none ↦ record { confirmed = new; pending_balance = none; pending_count = 0 }
          | some s ↦ record s { confirmed = new }
        ])
  unfolding read_balance_cache upsert_address_balance
  read-move new ms = ground (
    arith,
    get-upsert_balance a c (λ row. record row { last_seen_balance = new; last_seen_ms = ms })
        (λ b. refl) (λ b. refl) new ms none 0 db.balances,
  )

read_of_balances :
    (a c : String) (db db' : Db)
    → db.balances ≡ db'.balances
    → read_balance_cache a c db ≡ read_balance_cache a c db'
unfolding read_balance_cache
read_of_balances a c db db' e = ground arith

-- A recorded deposit moves the baseline to the new balance.
balances-record_deposit_tx :
    (d : DepositRecord) (db : Db)
    → (record_deposit_tx d db).0 ≡ ok tt
    → (record_deposit_tx d db).1.balances
      ≡ (upsert_address_balance d.deposit_address d.coin_type d.new_balance d.observed_at_ms
          db).balances
unfolding record_deposit_tx deposit_body insert_deposit upsert_address_balance
balances-record_deposit_tx d db done = ground arith

Result-cases : {A : Type 0} (r : Result A) → ((a : A) × (r ≡ ok a)) ⊎ ((e : Error) × (r ≡ throw e))
Result-cases (ok a) = inl (a, refl)
Result-cases (throw e) = inr (e, refl)

module _ (user : TreasuryUser) (now_ms : ℕ) (c id : String) (v : ℕ) (db : Db) where
  abbrev row : Option BalanceCacheState
  row = read_balance_cache user.deposit_address c db

  abbrev after : Db
  after = (tick_coin user now_ms c id v db).1

  read-credit_inflow :
      (old : ℕ) (r : ℕ × ℕ)
      → (credit_inflow user c id old v now_ms db).0 ≡ ok r
      → read_balance_cache user.deposit_address c (credit_inflow user c id old v now_ms db).1
        ≡ some (record { confirmed = v; pending_balance = none; pending_count = 0 })
  unfolding credit_inflow deposit_of
  read-credit_inflow old r done =
      let d = deposit_of user c id old v now_ms (get_credit_rate c db) in
      let db1 = (record_deposit_tx d db).1 in
      ground (
        arith,
        balances-record_deposit_tx d db,
        read_of_balances user.deposit_address c db1
            (upsert_address_balance user.deposit_address c v now_ms db),
        read-clear user.deposit_address c db1,
        read-move user.deposit_address c db v now_ms,
      )

  observed_step :
      (r : ℕ × ℕ)
      → IsCounted row
      → (tick_coin user now_ms c id v db).0 ≡ ok r
      → (abstract_cache (read_balance_cache user.deposit_address c after)
          ≡ observe (abstract_cache row) v)
        × IsCounted (read_balance_cache user.deposit_address c after)
  unfolding tick_coin abstract_cache observe
  observed_step r counted done = ground (
    arith,
    read-clear user.deposit_address c db,
    read-write user.deposit_address c db (confirmed_of row) v (next_count row v) now_ms,
    read-move user.deposit_address c db v now_ms,
    read-clear user.deposit_address c (upsert_address_balance user.deposit_address c v now_ms db),
    read-credit_inflow (confirmed_of row) r,
  )

  module _ (fresh : select deposit_key id db.deposits ≡ none)
      (known : select user_key user.sui_address db.users ≢ none) where
    deposit_returns :
        (d : DepositRecord)
        → d.id ≡ id
        → d.sui_address ≡ user.sui_address
        → (record_deposit_tx d db).0 ≡ ok tt
    unfolding record_deposit_tx deposit_body insert_deposit
    deposit_returns d e f = elim (Option-cases (select user_key user.sui_address db.users)) [
      | inl none_known ↦ absurd (known none_known)
      | inr (u, h) ↦ ground arith
    ]

    inflow_returns : (old : ℕ) → (r : ℕ × ℕ) × ((credit_inflow user c id old v now_ms db).0 ≡ ok r)
    unfolding credit_inflow deposit_of
    inflow_returns old =
        let d = deposit_of user c id old v now_ms (get_credit_rate c db) in
        ((1, d.credits_granted), ground (arith, deposit_returns d refl refl))

    tick_returns : (r : ℕ × ℕ) × ((tick_coin user now_ms c id v db).0 ≡ ok r)
    unfolding tick_coin
    tick_returns = elim (Result-cases (tick_coin user now_ms c id v db).0) [
      | inl returned ↦ returned
      | inr (e, thrown) ↦ absurd (ground (arith, (inflow_returns (confirmed_of row)).1))
    ]

    -- For a registered user, a deposit id that is not taken, and a counter that tells whether a value
    -- is in flight: one observation of a coin returns, is one step of the specification, and leaves
    -- such a counter.
    pub tick_coin-observe :
        IsCounted row
        → (r : ℕ × ℕ) × ((tick_coin user now_ms c id v db).0 ≡ ok r)
          × (abstract_cache (read_balance_cache user.deposit_address c after)
              ≡ observe (abstract_cache row) v)
          × IsCounted (read_balance_cache user.deposit_address c after)
    tick_coin-observe counted =
        let (r, done) = tick_returns in
        let (step, counted') = observed_step r counted done in (r, done, step, counted')

-- Seen twice in a row, a value is the baseline and nothing is in flight, whatever was there before.
pub observe_twice :
    (d : Debounce) (v : ℕ) → observe (observe d v) v ≡ record { baseline = v; seen = none }
unfolding observe
observe_twice d v = ground arith

-- A value that is seen once and then gone leaves the baseline as it was.
pub observe_glitch :
    (d : Debounce) (v : ℕ)
    → observe (observe (record d { seen = none }) v) d.baseline ≡ record d { seen = none }
unfolding observe
observe_glitch d v = ground arith
