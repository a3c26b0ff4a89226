-- ===== src/Treasury/Store/Deposits.antt =====
-- The credit rates, cached balances and deposits of src/treasury/store.ts.
use lp_agent.Prelude.{
  ℕ, ◌+◌, String, Bool, ◌&&◌, Option, none, some, List, [], ◌∷◌, ◌==◌, ltb, if◌then◌else◌,
}
use lp_agent.Prelude.Int.{ℤ, pos, leb_ℤ, ltb_ℤ, pos_part}
use lp_agent.Table.{select, update}
use lp_agent.Treasury.Db.{
  TreasuryUser, CreditRate, AddressBalance, DepositRecord, Db, unique_violation,
  foreign_key_violation, bad_rate_den, bad_rate_num, ok, Exec, raise, transaction, ◌>>◌, raise_if,
  modify,
}
use lp_agent.Treasury.Store.Users.{user_key}

-- The primary keys.
abbrev pub rate_key : CreditRate → String
rate_key r = r.coin_type

abbrev pub deposit_key : DepositRecord → String
deposit_key d = d.id

unfoldable pub get_credit_rate : String → Db → Option CreditRate
get_credit_rate coin_type db = select rate_key coin_type db.rates

put_rate : CreditRate → List CreditRate → List CreditRate
put_rate r rates = elim (select rate_key r.coin_type rates) [
  | none ↦ r ∷ rates
  | some _ ↦ update rate_key r.coin_type (λ _. r) rates
]

unfoldable pub upsert_credit_rate : String → ℤ → ℤ → Option String → ℕ → Exec (Unit {0})
unfolding put_rate
upsert_credit_rate coin_type rate_num rate_den updated_by now_ms = do
  raise_if (leb_ℤ rate_den (pos 0)) bad_rate_den
  raise_if (ltb_ℤ rate_num (pos 0)) bad_rate_num
  let r : CreditRate = record {
    coin_type = coin_type;
    rate_num = pos_part rate_num;
    rate_den = pos_part rate_den;
    updated_at_ms = now_ms;
    updated_by = updated_by;
  }
  modify (λ db. record db { rates = put_rate r db.rates })

-- ---- address balances, keyed by (deposit_address, coin_type)

abbrev pub at_balance : String → String → AddressBalance → Bool
at_balance a c b = (b.deposit_address == a) && (b.coin_type == c)

unfoldable pub get_address_balance : String → String → List AddressBalance → Option AddressBalance
get_address_balance a c [] = none
get_address_balance a c (b ∷ bs) = if at_balance a c b then some b else get_address_balance a c bs

unfoldable pub update_balance :
    String → String → (AddressBalance → AddressBalance) → List AddressBalance → List AddressBalance
update_balance a c f [] = []
update_balance a c f (b ∷ bs) = (if at_balance a c b then f b else b) ∷ update_balance a c f bs

-- INSERT … ON CONFLICT(deposit_address, coin_type) DO UPDATE SET f
unfoldable pub upsert_balance :
    AddressBalance → (AddressBalance → AddressBalance) → List AddressBalance → List AddressBalance
upsert_balance row f bs = elim (get_address_balance row.deposit_address row.coin_type bs) [
  | none ↦ row ∷ bs
  | some _ ↦ update_balance row.deposit_address row.coin_type f bs
]

-- `upsertAddressBalance`: the baseline moves, and the pending columns stay as they are.
unfoldable pub upsert_address_balance : String → String → ℕ → ℕ → Db → Db
upsert_address_balance a c balance now_ms db = record db {
  balances =
      upsert_balance
        (record {
          deposit_address = a;
          coin_type = c;
          last_seen_balance = balance;
          last_seen_ms = now_ms;
          pending_balance = none;
          pending_count = 0;
        })
        (λ b. record b { last_seen_balance = balance; last_seen_ms = now_ms }) db.balances;
}

-- ---- deposits

-- UPDATE treasury_users SET credits = credits + ? WHERE sui_address = ?
unfoldable pub add_credits : String → ℕ → List TreasuryUser → List TreasuryUser
add_credits a granted =
    update user_key a (λ (u : TreasuryUser). record u { credits = u.credits + granted })

-- INSERT INTO treasury_deposits, with its PRIMARY KEY and FOREIGN KEY constraints.
unfoldable pub insert_deposit : DepositRecord → Exec (Unit {0})
insert_deposit d db = elim (select deposit_key d.id db.deposits) [
  | some _ ↦ raise unique_violation db
  | none ↦ elim (select user_key d.sui_address db.users) [
    | none ↦ raise foreign_key_violation db
    | some _ ↦ (ok tt, record db { deposits = d ∷ db.deposits })
  ]
]

unfoldable pub deposit_body : DepositRecord → Exec (Unit {0})
deposit_body d = do
  insert_deposit d
  modify λ db.
      if ltb 0 d.credits_granted
      then record db { users = add_credits d.sui_address d.credits_granted db.users }
      else db
  modify (upsert_address_balance d.deposit_address d.coin_type d.new_balance d.observed_at_ms)

unfoldable pub record_deposit_tx : DepositRecord → Exec (Unit {0})
record_deposit_tx d = transaction (deposit_body d)
