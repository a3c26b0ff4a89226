-- ===== src/Treasury/Store/Ledger.antt =====
-- The ledger's invariant: what a user holds and has paid is what the user was granted. It rests on
-- the primary keys, which are part of it.
use lp_agent.Prelude.{
  ℕ, ◌+◌, ◌-◌, ◌≤◌, String, ◌≡◌, refl, ◌≢◌, none, some, List, ◌==◌, eq_iff, arith, if◌then◌else◌,
  All, sum_by, Bool-cases, Option-cases, inl, inr,
}
use lp_agent.Table.{select, update, Unique}
use lp_agent.Table.Laws.{select-update_self, select-update_ne, update-Unique, select-none-update}
use lp_agent.Treasury.Db.{
  CreditRate, AddressBalance, ChargeNonce, TreasuryUser, DepositRecord, ChargeRow, charged, Db,
}
use lp_agent.Treasury.Store.{user_key, deposit_key, charge_key, add_credits}

unfoldable pub credits_of : String → List TreasuryUser → ℕ
credits_of a users = elim (select user_key a users) [ none ↦ 0 | some u ↦ u.credits ]

-- The credits that a deposit gave to `a`.
abbrev pub granted_to : String → DepositRecord → ℕ
granted_to a d = if d.sui_address == a then d.credits_granted else 0

-- The credits that a charge took from `a` and has not given back.
abbrev pub debited_from : String → ChargeRow → ℕ
debited_from a c =
    if c.sui_address == a then elim c.status [ charged ↦ c.credits_debited | _ ↦ 0 ] else 0

abbrev pub granted : String → Db → ℕ
granted a db = sum_by (granted_to a) db.deposits

abbrev pub debited : String → Db → ℕ
debited a db = sum_by (debited_from a) db.charges

abbrev pub counted_for : String → DepositRecord → ℕ
counted_for a d = if d.sui_address == a then 1 else 0

abbrev pub deposit_count : String → Db → ℕ
deposit_count a db = sum_by (counted_for a) db.deposits

-- A deposit of a coin without a rate grants nothing yet.
abbrev pub IsUnratedZero : DepositRecord → Type 0
IsUnratedZero d = d.rate_num ≡ none → d.credits_granted ≡ 0

pub record IsLedger (db : Db) : Type 0 where
  pub users_unique : Unique user_key db.users
  pub charges_unique : Unique charge_key db.charges
  pub deposits_unique : Unique deposit_key db.deposits
  pub unrated : All IsUnratedZero db.deposits
  -- FOREIGN KEY (sui_address)
  pub strangers :
      (a : String)
      → select user_key a db.users ≡ none
      → (debited a db ≡ 0) × (deposit_count a db ≡ 0)
  pub balanced : (a : String) → credits_of a db.users + debited a db ≡ granted a db

pub credits_of-select :
    (a : String) (users : List TreasuryUser) {u : TreasuryUser}
    → select user_key a users ≡ some u
    → credits_of a users ≡ u.credits
unfolding credits_of
credits_of-select a users h = ground arith

-- An UPDATE of one user's credits, seen by every address.
pub credits_of-update :
    (a b : String) (f : TreasuryUser → TreasuryUser) (users : List TreasuryUser) {u : TreasuryUser}
    → ((v : TreasuryUser) → (f v).sui_address ≡ v.sui_address)
    → select user_key b users ≡ some u
    → credits_of a (update user_key b f users)
      ≡ (if b == a then (f u).credits else credits_of a users)
unfolding credits_of
credits_of-update a b f users {u} keeps h = elim (Bool-cases (b == a)) [
  | inl same ↦ ground (arith, eq_iff b a, select-update_self user_key f keeps b users {x = u})
  | inr other ↦ ground (arith, eq_iff b a, select-update_ne user_key f keeps b a users)
]

pub credits_of-add :
    (a b : String) (g : ℕ) (users : List TreasuryUser)
    → select user_key b users ≢ none
    → credits_of a (add_credits b g users) ≡ credits_of a users + (if b == a then g else 0)
unfolding add_credits
credits_of-add a b g users known = elim (Option-cases (select user_key b users)) [
  | inl e ↦ absurd (known e)
  | inr (u, e) ↦ ground (
    arith,
    eq_iff b a,
    credits_of-select b users e,
    credits_of-update a b (λ v. record v { credits = v.credits + g }) users (λ v. refl) e,
  )
]

-- A debit that the balance covers.
pub credits_of-debit :
    (a b : String) (cost : ℕ) (users : List TreasuryUser)
    → select user_key b users ≢ none
    → cost ≤ credits_of b users
    → credits_of a
          (update user_key b (λ (v : TreasuryUser). record v { credits = v.credits - cost }) users)
        + (if b == a then cost else 0)
      ≡ credits_of a users
credits_of-debit a b cost users known covered = elim (Option-cases (select user_key b users)) [
  | inl e ↦ absurd (known e)
  | inr (u, e) ↦ ground (
    arith,
    eq_iff b a,
    credits_of-select b users e,
    credits_of-update a b (λ v. record v { credits = v.credits - cost }) users (λ v. refl) e,
  )
]

pub add_credits-Unique :
    (b : String) (g : ℕ) (users : List TreasuryUser)
    → Unique user_key users
    → Unique user_key (add_credits b g users)
unfolding add_credits
add_credits-Unique b g users u = update-Unique user_key _ (λ v. refl) b users u

pub stranger_of-update :
    (a b : String) (f : TreasuryUser → TreasuryUser) (users : List TreasuryUser)
    → ((v : TreasuryUser) → (f v).sui_address ≡ v.sui_address)
    → select user_key a (update user_key b f users) ≡ none
    → select user_key a users ≡ none
stranger_of-update a b f users keeps h = select-none-update user_key f keeps b a users h

pub stranger_of-add :
    (a b : String) (g : ℕ) (users : List TreasuryUser)
    → select user_key a (add_credits b g users) ≡ none
    → select user_key a users ≡ none
unfolding add_credits
stranger_of-add a b g users h = stranger_of-update a b _ users (λ v. refl) h

-- Rates, cached balances and nonces are no part of the ledger.
pub IsLedger-other_tables :
    (db : Db) (rs : List CreditRate) (bs : List AddressBalance) (ns : List ChargeNonce)
    → IsLedger db
    → IsLedger (record db { rates = rs; balances = bs; nonces = ns })
IsLedger-other_tables db rs bs ns v = record {
  users_unique = v.users_unique;
  charges_unique = v.charges_unique;
  deposits_unique = v.deposits_unique;
  unrated = v.unrated;
  strangers = v.strangers;
  balanced = v.balanced;
}
