-- ===== src/Treasury/Db.antt =====
-- The rows of the `treasury_*` tables (src/treasury/types.ts, and src/db/schema.sql for the columns
-- that only SQL statements name), and the statements' effects: a call returns or throws, and the
-- database comes back in both cases, since what a statement wrote before a throw stays written
-- unless a transaction rolls it back.
use lp_agent.Prelude.{ℕ, String, ◌≡◌, ap, Bool, Option, List, if◌then◌else◌}
use lp_agent.Prelude.Int.{ℤ}

pub record TreasuryUser : Type 0 where
  pub sui_address : String
  pub derivation_index : ℕ
  pub deposit_address : String
  pub credits : ℕ
  pub created_at_ms : ℕ

-- `upsert_credit_rate`, the only writer, refuses negative numbers, so the stored ones are naturals.
pub record CreditRate : Type 0 where
  pub coin_type : String
  pub rate_num : ℕ
  pub rate_den : ℕ
  pub updated_at_ms : ℕ
  pub updated_by : Option String

-- A row of `treasury_address_balances`, with the columns that track an unconfirmed observation.
pub record AddressBalance : Type 0 where
  pub deposit_address : String
  pub coin_type : String
  pub last_seen_balance : ℕ
  pub last_seen_ms : ℕ
  pub pending_balance : Option ℕ
  pub pending_count : ℕ

pub record DepositRecord : Type 0 where
  pub id : String
  pub sui_address : String
  pub deposit_address : String
  pub coin_type : String
  pub amount_delta : ℤ
  pub prev_balance : ℕ
  pub new_balance : ℕ
  pub credits_granted : ℕ
  pub rate_num : Option ℕ
  pub rate_den : Option ℕ
  pub observed_at_ms : ℕ

pub data ServiceChargeStatus : Type 0 where
  charged rejected refunded : ServiceChargeStatus

pub record ServiceCharge : Type 0 where
  pub nonce : String
  pub sui_address : String
  pub pm_id : Option String
  pub credits_debited : ℕ
  pub memo : Option String
  pub status : ServiceChargeStatus
  pub error : Option String
  pub created_at_ms : ℕ

-- A row of `treasury_service_charges`: the charge and the columns of a signed request.
pub record ChargeRow : Type 0 where
  pub charge : ServiceCharge
  pub open charge use *
  pub signature : Option String
  pub message_b64 : Option String
  pub verified_at_ms : Option ℕ

pub data NonceStatus : Type 0 where
  pending accepted denied : NonceStatus

-- A row of `treasury_charge_nonces`.
pub record ChargeNonce : Type 0 where
  pub sui_address : String
  pub nonce : String
  pub status : NonceStatus
  pub error : Option String
  pub created_at_ms : ℕ

pub record Db : Type 0 where
  pub users : List TreasuryUser
  pub rates : List CreditRate
  pub balances : List AddressBalance
  pub deposits : List DepositRecord
  pub charges : List ChargeRow
  pub nonces : List ChargeNonce

pub data Error : Type 0 where
  bad_rate_den bad_rate_num bad_cost : Error
  bad_credits bad_nonce message_mismatch nonce_pending nonce_denied bad_signature : Error
  no_credit_rate invalid_address fetch_failed : Error
  -- SQLite's refusals
  unique_violation foreign_key_violation check_violation : Error

pub data Result (A : Type 0) : Type 0 where
  ok : A → Result A
  throw : Error → Result A

abbrev pub Exec : Type 0 → Type 0
Exec A = Db → Result A × Db

module _ {A : Type 0} where
  abbrev pub pure : A → Exec A
  pure a db = (ok a, db)

  abbrev pub raise : Error → Exec A
  raise e db = (throw e, db)

  -- `db.transaction(() => …)()`: a throw rolls the writes back.
  abbrev pub transaction : Exec A → Exec A
  transaction m db = elim (m db).0 [ ok a ↦ (ok a, (m db).1) | throw e ↦ (throw e, db) ]

infixl 5 ◌>>=◌ ◌>>◌
abbrev pub ◌>>=◌ : {A B : Type 0} → Exec A → (A → Exec B) → Exec B
◌>>=◌ m f db = let (r, db') = m db in elim r [ ok a ↦ f a db' | throw e ↦ raise e db' ]

abbrev pub ◌>>◌ : {A B : Type 0} → Exec A → Exec B → Exec B
m >> k = m >>= λ _. k

abbrev pub raise_if : Bool → Error → Exec (Unit {0})
raise_if c e db = (if c then throw e else ok tt, db)

abbrev pub modify : (Db → Db) → Exec (Unit {0})
modify f db = (ok tt, f db)

abbrev pub gets : {A : Type 0} → (Db → A) → Exec A
gets f db = (ok (f db), db)

-- A transaction keeps what its body keeps, also when it rolls back.
pub transaction-keeps :
    {A : Type 0} (P : Db → Type 0) (m : Exec A) (db : Db)
    → P db
    → P (m db).1
    → P (transaction m db).1
transaction-keeps {A} P m db before after = go (m db).0
  where
    go :
        (r : Result A)
        → P (elim r as (λ _. Result A × Db) [ ok a ↦ (ok a, (m db).1) | throw e ↦ (throw e, db) ]).1
    go (ok a) = after
    go (throw e) = before

-- A bind keeps what both parts keep.
pub bind-keeps :
    {A B : Type 0} (P : Db → Type 0) (m : Exec A) (f : A → Exec B) (db : Db)
    → P (m db).1
    → ((a : A) (s : Db) → P s → P (f a s).1)
    → P ((m >>= f) db).1
bind-keeps {A} {B} P m f db first rest = go (m db).0
  where
    go :
        (r : Result A)
        → P
            (elim r as (λ _. Result B × Db) [
              | ok a ↦ f a (m db).1
              | throw e ↦ (throw e, (m db).1)
            ]).1
    go (ok a) = rest a (m db).1 first
    go (throw e) = first

-- A transaction whose body returns commits.
pub transaction-ok :
    {A : Type 0} (m : Exec A) (db : Db) {a : A} {s : Db}
    → m db ≡ (ok a, s)
    → transaction m db ≡ (ok a, s)
transaction-ok {A} m db {a} {s} h =
    ap
      (λ (r : Result A × Db). elim r.0 as (λ _. Result A × Db) [
        | ok x ↦ (ok x, r.1)
        | throw e ↦ (throw e, db)
      ])
      h
