-- ===== src/Treasury/Store/ServiceCharges.antt =====
-- The service charges of src/treasury/store.ts: lookup, charge and refund.
use lp_agent.Prelude.{
  ℕ, ◌-◌, String, Bool, true, false, Option, none, some, ◌∷◌, ltb, if◌then◌else◌,
}
use lp_agent.Prelude.Int.{ℤ, pos, negsuc}
use lp_agent.Table.{select, update}
use lp_agent.Treasury.Db.{
  TreasuryUser, ServiceCharge, ServiceChargeStatus, charged, rejected, refunded, ChargeRow, Db,
  unique_violation, foreign_key_violation, check_violation, bad_cost, ok, Exec, pure, raise,
  transaction, ◌>>◌,
}
use lp_agent.Treasury.Store.Users.{user_key}
use lp_agent.Treasury.Store.Deposits.{add_credits}

-- PRIMARY KEY (nonce)
abbrev pub charge_key : ChargeRow → String
charge_key c = c.nonce

unfoldable pub find_charge_by_nonce : String → Db → Option ServiceCharge
find_charge_by_nonce nonce db = elim (select charge_key nonce db.charges) [
  | none ↦ none
  | some row ↦ some row.charge
]

-- A JavaScript number, as far as `attemptChargeTx` looks at it: an integer, or one that
-- `Number.isInteger` rejects.
pub data JsNumber : Type 0 where
  integer : ℤ → JsNumber
  not_integer : JsNumber

pub record ChargeRequest : Type 0 where
  pub nonce : String
  pub sui_address : String
  pub pm_id : Option String
  pub cost : JsNumber
  pub memo : Option String

-- UPDATE treasury_users SET credits = credits - ? WHERE sui_address = ?, which CHECK(credits >= 0)
-- refuses where it would go below zero.
unfoldable pub debit_credits : String → ℕ → Exec (Unit {0})
debit_credits a cost db = elim (select user_key a db.users) [
  | none ↦ (ok tt, db)
  | some u ↦ if ltb u.credits cost then raise check_violation db else (
    ok tt,
    record db {
      users =
          update user_key a (λ (v : TreasuryUser). record v { credits = v.credits - cost })
            db.users;
    },
  )
]

-- The row of a charge that no signature came with.
abbrev pub row_of : ServiceCharge → ChargeRow
row_of c = record { charge = c; signature = none; message_b64 = none; verified_at_ms = none }

-- INSERT INTO treasury_service_charges, with its PRIMARY KEY and FOREIGN KEY constraints.
unfoldable pub insert_charge : ServiceCharge → Exec (Unit {0})
insert_charge c db = elim (select charge_key c.nonce db.charges) [
  | some _ ↦ raise unique_violation db
  | none ↦ elim (select user_key c.sui_address db.users) [
    | none ↦ raise foreign_key_violation db
    | some _ ↦ (ok tt, record db { charges = row_of c ∷ db.charges })
  ]
]

abbrev pub charge_of : ChargeRequest → ℕ → ServiceChargeStatus → ℕ → Option String → ServiceCharge
charge_of q now_ms status debited error = record {
  nonce = q.nonce;
  sui_address = q.sui_address;
  pm_id = q.pm_id;
  credits_debited = debited;
  memo = q.memo;
  status = status;
  error = error;
  created_at_ms = now_ms;
}

-- The INSERT of `attemptChargeTx`, and the row that it returns.
unfoldable pub record_charge : ServiceCharge → Exec ServiceCharge
record_charge c = insert_charge c >> pure c

-- The transaction of `attemptChargeTx`, after the cost has been found to be a natural number.
unfoldable pub charge_body : ChargeRequest → ℕ → ℕ → Exec ServiceCharge
charge_body q cost now_ms db = elim (select charge_key q.nonce db.charges) [
  | some existing ↦ (ok existing.charge, db)
  | none ↦ elim (select user_key q.sui_address db.users) [
    | none ↦ (ok (charge_of q now_ms rejected 0 (some "not_registered")), db)
    | some u ↦
        if ltb u.credits cost
        then record_charge (charge_of q now_ms rejected 0 (some "insufficient_credits")) db
        else (debit_credits q.sui_address cost
              >> record_charge (charge_of q now_ms charged cost none))
            db
  ]
]

-- The guard `args.cost < 0 || !Number.isInteger(args.cost)`, as the cost where it passes.
abbrev pub valid_cost : JsNumber → Option ℕ
valid_cost (integer (pos n)) = some n
valid_cost (integer (negsuc n)) = none
valid_cost not_integer = none

unfoldable pub attempt_charge_tx : ChargeRequest → ℕ → Exec ServiceCharge
attempt_charge_tx q now_ms = elim (valid_cost q.cost) [
  | some cost ↦ transaction (charge_body q cost now_ms)
  | none ↦ raise bad_cost
]

-- UPDATE treasury_service_charges SET status = 'refunded', error = ?
abbrev pub set_refunded : String → ChargeRow → ChargeRow
set_refunded reason c = record c {
  charge = record (c.charge) { status = refunded; error = some reason };
}

abbrev pub is_charged : ServiceChargeStatus → Bool
is_charged charged = true
is_charged _ = false

unfoldable pub refund_body : String → String → Exec Bool
refund_body nonce reason db = elim (select charge_key nonce db.charges) [
  | none ↦ (ok false, db)
  | some row ↦
      if is_charged row.status
      then (
        ok true,
        record db {
          users = add_credits row.sui_address row.credits_debited db.users;
          charges = update charge_key nonce (set_refunded reason) db.charges;
        },
      )
      else (ok false, db)
]

unfoldable pub refund_charge_tx : String → String → Exec Bool
refund_charge_tx nonce reason = transaction (refund_body nonce reason)
