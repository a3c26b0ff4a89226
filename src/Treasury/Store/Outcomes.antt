-- ===== src/Treasury/Store/Outcomes.antt =====
-- What `attemptChargeTx` and `refundChargeTx` return and write, case by case.
use lp_agent.Prelude.{ℕ, ◌-◌, ◌≤◌, ◌<◌, ◌≡◌, refl, true, false, some, none, ◌∷◌, arith, String}
use lp_agent.Table.{select, update}
use lp_agent.Table.Laws.{select-update_self}
use lp_agent.Treasury.Db.{
  TreasuryUser, ServiceCharge, ChargeRow, charged, rejected, Db, ok, transaction-ok,
}
use lp_agent.Treasury.Store.{
  user_key, charge_key, row_of, ChargeRequest, debit_credits, insert_charge, record_charge,
  charge_of, charge_body, valid_cost, attempt_charge_tx, is_charged, refund_body, refund_charge_tx,
  add_credits, set_refunded,
}

abbrev pub debit : ℕ → TreasuryUser → TreasuryUser
debit cost w = record w { credits = w.credits - cost }

module _ (q : ChargeRequest) (cost now_ms : ℕ) where
  abbrev pub rejected_charge : ServiceCharge
  rejected_charge = charge_of q now_ms rejected 0 (some "insufficient_credits")

  abbrev pub paid_charge : ServiceCharge
  paid_charge = charge_of q now_ms charged cost none

  -- The database after a charge that the balance does not cover, and after one that it does.
  abbrev pub after_short : Db → Db
  after_short db = record db { charges = row_of rejected_charge ∷ db.charges }

  abbrev pub after_paid : Db → Db
  after_paid db = record db {
    users = update user_key q.sui_address (debit cost) db.users;
    charges = row_of paid_charge ∷ db.charges;
  }

  module _ (db : Db) {u : TreasuryUser} (new : select charge_key q.nonce db.charges ≡ none)
      (known : select user_key q.sui_address db.users ≡ some u) where
    pub charge_short :
        u.credits < cost → charge_body q cost now_ms db ≡ (ok rejected_charge, after_short db)
    unfolding charge_body record_charge insert_charge
    charge_short h = ground arith

    pub charge_paid :
        cost ≤ u.credits → charge_body q cost now_ms db ≡ (ok paid_charge, after_paid db)
    unfolding charge_body record_charge insert_charge debit_credits
    charge_paid h =
        ground
          (arith, select-update_self user_key (debit cost) (λ v. refl) q.sui_address db.users known)

    module _ (valid : valid_cost q.cost ≡ some cost) where
      pub attempt_short :
          u.credits < cost → attempt_charge_tx q now_ms db ≡ (ok rejected_charge, after_short db)
      unfolding attempt_charge_tx
      attempt_short h =
          rw (valid, attempt_charge_tx)
            (transaction-ok (charge_body q cost now_ms) db (charge_short h))

      pub attempt_paid :
          cost ≤ u.credits → attempt_charge_tx q now_ms db ≡ (ok paid_charge, after_paid db)
      unfolding attempt_charge_tx
      attempt_paid h =
          rw (valid, attempt_charge_tx)
            (transaction-ok (charge_body q cost now_ms) db (charge_paid h))

-- A nonce that is in the table.
pub attempt_again :
    (q : ChargeRequest) (cost now_ms : ℕ) (db : Db) {row : ChargeRow}
    → valid_cost q.cost ≡ some cost
    → select charge_key q.nonce db.charges ≡ some row
    → attempt_charge_tx q now_ms db ≡ (ok row.charge, db)
unfolding attempt_charge_tx charge_body
attempt_again q cost now_ms db valid seen =
    rw (valid, attempt_charge_tx) (transaction-ok (charge_body q cost now_ms) db (ground arith))

-- The database after a refund.
abbrev pub after_refund : String → String → ChargeRow → Db → Db
after_refund nonce reason row db = record db {
  users = add_credits row.sui_address row.credits_debited db.users;
  charges = update charge_key nonce (set_refunded reason) db.charges;
}

module _ (nonce reason : String) (db : Db) {row : ChargeRow}
    (seen : select charge_key nonce db.charges ≡ some row) where
  pub refund_paid :
      is_charged row.status ≡ true
      → refund_charge_tx nonce reason db ≡ (ok true, after_refund nonce reason row db)
  unfolding refund_charge_tx refund_body
  refund_paid h = ground arith

  pub refund_other :
      is_charged row.status ≡ false → refund_charge_tx nonce reason db ≡ (ok false, db)
  unfolding refund_charge_tx refund_body
  refund_other h = ground arith
