-- ===== src/Treasury/Store/Keeps.antt =====
-- Every transaction of store.ts keeps the ledger's invariant, whether it returns or throws.
use lp_agent.Prelude.{
  ℕ, ◌+◌, ◌≤◌, String, ◌≡◌, refl, true, none, some, List, ◌∷◌, ◌==◌, eq_iff, arith, ltb, ltb→lt,
  if◌then◌else◌, sum_by, Bool-cases, Option-cases, inl, inr,
}
use lp_agent.Table.{select, update}
use lp_agent.Table.Laws.{
  update-select-none, select-update-none, update-Unique, sum_by-update, le-sum_by,
}
use lp_agent.Treasury.Db.{
  TreasuryUser, DepositRecord, ChargeRow, charged, rejected, refunded, Db, ServiceChargeStatus,
  pure, transaction-keeps, bind-keeps,
}
use lp_agent.Treasury.Store.{
  valid_cost, is_charged, user_key, charge_key, add_credits, insert_user, register_user_tx,
  register_body, new_user, deposit_body, refund_body, insert_deposit, record_deposit_tx,
  upsert_address_balance, ChargeRequest, charge_body, attempt_charge_tx, set_refunded,
  refund_charge_tx,
}
use lp_agent.Treasury.Store.Outcomes.{debit, after_short, after_paid, charge_short, charge_paid}
use lp_agent.Treasury.Store.Ledger.{
  credits_of, debited_from, debited, IsUnratedZero, IsLedger, credits_of-select, credits_of-add,
  credits_of-debit, add_credits-Unique, stranger_of-add, stranger_of-update,
}

credits_of-insert :
    (a : String) (u : TreasuryUser) (users : List TreasuryUser)
    → select user_key u.sui_address users ≡ none
    → u.credits ≡ 0
    → credits_of a (u ∷ users) ≡ credits_of a users
unfolding credits_of select
credits_of-insert a u users new zero_credits = ground (arith, eq_iff u.sui_address a)

insert_user-IsLedger :
    (u : TreasuryUser) (db : Db) → u.credits ≡ 0 → IsLedger db → IsLedger (insert_user u db).1
unfolding insert_user select
insert_user-IsLedger u db z v = elim (Option-cases (select user_key u.sui_address db.users)) [
  | inr (w, e) ↦ rw (e, insert_user) v
  | inl e ↦ record {
    users_unique = ground (arith, v.users_unique);
    charges_unique = ground (arith, v.charges_unique);
    deposits_unique = ground (arith, v.deposits_unique);
    unrated = ground (arith, v.unrated);
    strangers = λ a h. ground (arith, eq_iff u.sui_address a, v.strangers a);
    balanced = λ a. ground (arith, v.balanced a, credits_of-insert a u db.users e z);
  }
]

register_body-IsLedger :
    (a : String) (derive : ℕ → String) (now_ms : ℕ) (db : Db)
    → IsLedger db
    → IsLedger (register_body a derive now_ms db).1
unfolding register_body
register_body-IsLedger a derive now_ms db v = elim (Option-cases (select user_key a db.users)) [
  | inr (w, e) ↦ rw (e, register_body) v
  | inl e ↦
      rw (e, register_body)
        (bind-keeps IsLedger (insert_user (new_user a derive now_ms db.users))
          (λ _. pure (new_user a derive now_ms db.users)) db
          (insert_user-IsLedger _ db (unfold new_user in refl) v) (λ _ s h. h))
]

-- A registration, new or repeated, keeps the ledger.
pub register_user_tx-IsLedger :
    (a : String) (derive : ℕ → String) (now_ms : ℕ) (db : Db)
    → IsLedger db
    → IsLedger (register_user_tx a derive now_ms db).1
unfolding register_user_tx
register_user_tx-IsLedger a derive now_ms db v =
    transaction-keeps IsLedger (register_body a derive now_ms) db v
      (register_body-IsLedger a derive now_ms db v)

deposit_body-IsLedger :
    (d : DepositRecord) (db : Db) → IsUnratedZero d → IsLedger db → IsLedger (deposit_body d db).1
unfolding deposit_body insert_deposit upsert_address_balance
deposit_body-IsLedger d db uz v = record {
  users_unique =
      ground (arith, v.users_unique, add_credits-Unique d.sui_address d.credits_granted db.users);
  charges_unique = ground (arith, v.charges_unique);
  deposits_unique = ground (arith, v.deposits_unique);
  unrated = ground (arith, v.unrated);
  strangers = λ a h. ground (
    arith,
    v.strangers a,
    eq_iff d.sui_address a,
    select-update-none user_key
        (λ (u : TreasuryUser). record u { credits = u.credits + d.credits_granted }) (λ v. refl)
        d.sui_address a db.users,
    stranger_of-add a d.sui_address d.credits_granted db.users,
  );
  balanced =
      λ a. ground (arith, v.balanced a, credits_of-add a d.sui_address d.credits_granted db.users);
}

-- A deposit that follows the caller's contract (no credits without a rate) keeps the ledger.
pub record_deposit_tx-IsLedger :
    (d : DepositRecord) (db : Db)
    → IsUnratedZero d
    → IsLedger db
    → IsLedger (record_deposit_tx d db).1
unfolding record_deposit_tx
record_deposit_tx-IsLedger d db uz v =
    transaction-keeps IsLedger (deposit_body d) db v (deposit_body-IsLedger d db uz v)

-- A charge that is paid.
module _ (q : ChargeRequest) (cost now_ms : ℕ) (db : Db) (v : IsLedger db) {u : TreasuryUser}
    (new : select charge_key q.nonce db.charges ≡ none)
    (known : select user_key q.sui_address db.users ≡ some u) where
  short-IsLedger : IsLedger (after_short q cost now_ms db)
  short-IsLedger = record {
    users_unique = v.users_unique;
    charges_unique = (new, v.charges_unique);
    deposits_unique = v.deposits_unique;
    unrated = v.unrated;
    strangers = λ a h. ground (arith, v.strangers a);
    balanced = λ a. ground (arith, v.balanced a);
  }

  paid-IsLedger : cost ≤ u.credits → IsLedger (after_paid q cost now_ms db)
  paid-IsLedger h = record {
    users_unique =
        update-Unique user_key (debit cost) (λ v. refl) q.sui_address db.users v.users_unique;
    charges_unique = (new, v.charges_unique);
    deposits_unique = v.deposits_unique;
    unrated = v.unrated;
    strangers = λ a e.
        let stranger : select user_key a db.users ≡ none =
          stranger_of-update a q.sui_address (debit cost) db.users (λ v. refl) e in
        ground (arith, v.strangers a stranger, eq_iff q.sui_address a);
    balanced = λ a. ground (
      arith,
      v.balanced a,
      credits_of-debit a q.sui_address cost db.users (λ h. cc),
      credits_of-select q.sui_address db.users known,
    );
  }

  charge_known-IsLedger : IsLedger (charge_body q cost now_ms db).1
  charge_known-IsLedger = elim (Bool-cases (ltb u.credits cost)) [
    | inl h ↦ rw (charge_short q cost now_ms db new known (ltb→lt _ _ h)) short-IsLedger
    | inr h ↦
        let covered : cost ≤ u.credits = ground arith in
        rw (charge_paid q cost now_ms db new known covered) (paid-IsLedger covered)
  ]

charge_body-IsLedger :
    (q : ChargeRequest) (cost now_ms : ℕ) (db : Db)
    → IsLedger db
    → IsLedger (charge_body q cost now_ms db).1
unfolding charge_body
charge_body-IsLedger q cost now_ms db v =
    elim (Option-cases (select charge_key q.nonce db.charges)) [
      | inr (row, e) ↦ rw (e, charge_body) v
      | inl new ↦ elim (Option-cases (select user_key q.sui_address db.users)) [
        | inl e ↦ rw (new, e, charge_body) v
        | inr (u, known) ↦ charge_known-IsLedger q cost now_ms db v new known
      ]
    ]

-- A charge, whatever its outcome, keeps the ledger.
pub attempt_charge_tx-IsLedger :
    (q : ChargeRequest) (now_ms : ℕ) (db : Db)
    → IsLedger db
    → IsLedger (attempt_charge_tx q now_ms db).1
unfolding attempt_charge_tx
attempt_charge_tx-IsLedger q now_ms db v = elim (Option-cases (valid_cost q.cost)) [
  | inl e ↦ rw (e, attempt_charge_tx) v
  | inr (cost, e) ↦
      rw (e, attempt_charge_tx)
        (transaction-keeps IsLedger (charge_body q cost now_ms) db v
          (charge_body-IsLedger q cost now_ms db v))
]

status-charged : (s : ServiceChargeStatus) → is_charged s ≡ true → s ≡ charged
status-charged charged h = refl
status-charged rejected h = cc
status-charged refunded h = cc

-- The user of a charge that is still paid for is registered, or the charge cost nothing.
module _ (nonce reason : String) (db : Db) (v : IsLedger db) (row : ChargeRow)
    (found : select charge_key nonce db.charges ≡ some row)
    (paid : is_charged row.status ≡ true) where
  debited-refund :
      (a : String)
      → sum_by (debited_from a) (update charge_key nonce (set_refunded reason) db.charges)
          + (if row.sui_address == a then row.credits_debited else 0)
        ≡ debited a db
  debited-refund a = ground (
    arith,
    status-charged row.status paid,
    sum_by-update charge_key (debited_from a) nonce (set_refunded reason) db.charges
        v.charges_unique found,
  )

  debited_self : row.credits_debited ≤ debited row.sui_address db
  debited_self = ground (
    arith,
    eq_iff row.sui_address row.sui_address,
    status-charged row.status paid,
    le-sum_by charge_key (debited_from row.sui_address) nonce db.charges found,
  )

  credits_of-refund :
      (a : String)
      → credits_of a (add_credits row.sui_address row.credits_debited db.users)
        ≡ credits_of a db.users + (if row.sui_address == a then row.credits_debited else 0)
  unfolding add_credits
  credits_of-refund a = elim (Option-cases (select user_key row.sui_address db.users)) [
    | inr (u, e) ↦ credits_of-add a row.sui_address row.credits_debited db.users (λ h. cc)
    | inl e ↦
        let free : row.credits_debited ≡ 0 =
          omega (arith, debited_self, (v.strangers row.sui_address e).0) in
        ground (
          arith,
          update-select-none user_key row.sui_address
              (λ (w : TreasuryUser). record w { credits = w.credits + row.credits_debited })
              db.users e,
        )
  ]

  refunded-IsLedger : IsLedger (record db {
    users = add_credits row.sui_address row.credits_debited db.users;
    charges = update charge_key nonce (set_refunded reason) db.charges;
  })
  refunded-IsLedger = record {
    users_unique = add_credits-Unique row.sui_address row.credits_debited db.users v.users_unique;
    charges_unique =
        update-Unique charge_key (set_refunded reason) (λ c. refl) nonce db.charges
          v.charges_unique;
    deposits_unique = v.deposits_unique;
    unrated = v.unrated;
    strangers = λ a h. omega (
      arith,
      debited-refund a,
      v.strangers a (stranger_of-add a row.sui_address row.credits_debited db.users h),
    );
    balanced = λ a. omega (arith, v.balanced a, debited-refund a, credits_of-refund a);
  }

refund_body-IsLedger :
    (nonce reason : String) (db : Db) → IsLedger db → IsLedger (refund_body nonce reason db).1
unfolding refund_body
refund_body-IsLedger nonce reason db v = elim (Option-cases (select charge_key nonce db.charges)) [
  | inl e ↦ rw (e, refund_body) v
  | inr (row, e) ↦ elim (Bool-cases (is_charged row.status)) [
    | inr other ↦ rw (e, refund_body, other) v
    | inl paid ↦ rw (e, refund_body, paid) (refunded-IsLedger nonce reason db v row e paid)
  ]
]

pub refund_charge_tx-IsLedger :
    (nonce reason : String) (db : Db) → IsLedger db → IsLedger (refund_charge_tx nonce reason db).1
unfolding refund_charge_tx
refund_charge_tx-IsLedger nonce reason db v =
    transaction-keeps IsLedger (refund_body nonce reason) db v
      (refund_body-IsLedger nonce reason db v)
