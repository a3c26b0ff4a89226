-- ===== src/Treasury/Store/Charging.antt =====
-- Charges of src/treasury/store.ts over time: what one moves, what a retry does, and what a refund
-- gives back.
use lp_agent.Prelude.{
  ℕ, ◌+◌, ◌≤◌, ◌<◌, String, ◌≡◌, refl, ◌∙◌, Bool, true, false, some, none, ◌∷◌, ◌==◌, eq_refl,
  if◌then◌else◌, arith, ltb, ltb→lt, inl, inr, Bool-cases, ◌⊎◌,
}
use lp_agent.Table.{select}
use lp_agent.Table.Laws.{select-update_self}
use lp_agent.Treasury.Db.{TreasuryUser, ServiceCharge, Db, Result, ok}
use lp_agent.Treasury.Store.{
  user_key, charge_key, row_of, ChargeRequest, valid_cost, attempt_charge_tx, refund_charge_tx,
  set_refunded, add_credits,
}
use lp_agent.Treasury.Store.Outcomes.{
  debit, paid_charge, rejected_charge, after_paid, after_short, after_refund, attempt_paid,
  attempt_short, attempt_again, refund_paid, refund_other,
}
use lp_agent.Treasury.Store.Ledger.{credits_of, credits_of-select, credits_of-debit, credits_of-add}

module _ (q : ChargeRequest) (cost now_ms : ℕ) (db : Db) {u : TreasuryUser}
    (new : select charge_key q.nonce db.charges ≡ none)
    (known : select user_key q.sui_address db.users ≡ some u)
    (valid : valid_cost q.cost ≡ some cost) where
  abbrev first : Result ServiceCharge × Db
  first = attempt_charge_tx q now_ms db

  -- A new charge by a registered user. Either the balance covers the cost, a paid charge is the one
  -- row added to the charges, the payer's balance falls by exactly the cost and nobody else's moves;
  -- or it does not, a rejected charge is the one row added and no user's row changes.
  pub charge_moves_cost :
      (a : String)
      → ((cost ≤ u.credits)
          × (first.0 ≡ ok (paid_charge q cost now_ms))
          × (first.1.charges ≡ row_of (paid_charge q cost now_ms) ∷ db.charges)
          × (credits_of a first.1.users + (if q.sui_address == a then cost else 0)
              ≡ credits_of a db.users))
        ⊎ ((u.credits < cost)
            × (first.0 ≡ ok (rejected_charge q cost now_ms))
            × (first.1.charges ≡ row_of (rejected_charge q cost now_ms) ∷ db.charges)
            × (first.1.users ≡ db.users))
  charge_moves_cost a = elim (Bool-cases (ltb u.credits cost)) [
    | inl h ↦
        let short : u.credits < cost = ltb→lt _ _ h in
        let e : first ≡ (ok (rejected_charge q cost now_ms), after_short q cost now_ms db) =
          attempt_short q cost now_ms db new known valid short in
        inr (short, rw e refl, rw e refl, rw e refl)
    | inr h ↦
        let covered : cost ≤ u.credits = ground arith in
        let e : first ≡ (ok (paid_charge q cost now_ms), after_paid q cost now_ms db) =
          attempt_paid q cost now_ms db new known valid covered in
        inl (
          covered,
          rw e refl,
          rw e refl,
          rw e (
              credits_of-debit a q.sui_address cost db.users (λ e. cc)
                (rw (credits_of-select q.sui_address db.users known) covered)),
        )
  ]

  seen_paid :
      select charge_key q.nonce (after_paid q cost now_ms db).charges
      ≡ some (row_of (paid_charge q cost now_ms))
  unfolding select
  seen_paid = ground (arith, eq_refl q.nonce)

  seen_short :
      select charge_key q.nonce (after_short q cost now_ms db).charges
      ≡ some (row_of (rejected_charge q cost now_ms))
  unfolding select
  seen_short = ground (arith, eq_refl q.nonce)

  -- A charge that a registered user's request has recorded, as paid or as rejected, is not run
  -- again: another request with its nonce, at any later time, by anyone and for any valid cost,
  -- returns the recorded charge and leaves the database as it is.
  pub charge_retry :
      (retry : ChargeRequest) (other_cost later : ℕ)
      → retry.nonce ≡ q.nonce
      → valid_cost retry.cost ≡ some other_cost
      → attempt_charge_tx retry later first.1 ≡ first
  charge_retry retry other_cost later same ok_cost = elim (Bool-cases (ltb u.credits cost)) [
    | inl h ↦ rw (attempt_short q cost now_ms db new known valid (ltb→lt _ _ h)) (
        attempt_again retry other_cost later (after_short q cost now_ms db)
          {row = row_of (rejected_charge q cost now_ms)} ok_cost (rw same seen_short))
    | inr h ↦
        let covered : cost ≤ u.credits = ground arith in
        rw (attempt_paid q cost now_ms db new known valid covered) (
          attempt_again retry other_cost later (after_paid q cost now_ms db)
            {row = row_of (paid_charge q cost now_ms)} ok_cost (rw same seen_paid))
  ]

  module _ (covered : cost ≤ u.credits) (reason : String) where
    abbrev refund : Result Bool × Db
    refund = refund_charge_tx q.nonce reason first.1

    refund_of_paid : refund ≡ (
      ok true,
      after_refund q.nonce reason
          (row_of (paid_charge q cost now_ms))
          (after_paid q cost now_ms db),
    )
    refund_of_paid =
        rw (attempt_paid q cost now_ms db new known valid covered)
          (refund_paid q.nonce reason (after_paid q cost now_ms db) seen_paid refl)

    refund_again : (again : String) → refund_charge_tx q.nonce again refund.1 ≡ (ok false, refund.1)
    refund_again again = rw refund_of_paid (
        refund_other q.nonce again _
          (select-update_self charge_key (set_refunded reason) (λ c. refl) q.nonce _ seen_paid)
          refl)

    -- A paid charge can be refunded once: the refund succeeds and gives every user the balance they
    -- had before the charge; a second refund of the nonce is refused and changes nothing.
    pub refund_undoes_charge :
        (a again : String)
        → (refund.0 ≡ ok true)
          × (credits_of a refund.1.users ≡ credits_of a db.users)
          × (refund_charge_tx q.nonce again refund.1 ≡ (ok false, refund.1))
    refund_undoes_charge a again =
        (rw refund_of_paid refl, rw refund_of_paid (back a), refund_again again)
      where
        back :
            (a : String)
            → credits_of a (add_credits q.sui_address cost (after_paid q cost now_ms db).users)
              ≡ credits_of a db.users
        back a =
            credits_of-add a q.sui_address cost (after_paid q cost now_ms db).users (λ e. ground (
              arith,
              select-update_self user_key (debit cost) (λ v. refl) q.sui_address db.users known,
            ))
            ∙ credits_of-debit a q.sui_address cost db.users (λ e. cc)
                (rw (credits_of-select q.sui_address db.users known) covered)
