-- ===== src/Treasury/Charges/Replay.antt =====
-- What chargeForServiceWithSignature of src/treasury/charges.ts answers when a request that was
-- rejected is sent again.
use lp_agent.Prelude.{
  ℕ, ◌<◌, ◌≡◌, refl, true, false, ◌||◌, none, some, ◌∷◌, ◌==◌, eq_refl, arith, ◌∙◌,
}
use lp_agent.Prelude.Int.{pos}
use lp_agent.Table.{select, update}
use lp_agent.Table.Laws.{select-update_self}
use lp_agent.Treasury.Db.{
  TreasuryUser, ServiceCharge, ChargeRow, accepted, ChargeNonce, Db, ok, transaction-ok,
}
use lp_agent.Treasury.Store.{user_key, charge_key, is_charged, find_user_by_sui_address}
use lp_agent.Treasury.Store.Outcomes.{rejected_charge, after_short, attempt_short, attempt_again}
use lp_agent.Treasury.Charges.{
  Platform, SignedRequest, positive_credits, expected_message, find_nonce, update_nonce, replayed,
  request_of, accept_charge, accept_body, result_of, charge_verified, new_nonce, with_nonce,
  charge_message, charge_for_service_with_signature, sign_row, remaining,
}

-- The tests on the request pass.
pub record IsWellFormed (platform : Platform) (q : SignedRequest) (cost : ℕ) : Type 0 where
  pub positive : positive_credits q.credits ≡ some cost
  pub named : (q.nonce == "") || (platform.trim q.nonce == "") ≡ false
  pub message :
      (platform.decode_base64 q.message_b64 == expected_message platform q.sui_address cost q.nonce)
      ≡ true
  pub signed :
      platform.verify (platform.decode_base64 q.message_b64) q.signature ≡ some q.sui_address

module _ (platform : Platform) (q : SignedRequest) (cost : ℕ)
    (v : IsWellFormed platform q cost) where
  handler_passes :
      (now_ms : ℕ) (db : Db)
      → charge_for_service_with_signature platform q now_ms db
        ≡ charge_message platform q cost (platform.decode_base64 q.message_b64) now_ms db
  unfolding charge_for_service_with_signature
  handler_passes now_ms db =
      rw (v.positive, v.named, v.message, charge_for_service_with_signature) refl

  module _ (now_ms : ℕ) (db : Db) {u : TreasuryUser}
      (unused : find_nonce q.sui_address q.nonce db.nonces ≡ none)
      (new : select charge_key q.nonce db.charges ≡ none)
      (known : select user_key q.sui_address db.users ≡ some u) (short : u.credits < cost) where
    abbrev row : ServiceCharge
    row = rejected_charge (request_of q cost) cost now_ms

    abbrev after : Db
    after = record (after_short (request_of q cost) cost now_ms (with_nonce q now_ms db)) {
      nonces =
          (record (new_nonce q now_ms) { status = accepted })
          ∷ update_nonce q.sui_address q.nonce (λ (x : ChargeNonce). record x { status = accepted })
              db.nonces;
    }

    accepted_nonce : accept_body q cost now_ms (with_nonce q now_ms db) ≡ (ok row, after)
    unfolding accept_body accept_charge update_nonce
    accepted_nonce = ground (
      arith,
      eq_refl q.sui_address,
      eq_refl q.nonce,
      attempt_short (request_of q cost) cost now_ms (with_nonce q now_ms db) new known refl short,
    )

    first_answer :
        charge_message platform q cost (platform.decode_base64 q.message_b64) now_ms db ≡ (
          ok (record {
            ok = false;
            charge_nonce = q.nonce;
            remaining_credits = pos u.credits;
            error = some "insufficient_credits";
          }),
          after,
        )
    unfolding charge_message charge_verified result_of find_user_by_sui_address
    first_answer = ground (
      arith,
      v.signed,
      eq_refl q.sui_address,
      transaction-ok (accept_body q cost now_ms) (with_nonce q now_ms db) accepted_nonce,
    )

    second_answer :
        (later : ℕ)
        → charge_message platform q cost (platform.decode_base64 q.message_b64) later after ≡ (
          ok (record {
            ok = true;
            charge_nonce = q.nonce;
            remaining_credits = pos u.credits;
            error = none;
          }),
          after,
        )
    unfolding charge_message replayed find_nonce find_user_by_sui_address
    second_answer later = ground (arith, eq_refl q.sui_address, eq_refl q.nonce)

    -- A well-formed and properly signed request of a registered user whose credits do not cover the
    -- cost, with a nonce that is new in both tables, is answered with ok = false and moves no
    -- credits; sent again, at any later time, it is answered with ok = true, though it still moves
    -- no credits and changes nothing.
    pub rejected_then_ok :
        (later : ℕ)
        → let first = charge_for_service_with_signature platform q now_ms db in
          let second = charge_for_service_with_signature platform q later first.1 in
          (first.0
            ≡ ok (record {
              ok = false;
              charge_nonce = q.nonce;
              remaining_credits = pos u.credits;
              error = some "insufficient_credits";
            }))
          × (second.0
              ≡ ok (record {
                ok = true;
                charge_nonce = q.nonce;
                remaining_credits = pos u.credits;
                error = none;
              }))
          × (first.1.users ≡ db.users)
          × (second.1 ≡ first.1)
    rejected_then_ok later =
        let e = handler_passes now_ms db ∙ first_answer in
        let f = handler_passes later after ∙ second_answer later in
        (rw e refl, rw (e, f) refl, rw e refl, rw (e, f) refl)

  module _ (now_ms : ℕ) (db : Db) {taken : ChargeRow}
      (unused : find_nonce q.sui_address q.nonce db.nonces ≡ none)
      (found : select charge_key q.nonce db.charges ≡ some taken)
      (paid : is_charged taken.status ≡ true) where
    abbrev signed_over : Db
    signed_over = record db {
      charges = update charge_key q.nonce (sign_row q now_ms) db.charges;
      nonces =
          (record (new_nonce q now_ms) { status = accepted })
          ∷ update_nonce q.sui_address q.nonce (λ (x : ChargeNonce). record x { status = accepted })
              db.nonces;
    }

    taken_nonce :
        accept_body q cost now_ms (with_nonce q now_ms db) ≡ (ok taken.charge, signed_over)
    unfolding accept_body accept_charge update_nonce
    taken_nonce = ground (
      arith,
      eq_refl q.sui_address,
      eq_refl q.nonce,
      attempt_again (request_of q cost) cost now_ms (with_nonce q now_ms db) {row = taken} refl
          found,
    )

    taken_answer :
        charge_message platform q cost (platform.decode_base64 q.message_b64) now_ms db ≡ (
          ok (record {
            ok = true;
            charge_nonce = q.nonce;
            remaining_credits = remaining q.sui_address db;
            error = none;
          }),
          signed_over,
        )
    unfolding charge_message charge_verified result_of find_user_by_sui_address
    taken_answer = ground (
      arith,
      v.signed,
      eq_refl q.sui_address,
      transaction-ok (accept_body q cost now_ms) (with_nonce q now_ms db) taken_nonce,
    )

    -- A well-formed and properly signed request whose nonce is new for its user, but under which a
    -- charge has been paid before, by whatever user, is answered with ok = true: no credits move, and
    -- the earlier charge now bears this request's signature.
    pub taken_nonce_is_free :
        let first = charge_for_service_with_signature platform q now_ms db in
        (first.0
          ≡ ok (record {
            ok = true;
            charge_nonce = q.nonce;
            remaining_credits = remaining q.sui_address db;
            error = none;
          }))
        × (first.1.users ≡ db.users)
        × (select charge_key q.nonce first.1.charges ≡ some (sign_row q now_ms taken))
    taken_nonce_is_free =
        let e = handler_passes now_ms db ∙ taken_answer in
        (
          rw e refl,
          rw e refl,
          rw e (
              select-update_self charge_key (sign_row q now_ms) (λ c. refl) q.nonce db.charges
                found),
        )
