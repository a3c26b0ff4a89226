-- ===== src/Treasury/Charges/Signed.antt =====
-- Charges with a signature: who is charged, when, and how often.
use lp_agent.Prelude.{
  ℕ, String, ◌≡◌, refl, ◌≢◌, Bool, true, false, ◌||◌, Option, none, some, List, [], ◌∷◌, ◌==◌,
  eq_iff, if◌then◌else◌, arith, ◌⊎◌, inl, inr, Option-cases, Bool-cases, sum_by,
}
use lp_agent.Table.{update}
use lp_agent.Table.Laws.{update-Unique, sum_by-update_same}
use lp_agent.Treasury.Db.{
  ServiceCharge, ChargeNonce, accepted, denied, Db, transaction, transaction-keeps, bind-keeps,
}
use lp_agent.Treasury.Store.{
  charge_key, ChargeRequest, charge_body, record_charge, insert_charge, debit_credits,
  attempt_charge_tx, is_charged,
}
use lp_agent.Treasury.Store.Ledger.{IsLedger, IsLedger-other_tables, debited_from, debited}
use lp_agent.Treasury.Store.Keeps.{attempt_charge_tx-IsLedger}
use lp_agent.Treasury.Charges.{
  Platform, SignedRequest, positive_credits, find_nonce, update_nonce, expected_message, replayed,
  sign_row, request_of, accept_charge, result_of, accept_body, charge_verified, deny, with_nonce,
  charge_message, charge_for_service_with_signature,
}

find_nonce-update_nonce :
    (a n : String) (f : ChargeNonce → ChargeNonce) (xs : List ChargeNonce)
    → ((x : ChargeNonce) → (f x).sui_address ≡ x.sui_address)
    → ((x : ChargeNonce) → (f x).nonce ≡ x.nonce)
    → find_nonce a n (update_nonce a n f xs)
      ≡ elim (find_nonce a n xs) [ none ↦ none | some x ↦ some (f x) ]
unfolding find_nonce update_nonce
find_nonce-update_nonce a n f [] ka kn = refl
find_nonce-update_nonce a n f (x ∷ xs) ka kn =
    ground (arith, ka x, kn x, find_nonce-update_nonce a n f xs ka kn)

nonces-attempt_charge_tx :
    (q : ChargeRequest) (now_ms : ℕ) (db : Db)
    → (attempt_charge_tx q now_ms db).1.nonces ≡ db.nonces
unfolding attempt_charge_tx charge_body record_charge insert_charge debit_credits
nonces-attempt_charge_tx q now_ms db = ground arith

module _ (q : SignedRequest) (now_ms : ℕ) (db : Db) (v : IsLedger db) where
  -- Signature data on a charge is no part of the ledger.
  sign-IsLedger :
      IsLedger (record db { charges = update charge_key q.nonce (sign_row q now_ms) db.charges })
  sign-IsLedger = record {
    users_unique = v.users_unique;
    charges_unique =
        update-Unique charge_key (sign_row q now_ms) (λ c. refl) q.nonce db.charges
          v.charges_unique;
    deposits_unique = v.deposits_unique;
    unrated = v.unrated;
    strangers = λ a h. rw (same a) (v.strangers a h);
    balanced = λ a. rw (same a) (v.balanced a);
  }
    where
      same :
          (a : String)
          → sum_by (debited_from a) (update charge_key q.nonce (sign_row q now_ms) db.charges)
            ≡ debited a db
      same a =
          sum_by-update_same charge_key (debited_from a) q.nonce (sign_row q now_ms) db.charges
            (λ c. refl)

module _ (q : SignedRequest) (now_ms : ℕ) where
  nonce-IsLedger :
      (xs : List ChargeNonce) (db : Db) → IsLedger db → IsLedger (record db { nonces = xs })
  nonce-IsLedger xs db v = IsLedger-other_tables db db.rates db.balances xs v

  accept_charge-IsLedger :
      (row : ServiceCharge) (db : Db) → IsLedger db → IsLedger (accept_charge q now_ms row db).1
  unfolding accept_charge
  accept_charge-IsLedger row db v = nonce-IsLedger _ _ (signed (is_charged row.status))
    where
      signed :
          (b : Bool)
          → IsLedger (
              if b
              then record db { charges = update charge_key q.nonce (sign_row q now_ms) db.charges }
              else db)
      signed true = sign-IsLedger q now_ms db v
      signed false = v

  charge_verified-IsLedger :
      (cost : ℕ) (db : Db) → IsLedger db → IsLedger (charge_verified q cost now_ms db).1
  unfolding charge_verified accept_body result_of
  charge_verified-IsLedger cost db v =
      bind-keeps IsLedger (transaction (accept_body q cost now_ms)) (result_of q) db
        (transaction-keeps IsLedger (accept_body q cost now_ms) db v (
          bind-keeps IsLedger (attempt_charge_tx (request_of q cost) now_ms)
            (accept_charge q now_ms) db (attempt_charge_tx-IsLedger (request_of q cost) now_ms db v)
            (λ row s h. accept_charge-IsLedger row s h)))
        (λ row s h. h)

-- How the database stands after a request: as it was, with a denied nonce, or with a verified
-- charge.
data Ran (platform : Platform) (q : SignedRequest) (now_ms : ℕ) (db after : Db) : Type 0 where
  unchanged : after ≡ db → Ran platform q now_ms db after
  turned_down :
      find_nonce q.sui_address q.nonce db.nonces ≡ none
      → after ≡ (deny q (with_nonce q now_ms db)).1
      → Ran platform q now_ms db after
  verified :
      (cost : ℕ)
      → find_nonce q.sui_address q.nonce db.nonces ≡ none
      → platform.verify (platform.decode_base64 q.message_b64) q.signature ≡ some q.sui_address
      → after ≡ (charge_verified q cost now_ms (with_nonce q now_ms db)).1
      → Ran platform q now_ms db after

module _ (platform : Platform) (q : SignedRequest) (now_ms : ℕ) (db : Db) where
  abbrev found : Option ChargeNonce
  found = find_nonce q.sui_address q.nonce db.nonces

  abbrev message : String
  message = platform.decode_base64 q.message_b64

  abbrev after : Db
  after = (charge_for_service_with_signature platform q now_ms db).1

  replayed_unchanged : (x : ChargeNonce) → (replayed q x db).1 ≡ db
  unfolding replayed
  replayed_unchanged x = ground arith

  charge_message-Ran :
      (cost : ℕ) → Ran platform q now_ms db (charge_message platform q cost message now_ms db).1
  unfolding charge_message
  charge_message-Ran cost = elim (Option-cases found) [
    | inr (x, e) ↦ rw (e, charge_message) (unchanged (replayed_unchanged x))
    | inl new ↦ elim (Option-cases (platform.verify message q.signature)) [
      | inl e ↦ rw (new, e, charge_message) (turned_down new refl)
      | inr (who, e) ↦ elim (Bool-cases (who == q.sui_address)) [
        | inr other ↦ rw (new, e, other, charge_message) (turned_down new refl)
        | inl own ↦
            let signed : platform.verify message q.signature ≡ some q.sui_address =
              ground (arith, eq_iff who q.sui_address) in
            rw (new, e, own, charge_message) (verified cost new signed refl)
      ]
    ]
  ]

  handler-Ran : Ran platform q now_ms db (charge_for_service_with_signature platform q now_ms db).1
  unfolding charge_for_service_with_signature
  handler-Ran = elim (Option-cases (positive_credits q.credits)) [
    | inl e ↦ rw (e, charge_for_service_with_signature) (unchanged refl)
    | inr (cost, e) ↦ elim (Bool-cases ((q.nonce == "") || (platform.trim q.nonce == ""))) [
      | inl blank ↦ rw (e, blank, charge_for_service_with_signature) (unchanged refl)
      | inr fine ↦
          elim (Bool-cases (message == expected_message platform q.sui_address cost q.nonce)) [
            | inr bad ↦ rw (e, fine, bad, charge_for_service_with_signature) (unchanged refl)
            | inl good ↦
                rw (e, fine, good, charge_for_service_with_signature) (charge_message-Ran cost)
          ]
    ]
  ]

  Ran-IsLedger : IsLedger db → (s : Db) → Ran platform q now_ms db s → IsLedger s
  unfolding deny
  Ran-IsLedger v s (unchanged e) = rw e v
  Ran-IsLedger v s (turned_down new e) = rw e (nonce-IsLedger q now_ms _ db v)
  Ran-IsLedger v s (verified cost new signed e) =
      rw e (charge_verified-IsLedger q now_ms cost _ (nonce-IsLedger q now_ms _ db v))

  -- A signed charge keeps the ledger, also where it is refused.
  pub charge_for_service_with_signature-IsLedger : IsLedger db → IsLedger after
  charge_for_service_with_signature-IsLedger v = Ran-IsLedger v after handler-Ran

  Ran-unsigned :
      platform.verify message q.signature ≢ some q.sui_address
      → (s : Db) → Ran platform q now_ms db s
      → (s.users ≡ db.users) × (s.charges ≡ db.charges)
  unfolding deny
  Ran-unsigned unsigned s (unchanged e) = ground arith
  Ran-unsigned unsigned s (turned_down new e) = ground arith
  Ran-unsigned unsigned s (verified cost new signed e) = absurd (unsigned signed)

  -- Without a signature by the user's own key no credits move and no charge is written.
  pub unsigned_moves_nothing :
      platform.verify message q.signature ≢ some q.sui_address
      → (after.users ≡ db.users) × (after.charges ≡ db.charges)
  unsigned_moves_nothing unsigned = Ran-unsigned unsigned after handler-Ran

  Ran-replay : found ≢ none → (s : Db) → Ran platform q now_ms db s → s ≡ db
  Ran-replay seen s (unchanged e) = e
  Ran-replay seen s (turned_down new e) = absurd (seen new)
  Ran-replay seen s (verified cost new signed e) = absurd (seen new)

  -- A nonce that the user has used before, whatever came of it, changes nothing in the database.
  pub replay_changes_nothing : found ≢ none → after ≡ db
  replay_changes_nothing seen = Ran-replay seen after handler-Ran

-- The nonce's row stays once it is there.
module _ (q : SignedRequest) (now_ms : ℕ) where
  abbrev IsUsed : Db → Type 0
  IsUsed s = find_nonce q.sui_address q.nonce s.nonces ≢ none

  accept_charge-IsUsed :
      (row : ServiceCharge) (db : Db) → IsUsed db → IsUsed (accept_charge q now_ms row db).1
  unfolding accept_charge
  accept_charge-IsUsed row db used e = ground (
    arith,
    find_nonce-update_nonce q.sui_address q.nonce (λ x. record x { status = accepted }) db.nonces
        (λ x. refl) (λ x. refl),
  )

  charge_verified-IsUsed :
      (cost : ℕ) (db : Db) → IsUsed db → IsUsed (charge_verified q cost now_ms db).1
  unfolding charge_verified accept_body result_of
  charge_verified-IsUsed cost db used =
      bind-keeps IsUsed (transaction (accept_body q cost now_ms)) (result_of q) db
        (transaction-keeps IsUsed (accept_body q cost now_ms) db used (
          bind-keeps IsUsed (attempt_charge_tx (request_of q cost) now_ms) (accept_charge q now_ms)
            db (rw (nonces-attempt_charge_tx (request_of q cost) now_ms db) used)
            (λ row s h. accept_charge-IsUsed row s h)))
        (λ row s h. h)

  with_nonce-IsUsed : (db : Db) → IsUsed (with_nonce q now_ms db)
  unfolding find_nonce
  with_nonce-IsUsed db e =
      ground (arith, eq_iff q.sui_address q.sui_address, eq_iff q.nonce q.nonce)

  deny-IsUsed : (db : Db) → IsUsed (deny q (with_nonce q now_ms db)).1
  unfolding deny
  deny-IsUsed db e = ground (
    arith,
    with_nonce-IsUsed db,
    find_nonce-update_nonce q.sui_address q.nonce
        (λ x. record x { status = denied; error = some "bad_signature" })
        (with_nonce q now_ms db).nonces (λ x. refl) (λ x. refl),
  )

  Ran-IsUsed : (platform : Platform) (db s : Db) → Ran platform q now_ms db s → (s ≡ db) ⊎ IsUsed s
  Ran-IsUsed platform db s (unchanged e) = inl e
  Ran-IsUsed platform db s (turned_down new e) = inr (rw e (deny-IsUsed db))
  Ran-IsUsed platform db s (verified cost new signed e) =
      inr (rw e (charge_verified-IsUsed cost _ (with_nonce-IsUsed db)))

-- A request either leaves the database as it is, or uses up the user's nonce: then a second request
-- of that user with that nonce, at any time and whatever else it says, leaves the database as the
-- first left it. So no nonce is charged twice.
pub charged_once :
    (platform : Platform) (q q' : SignedRequest) (now_ms later : ℕ) (db : Db)
    → q'.sui_address ≡ q.sui_address
    → q'.nonce ≡ q.nonce
    → let after = (charge_for_service_with_signature platform q now_ms db).1 in
      (after ≡ db) ⊎ ((charge_for_service_with_signature platform q' later after).1 ≡ after)
charged_once platform q q' now_ms later db ea en =
    elim (Ran-IsUsed q now_ms platform db _ (handler-Ran platform q now_ms db)) [
      | inl same ↦ inl same
      | inr used ↦ inr (replay_changes_nothing platform q' later _ (λ e. used (rw (ea, en) at e)))
    ]
