-- ===== src/Treasury/Charges.antt =====
-- src/treasury/charges.ts: charging for a service, from the rebalancer and, with a signature, from
-- the HTTP API. The logs are left out. What the code takes from JavaScript and from the Sui SDK is
-- the record `Platform`.
pub mod Signed
pub mod Replay
mod Examples
use Prim.Native.String.{◌++◌ as cat}
use lp_agent.Prelude.{
  ℕ, String, Bool, true, false, not, ◌&&◌, ◌||◌, Option, none, some, List, [], ◌∷◌, ◌==◌,
  if◌then◌else◌, ◌===◌,
}
use lp_agent.Prelude.Int.{ℤ, pos, negsuc}
use lp_agent.Table.{select, update}
use lp_agent.Treasury.Db.{
  TreasuryUser, ServiceCharge, ServiceChargeStatus, charged, ChargeRow, NonceStatus, pending,
  accepted, denied, ChargeNonce, Db, Result, ok, throw, Exec, pure, raise, transaction, ◌>>=◌, ◌>>◌,
  raise_if, modify, gets, unique_violation, bad_credits, bad_nonce, message_mismatch, nonce_pending,
  nonce_denied, bad_signature,
}
use lp_agent.Treasury.Store.{
  charge_key, user_key, find_user_by_sui_address, ChargeRequest, JsNumber, integer, not_integer,
  attempt_charge_tx, refund_charge_tx, is_charged,
}

pub record ChargeResult : Type 0 where
  pub ok : Bool
  pub charge_nonce : String
  pub remaining_credits : ℤ
  pub error : Option String

unfoldable pub charge_row_to_result : ServiceCharge → ChargeResult
charge_row_to_result row = record {
  ok = is_charged row.status;
  charge_nonce = row.nonce;
  remaining_credits = negsuc 0;
  error = row.error;
}

unfoldable pub attempt_charge : ChargeRequest → ℕ → Exec ChargeResult
attempt_charge input now_ms = do
  row ← attempt_charge_tx input now_ms
  pure (charge_row_to_result row)

unfoldable pub refund_charge : String → String → Exec Bool
refund_charge nonce reason = refund_charge_tx nonce reason

-- ---- treasury_charge_nonces, UNIQUE(sui_address, nonce)

unfoldable pub find_nonce : String → String → List ChargeNonce → Option ChargeNonce
find_nonce a n [] = none
find_nonce a n (x ∷ xs) =
    if (x.sui_address == a) && (x.nonce == n) then some x else find_nonce a n xs

unfoldable pub update_nonce :
    String → String → (ChargeNonce → ChargeNonce) → List ChargeNonce → List ChargeNonce
update_nonce a n f [] = []
update_nonce a n f (x ∷ xs) =
    (if (x.sui_address == a) && (x.nonce == n) then f x else x) ∷ update_nonce a n f xs

abbrev pub set_nonce : String → String → NonceStatus → Option String → Db → Db
set_nonce a n s e db = record db {
  nonces = update_nonce a n (λ (x : ChargeNonce). record x { status = s; error = e }) db.nonces;
}

-- ---- chargeForServiceWithSignature

-- `decode_base64` also reads the bytes as UTF-8; `verify` returns the address of the key that made
-- the signature, or nothing where the SDK throws.
pub record Platform : Type 0 where
  pub decode_base64 : String → String
  pub trim : String → String
  pub number_to_string : ℕ → String
  pub verify : String → String → Option String

pub record SignedRequest : Type 0 where
  pub sui_address : String
  pub credits : JsNumber
  pub message_b64 : String
  pub signature : String
  pub nonce : String
  pub memo : Option String

-- `!Number.isInteger(credits) || credits <= 0`, as the credits where the test passes them.
abbrev pub positive_credits : JsNumber → Option ℕ
positive_credits (integer (pos n)) = if n === 0 then none else some n
positive_credits (integer (negsuc n)) = none
positive_credits not_integer = none

-- `user?.credits ?? 0`
abbrev pub remaining : String → Db → ℤ
remaining a db = elim (find_user_by_sui_address a db) [ none ↦ pos 0 | some u ↦ pos u.credits ]

-- The `catch` of the nonce's INSERT: what the nonce has come to before.
unfoldable pub replayed : SignedRequest → ChargeNonce → Exec ChargeResult
replayed q existing db = elim existing.status [
  | accepted ↦ (
    ok (record {
      ok = true;
      charge_nonce = q.nonce;
      remaining_credits = remaining q.sui_address db;
      error = none;
    }),
    db,
  )
  | pending ↦ raise nonce_pending db
  | denied ↦ raise nonce_denied db
]

-- UPDATE treasury_service_charges SET signature, message_b64, verified_at_ms
abbrev pub sign_row : SignedRequest → ℕ → ChargeRow → ChargeRow
sign_row q now_ms row = record row {
  signature = some q.signature;
  message_b64 = some q.message_b64;
  verified_at_ms = some now_ms;
}

-- The charge that a signed request stands for.
abbrev pub request_of : SignedRequest → ℕ → ChargeRequest
request_of q cost = record {
  nonce = q.nonce;
  sui_address = q.sui_address;
  pm_id = none;
  cost = integer (pos cost);
  memo = q.memo;
}

-- What the outer transaction writes after the debit: the signature on a paid charge, and the
-- nonce's acceptance in every case.
unfoldable pub accept_charge : SignedRequest → ℕ → ServiceCharge → Exec ServiceCharge
accept_charge q now_ms row = do
  modify λ db.
      if is_charged row.status
      then record db { charges = update charge_key q.nonce (sign_row q now_ms) db.charges }
      else db
  modify λ db. record db {
    nonces =
        update_nonce q.sui_address q.nonce (λ (x : ChargeNonce). record x { status = accepted })
          db.nonces;
  }
  pure row

-- The outer transaction: the debit and the nonce's acceptance.
unfoldable pub accept_body : SignedRequest → ℕ → ℕ → Exec ServiceCharge
accept_body q cost now_ms = attempt_charge_tx (request_of q cost) now_ms >>= accept_charge q now_ms

unfoldable pub result_of : SignedRequest → ServiceCharge → Exec ChargeResult
result_of q row db =
    pure
      (if is_charged row.status
        then record {
          ok = true;
          charge_nonce = q.nonce;
          remaining_credits = remaining q.sui_address db;
          error = none;
        }
        else record {
          ok = false;
          charge_nonce = q.nonce;
          remaining_credits = remaining q.sui_address db;
          error = row.error;
        })
      db

-- After the signature has been verified.
unfoldable pub charge_verified : SignedRequest → ℕ → ℕ → Exec ChargeResult
charge_verified q cost now_ms = transaction (accept_body q cost now_ms) >>= result_of q

unfoldable pub deny : SignedRequest → Exec ChargeResult
deny q = do
  modify (set_nonce q.sui_address q.nonce denied (some "bad_signature"))
  raise bad_signature

abbrev pub new_nonce : SignedRequest → ℕ → ChargeNonce
new_nonce q now_ms = record {
  sui_address = q.sui_address;
  nonce = q.nonce;
  status = pending;
  error = none;
  created_at_ms = now_ms;
}

-- INSERT INTO treasury_charge_nonces
abbrev pub with_nonce : SignedRequest → ℕ → Db → Db
with_nonce q now_ms db = record db { nonces = new_nonce q now_ms ∷ db.nonces }

module _ (platform : Platform) where
  open platform use {decode_base64, trim, number_to_string, verify}

  unfoldable pub expected_message : String → ℕ → String → String
  expected_message a credits nonce =
      cat "LiquidityManager:charge:"
        (cat a (cat ":" (cat (number_to_string credits) (cat ":" nonce))))

  -- From the nonce's INSERT on.
  unfoldable pub charge_message : SignedRequest → ℕ → String → ℕ → Exec ChargeResult
  charge_message q cost message now_ms db = elim (find_nonce q.sui_address q.nonce db.nonces) [
    | some existing ↦ replayed q existing db
    | none ↦
        let db' = with_nonce q now_ms db in
        elim (verify message q.signature) [
          | none ↦ deny q db'
          | some recovered ↦
              if recovered == q.sui_address then charge_verified q cost now_ms db' else deny q db'
        ]
  ]

  unfoldable pub charge_for_service_with_signature : SignedRequest → ℕ → Exec ChargeResult
  charge_for_service_with_signature q now_ms = elim (positive_credits q.credits) [
    | none ↦ raise bad_credits
    | some cost ↦
        if (q.nonce == "") || (trim q.nonce == "")
        then raise bad_nonce
        else (let message = decode_base64 q.message_b64 in
            if message == expected_message q.sui_address cost q.nonce
            then charge_message q cost message now_ms
            else raise message_mismatch)
  ]
