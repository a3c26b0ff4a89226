-- ===== src/Treasury/Charges/Examples.antt =====
-- Signed charges and registrations at concrete inputs.
use lp_agent.Prelude.{◌≡◌, refl, true, false, none, some, [], ◌∷◌, ◌==◌, if◌then◌else◌, arith}
use lp_agent.Prelude.Int.{pos}
use lp_agent.Table.{select}
use lp_agent.Treasury.Db.{TreasuryUser, ChargeRow, charged, Db, ok}
use lp_agent.Treasury.Store.{
  integer, charge_key, find_user_by_sui_address, find_user_by_deposit_address, register_user_tx,
  max_index,
}
use lp_agent.Treasury.Store.Registration.{registered_once}
use lp_agent.Treasury.Charges.{
  Platform, SignedRequest, expected_message, find_nonce, charge_for_service_with_signature,
  remaining, sign_row,
}
use lp_agent.Treasury.Charges.Replay.{IsWellFormed, rejected_then_ok, taken_nonce_is_free}

abbrev reader : Platform
reader = record {
  decode_base64 = λ t. t;
  trim = λ t. t;
  number_to_string = λ n. "4";
  verify = λ message signature. if signature == "by 0xb" then some "0xb" else none;
}

abbrev bobs : SignedRequest
bobs = record {
  sui_address = "0xb";
  credits = integer (pos 4);
  message_b64 = "LiquidityManager:charge:0xb:4:n7";
  signature = "by 0xb";
  nonce = "n7";
  memo = none;
}

bobs-IsWellFormed : IsWellFormed reader bobs 4
unfolding expected_message
bobs-IsWellFormed = record { positive = refl; named = refl; message = refl; signed = refl }

abbrev bob : TreasuryUser
bob = record {
  sui_address = "0xb";
  derivation_index = 2;
  deposit_address = "0xd2";
  credits = 1;
  created_at_ms = 1;
}

abbrev poor : Db
poor = record {
  users = bob ∷ [];
  rates = [];
  balances = [];
  deposits = [];
  charges = [];
  nonces = [];
}

rejected_then_ok_example :
    let first = charge_for_service_with_signature reader bobs 10 poor in
    let second = charge_for_service_with_signature reader bobs 20 first.1 in
    (first.0
      ≡ ok (record {
        ok = false;
        charge_nonce = "n7";
        remaining_credits = pos 1;
        error = some "insufficient_credits";
      }))
    × (second.0
        ≡ ok (record { ok = true; charge_nonce = "n7"; remaining_credits = pos 1; error = none }))
    × (first.1.users ≡ poor.users)
    × (second.1 ≡ first.1)
unfolding find_nonce select
rejected_then_ok_example =
    rejected_then_ok reader bobs 4 bobs-IsWellFormed 10 poor {u = bob} refl refl refl (omega arith)
      20

-- A charge that another user has paid under bob's nonce.
abbrev others_charge : ChargeRow
others_charge = record {
  charge = record {
    nonce = "n7";
    sui_address = "0xa";
    pm_id = none;
    credits_debited = 4;
    memo = none;
    status = charged;
    error = none;
    created_at_ms = 5;
  };
  signature = some "by 0xa";
  message_b64 = some "LiquidityManager:charge:0xa:4:n7";
  verified_at_ms = some 5;
}

abbrev shared : Db
shared = record poor { charges = others_charge ∷ [] }

taken_nonce_is_free_example :
    let first = charge_for_service_with_signature reader bobs 10 shared in
    (first.0
      ≡ ok (record {
        ok = true;
        charge_nonce = "n7";
        remaining_credits = remaining "0xb" shared;
        error = none;
      }))
    × (first.1.users ≡ shared.users)
    × (select charge_key "n7" first.1.charges ≡ some (sign_row bobs 10 others_charge))
unfolding find_nonce select
taken_nonce_is_free_example =
    taken_nonce_is_free reader bobs 4 bobs-IsWellFormed 10 shared {taken = others_charge} refl refl
      refl

abbrev carol : TreasuryUser
carol = record {
  sui_address = "0xc";
  derivation_index = 3;
  deposit_address = "0xd3";
  credits = 0;
  created_at_ms = 10;
}

registered_once_example :
    let after : Db = record poor { users = carol ∷ poor.users } in
    (register_user_tx "0xc" (λ i. "0xd3") 10 poor ≡ (ok carol, after))
    × (find_user_by_sui_address "0xc" after ≡ some carol)
    × (register_user_tx "0xc" (λ i. "0xd3") 99 after ≡ (ok carol, after))
unfolding select max_index find_user_by_deposit_address
registered_once_example = registered_once "0xc" (λ i. "0xd3") 10 poor refl (omega arith) refl 99
