-- ===== src/Treasury/Store/Registration.antt =====
-- What `registerUserTx` of src/treasury/store.ts gives a user: a row of their own, once.
use lp_agent.Prelude.{
  ℕ, ◌+◌, ◌^◌, ◌<◌, String, ◌≡◌, refl, false, none, some, List, [], ◌∷◌, eq_refl, arith,
}
use lp_agent.Table.{select}
use lp_agent.Treasury.Db.{TreasuryUser, Db, ok, transaction-ok}
use lp_agent.Treasury.Store.{
  user_key, max_index, has_index, insert_user, new_user, register_body, register_user_tx,
  find_user_by_deposit_address, find_user_by_sui_address,
}

-- The index above the largest is new.
index_is_new : (n : ℕ) (us : List TreasuryUser) → max_index us < n → has_index n us ≡ false
unfolding has_index max_index
index_is_new n [] h = refl
index_is_new n (u ∷ us) h = ground (arith, index_is_new n us)

module _ (a : String) (derive : ℕ → String) (now_ms : ℕ) (db : Db)
    (new : select user_key a db.users ≡ none) (room : max_index db.users + 1 < 2 ^ 31)
    (free : find_user_by_deposit_address (derive (max_index db.users + 1)) db ≡ none) where
  abbrev user : TreasuryUser
  user = record {
    sui_address = a;
    derivation_index = max_index db.users + 1;
    deposit_address = derive (max_index db.users + 1);
    credits = 0;
    created_at_ms = now_ms;
  }

  abbrev after : Db
  after = record db { users = user ∷ db.users }

  register_new : register_user_tx a derive now_ms db ≡ (ok user, after)
  unfolding register_user_tx register_body insert_user new_user
  register_new =
      transaction-ok (register_body a derive now_ms) db
        (ground (arith, index_is_new (max_index db.users + 1) db.users))

  seen_after : select user_key a after.users ≡ some user
  unfolding select
  seen_after = ground (arith, eq_refl a)

  -- A new user, while an index is left and nobody has the derived deposit address, gets the index
  -- above all others with no credits, and is found by their address from then on; the same call made
  -- again, at any later time, returns the same row and leaves the database as it is.
  pub registered_once :
      (later : ℕ)
      → (register_user_tx a derive now_ms db ≡ (ok user, after))
        × (find_user_by_sui_address a after ≡ some user)
        × (register_user_tx a derive later after ≡ (ok user, after))
  unfolding register_user_tx register_body find_user_by_sui_address
  registered_once later = (
    register_new,
    seen_after,
    transaction-ok (register_body a derive later) after (rw (seen_after, register_body) refl),
  )
