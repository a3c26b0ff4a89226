-- ===== src/Treasury/Store/Users.antt =====
-- The users of src/treasury/store.ts: registration and the lookups.
use lp_agent.Prelude.{
  ℕ, ◌+◌, ◌^◌, String, Bool, false, ◌&&◌, ◌||◌, Option, none, some, List, [], ◌∷◌, ltb, leb, ◌===◌,
  if◌then◌else◌,
}
use lp_agent.Table.{select}
use lp_agent.Treasury.Db.{
  TreasuryUser, Db, unique_violation, check_violation, ok, Exec, pure, raise, transaction, ◌>>◌,
}

-- PRIMARY KEY (sui_address)
abbrev pub user_key : TreasuryUser → String
user_key u = u.sui_address

-- SELECT * FROM treasury_users WHERE sui_address = ?
unfoldable pub find_user_by_sui_address : String → Db → Option TreasuryUser
find_user_by_sui_address a db = select user_key a db.users

-- SELECT * FROM treasury_users WHERE deposit_address = ?
unfoldable pub find_user_by_deposit_address : String → Db → Option TreasuryUser
find_user_by_deposit_address a db = select (λ (u : TreasuryUser). u.deposit_address) a db.users

-- SELECT MAX(derivation_index), with `?? 0` for an empty table
unfoldable pub max_index : List TreasuryUser → ℕ
max_index [] = 0
max_index (u ∷ us) =
    let rest = max_index us in if ltb rest u.derivation_index then u.derivation_index else rest

unfoldable pub has_index : ℕ → List TreasuryUser → Bool
has_index i [] = false
has_index i (u ∷ us) = (u.derivation_index === i) || has_index i us

abbrev pub max_derivation_index : ℕ
max_derivation_index = 2 ^ 31

-- INSERT INTO treasury_users, with the PRIMARY KEY, UNIQUE and CHECK constraints of the table.
unfoldable pub insert_user : TreasuryUser → Exec (Unit {0})
unfolding has_index
insert_user u db = elim (select user_key u.sui_address db.users) [
  | some _ ↦ raise unique_violation db
  | none ↦ elim (find_user_by_deposit_address u.deposit_address db) [
    | some _ ↦ raise unique_violation db
    | none ↦
        if has_index u.derivation_index db.users
        then raise unique_violation db
        else if ltb u.derivation_index max_derivation_index && ltb 0 u.derivation_index
        then (ok tt, record db { users = u ∷ db.users })
        else raise check_violation db
  ]
]

-- The row of a user who is new.
unfoldable pub new_user : String → (ℕ → String) → ℕ → List TreasuryUser → TreasuryUser
new_user sui_address derive_address now_ms users = record {
  sui_address = sui_address;
  derivation_index = max_index users + 1;
  deposit_address = derive_address (max_index users + 1);
  credits = 0;
  created_at_ms = now_ms;
}

unfoldable pub register_body : String → (ℕ → String) → ℕ → Exec TreasuryUser
register_body sui_address derive_address now_ms db = elim (select user_key sui_address db.users) [
  | some existing ↦ (ok existing, db)
  | none ↦
      let user = new_user sui_address derive_address now_ms db.users in
      (insert_user user >> pure user) db
]

-- `registerUserTx`; `derive_address` is the caller's key derivation.
unfoldable pub register_user_tx : String → (ℕ → String) → ℕ → Exec TreasuryUser
register_user_tx sui_address derive_address now_ms =
    transaction (register_body sui_address derive_address now_ms)

-- ORDER BY derivation_index ASC
unfoldable pub insert_by_index : TreasuryUser → List TreasuryUser → List TreasuryUser
insert_by_index u [] = u ∷ []
insert_by_index u (v ∷ vs) =
    if leb u.derivation_index v.derivation_index then u ∷ v ∷ vs else v ∷ insert_by_index u vs

unfoldable pub order_by_index : List TreasuryUser → List TreasuryUser
order_by_index [] = []
order_by_index (u ∷ us) = insert_by_index u (order_by_index us)

unfoldable pub list_users : Db → List TreasuryUser
list_users db = order_by_index db.users
