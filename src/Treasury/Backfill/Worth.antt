-- ===== src/Treasury/Backfill/Worth.antt =====
-- What a backfill of src/treasury/backfill.ts leaves to each user and in each deposit.
use lp_agent.Prelude.{Bool, false, Option, Option-cases, sym, subst}
use lp_agent.Table.Laws.{select-update_self}
use lp_agent.Treasury.Store.Ledger.{credits_of}
use lp_agent.Prelude.{
  ℕ, ◌+◌, String, ◌≡◌, refl, ◌≢◌, ap, ◌∙◌, true, none, some, List, [], ◌∷◌, ◌==◌, eq_iff,
  if◌then◌else◌, All, sum_by, arith, inl, inr, Bool-cases,
}
use lp_agent.Table.{select, Unique}
use lp_agent.Table.Laws.{select-update_ne}
use lp_agent.Table.Filter.{filter}
use lp_agent.Treasury.Db.{CreditRate, DepositRecord, Db}
use lp_agent.Treasury.Credits.{credits_for_amount}
use lp_agent.Treasury.Store.{deposit_key}
use lp_agent.Treasury.Store.Ledger.{IsLedger, credits_of-add}
use lp_agent.Treasury.Backfill.{needs_backfill, set_rate, grant_row, grant_rows}
use lp_agent.Treasury.Backfill.Rows.{
  IsOpen, not_selected, owner_known, grant_row-IsLedger, Ready, Ready-tail,
}

-- The row that is found, if the test holds of it.
abbrev keep : {A : Type 0} → (A → Bool) → Option A → Option A
keep p none = none
keep p (some x) = if p x then some x else none

select-filter :
    {A : Type 0} (key : A → String) (p : A → Bool) (k : String) (xs : List A)
    → Unique key xs
    → select key k (filter p xs) ≡ keep p (select key k xs)
unfolding select filter
select-filter key p k [] u = refl
select-filter key p k (x ∷ xs) u =
    let ih = select-filter key p k xs u.1 in
    elim (Bool-cases (key x == k)) [
      | inl here ↦
          let same = eq_iff (key x) k in
          let gone = select-filter key p (key x) xs u.1 in
          elim (Bool-cases (p x)) [
            | inl t ↦ rw (t, here, t) refl
            | inr f ↦ ground (arith, here, f, same, gone, u.0)
          ]
      | inr other ↦ elim (Bool-cases (p x)) [ inl t ↦ rw (t, other) ih | inr f ↦ rw (f, other) ih ]
    ]

module _ (rate : CreditRate) (c : String) where
  -- What a row is worth to a user.
  abbrev pub worth_to : String → DepositRecord → ℕ
  worth_to a r = if r.sui_address == a then credits_for_amount r.amount_delta (some rate) else 0

  -- The deposit with its credits and the rate.
  abbrev rated : DepositRecord → DepositRecord
  rated d = record d {
    credits_granted = credits_for_amount d.amount_delta (some rate);
    rate_num = some rate.rate_num;
    rate_den = some rate.rate_den;
  }

  -- A deposit after the backfill of the coin: one of the coin without a rate has its credits and
  -- the rate, any other is as it was.
  abbrev pub settled : DepositRecord → DepositRecord
  settled d = elim d.rate_num [ none ↦ if d.coin_type == c then rated d else d | some _ ↦ d ]

  abbrev pub settled_row : Option DepositRecord → Option DepositRecord
  settled_row none = none
  settled_row (some d) = some (settled d)

  credits-grant_row :
      (a : String) (row : DepositRecord) (total : ℕ) (db : Db)
      → IsLedger db
      → IsOpen db row
      → credits_of a (grant_row rate row total db).1.users ≡ credits_of a db.users + worth_to a row
  unfolding grant_row
  credits-grant_row a row total db v o = ground (
    arith,
    credits_of-add a row.sui_address (credits_for_amount row.amount_delta (some rate)) db.users
        (owner_known rate row total db v o),
  )

  pub credits-grant_rows :
      (a : String) (rows : List DepositRecord) (total : ℕ) (db : Db)
      → IsLedger db
      → Ready rate c db rows
      → credits_of a (grant_rows rate rows total db).1.users
        ≡ credits_of a db.users + sum_by (worth_to a) rows
  unfolding grant_rows
  credits-grant_rows a [] total db v h = omega arith
  credits-grant_rows a (r ∷ rs) total db v h =
      let (total', db') = grant_row rate r total db in
      let ih =
        credits-grant_rows a rs total' db' (grant_row-IsLedger rate r total db v h.1.0.0)
          (Ready-tail rate c r rs total db v h) in
      omega (arith, ih, credits-grant_row a r total db v h.1.0.0)

  untouched_row :
      (k : String) (row : DepositRecord) (total : ℕ) (db : Db)
      → k ≢ row.id
      → select deposit_key k (grant_row rate row total db).1.deposits
        ≡ select deposit_key k db.deposits
  unfolding grant_row
  untouched_row k row total db ne = ground (
    arith,
    select-update_ne deposit_key (set_rate (credits_for_amount row.amount_delta (some rate)) rate)
        (λ d. refl) row.id k db.deposits (λ e. ne (sym e)),
  )

  untouched :
      (k : String) (rows : List DepositRecord) (total : ℕ) (db : Db)
      → All (λ (r : DepositRecord). k ≢ r.id) rows
      → select deposit_key k (grant_rows rate rows total db).1.deposits
        ≡ select deposit_key k db.deposits
  unfolding grant_rows
  untouched k [] total db h = refl
  untouched k (r ∷ rs) total db h =
      let (total', db') = grant_row rate r total db in
      untouched k rs total' db' h.1 ∙ untouched_row k r total db h.0

  touched_row :
      (row : DepositRecord) (total : ℕ) (db : Db)
      → IsOpen db row
      → select deposit_key row.id (grant_row rate row total db).1.deposits ≡ some (rated row)
  unfolding grant_row
  touched_row row total db o = ground (
    arith,
    select-update_self deposit_key (set_rate (credits_for_amount row.amount_delta (some rate)) rate)
        (λ d. refl) row.id db.deposits {x = row} o.0,
  )

  touched :
      (k : String) (rows : List DepositRecord) (total : ℕ) (db : Db) {r : DepositRecord}
      → IsLedger db
      → Ready rate c db rows
      → select deposit_key k rows ≡ some r
      → select deposit_key k (grant_rows rate rows total db).1.deposits ≡ some (rated r)
  unfolding grant_rows select
  touched k [] total db {r} v h e = cc
  touched k (x ∷ xs) total db {r} v h e =
      let (total', db') = grant_row rate x total db in
      elim (Bool-cases (x.id == k)) [
        | inl here ↦
            let k_id : x.id ≡ k = ground (arith, here, eq_iff x.id k) in
            let e' : some x ≡ some r = rw here at e in
            let x_r : x ≡ r = cc in
            let rest = untouched x.id xs total' db' (not_selected x.id xs h.0.0) in
            subst
              (λ j.
                select deposit_key j (grant_rows rate xs total' db').1.deposits ≡ some (rated r))
              k_id
              (rest
                ∙ touched_row x total db h.1.0.0
                ∙ ap (λ (d : DepositRecord). some (rated d)) x_r)
        | inr other ↦
            touched k xs total' db' {r = r} (grant_row-IsLedger rate x total db v h.1.0.0)
              (Ready-tail rate c x xs total db v h) (rw other at e)
      ]

  settled_due : (d : DepositRecord) → needs_backfill c d ≡ true → some (rated d) ≡ some (settled d)
  settled_due d t = ground (arith, t)

  settled_not_due : (d : DepositRecord) → needs_backfill c d ≡ false → some d ≡ some (settled d)
  settled_not_due d f = ground (arith, f)

  -- The deposits of a ledger after the rows without a rate were processed.
  pub deposits-grant_rows :
      (k : String) (db : Db)
      → IsLedger db
      → Ready rate c db (filter (needs_backfill c) db.deposits)
      → select deposit_key k
          (grant_rows rate (filter (needs_backfill c) db.deposits) 0 db).1.deposits
        ≡ settled_row (select deposit_key k db.deposits)
  deposits-grant_rows k db v h =
      let rows = filter (needs_backfill c) db.deposits in
      let kept = select-filter deposit_key (needs_backfill c) k db.deposits v.deposits_unique in
      elim (Option-cases (select deposit_key k db.deposits)) [
        | inl absent ↦
            untouched k rows 0 db (not_selected k rows (kept ∙ ap (keep (needs_backfill c)) absent))
            ∙ absent
            ∙ sym (ap settled_row absent)
        | inr (d, found) ↦
            let there = kept ∙ ap (keep (needs_backfill c)) found in
            elim (Bool-cases (needs_backfill c d)) [
              | inl t ↦
                  touched k rows 0 db {r = d} v h (rw t at there)
                  ∙ settled_due d t
                  ∙ sym (ap settled_row found)
              | inr f ↦
                  untouched k rows 0 db (not_selected k rows (rw f at there))
                  ∙ found
                  ∙ settled_not_due d f
                  ∙ sym (ap settled_row found)
            ]
      ]
