-- ===== src/Treasury/Backfill/Rows.antt =====
-- The loop of src/treasury/backfill.ts over the rows: the ledger it keeps, and what it counts.
use lp_agent.Prelude.{
  ℕ, ◌+◌, String, ◌≡◌, refl, ◌≢◌, true, none, some, List, [], ◌∷◌, ◌==◌, eq_iff, if◌then◌else◌,
  length, All, sum_by, arith, inl, inr, Bool-cases,
}
use lp_agent.Table.{select, update, Unique}
use lp_agent.Table.Laws.{
  update-Unique, sum_by-update, sum_by-update_same, select-update_ne, le-sum_by,
}
use lp_agent.Table.Filter.{filter}
use lp_agent.Treasury.Db.{CreditRate, DepositRecord, Db}
use lp_agent.Treasury.Credits.{credits_for_amount}
use lp_agent.Treasury.Store.{user_key, deposit_key}
use lp_agent.Treasury.Store.Ledger.{
  IsLedger, IsUnratedZero, granted_to, counted_for, granted, deposit_count, credits_of-add,
  add_credits-Unique, stranger_of-add,
}
use lp_agent.Treasury.Backfill.{needs_backfill, set_rate, grant_row, grant_rows}

-- A row that the loop still has to process: as it stands in the table, and without a rate.
abbrev pub IsOpen : Db → DepositRecord → Type 0
IsOpen db r = (select deposit_key r.id db.deposits ≡ some r) × (r.rate_num ≡ none)

-- In a deposit table, an UPDATE that gives every touched row a rate keeps the other rows' contract.
unrated-update :
    (g : ℕ) (rate : CreditRate) (k : String) (ds : List DepositRecord)
    → All IsUnratedZero ds
    → All IsUnratedZero (update deposit_key k (set_rate g rate) ds)
unfolding update
unrated-update g rate k [] h = tt
unrated-update g rate k (d ∷ ds) h = elim (Bool-cases (d.id == k)) [
  | inl e ↦ rw e ((λ absent. cc), unrated-update g rate k ds h.1)
  | inr e ↦ rw e (h.0, unrated-update g rate k ds h.1)
]

unrated_of :
    (k : String) (ds : List DepositRecord) {r : DepositRecord}
    → All IsUnratedZero ds
    → select deposit_key k ds ≡ some r
    → IsUnratedZero r
unfolding select
unrated_of k [] h e = cc
unrated_of k (d ∷ ds) {r} h e = elim (Bool-cases (d.id == k)) [
  | inl same ↦ let here : d ≡ r = ground arith in rw here at (h.0)
  | inr other ↦ unrated_of k ds h.1 (rw other at e)
]

module _ (rate : CreditRate) (row : DepositRecord) (total : ℕ) (db : Db) (v : IsLedger db)
    (open_row : IsOpen db row) where
  abbrev g : ℕ
  g = credits_for_amount row.amount_delta (some rate)

  -- The owner of a recorded deposit is registered.
  pub owner_known : select user_key row.sui_address db.users ≢ none
  owner_known e = ground (
    arith,
    eq_iff row.sui_address row.sui_address,
    v.strangers row.sui_address,
    le-sum_by deposit_key (counted_for row.sui_address) row.id db.deposits open_row.0,
  )

  granted-grant :
      (a : String)
      → sum_by (granted_to a) (update deposit_key row.id (set_rate g rate) db.deposits)
        ≡ granted a db + (if row.sui_address == a then g else 0)
  granted-grant a = ground (
    arith,
    unrated_of row.id db.deposits v.unrated open_row.0 open_row.1,
    sum_by-update deposit_key (granted_to a) row.id (set_rate g rate) db.deposits v.deposits_unique
        open_row.0,
  )

  count-grant :
      (a : String)
      → sum_by (counted_for a) (update deposit_key row.id (set_rate g rate) db.deposits)
        ≡ deposit_count a db
  count-grant a = sum_by-update_same deposit_key (counted_for a) row.id _ db.deposits (λ d. refl)

  pub grant_row-IsLedger : IsLedger (grant_row rate row total db).1
  unfolding grant_row
  grant_row-IsLedger = record {
    users_unique = ground (arith, v.users_unique, add_credits-Unique row.sui_address g db.users);
    charges_unique = ground (arith, v.charges_unique);
    deposits_unique = ground (
      arith,
      update-Unique deposit_key (set_rate g rate) (λ d. refl) row.id db.deposits v.deposits_unique,
    );
    unrated = ground (arith, unrated-update g rate row.id db.deposits v.unrated);
    strangers = λ a e.
        ground (arith, v.strangers a, count-grant a, stranger_of-add a row.sui_address g db.users);
    balanced = λ a. ground (
      arith,
      v.balanced a,
      granted-grant a,
      credits_of-add a row.sui_address g db.users owner_known,
    );
  }

  -- The other rows stay as they are.
  grant_row-IsOpen :
      (r : DepositRecord) → row.id ≢ r.id → IsOpen db r → IsOpen (grant_row rate row total db).1 r
  unfolding grant_row
  grant_row-IsOpen r ne h =
      ground (
        arith,
        select-update_ne deposit_key (set_rate g rate) (λ d. refl) row.id r.id db.deposits ne,
      )

abbrev pub open_weight : String → DepositRecord → ℕ
open_weight c d = if needs_backfill c d then 1 else 0

-- How many rows a backfill of the coin would process.
unfoldable pub open_count : String → Db → ℕ
open_count c db = sum_by (open_weight c) db.deposits

pub open_count-filter :
    (c : String) (ds : List DepositRecord)
    → sum_by (open_weight c) ds ≡ length (filter (needs_backfill c) ds)
unfolding filter
open_count-filter c [] = refl
open_count-filter c (d ∷ ds) = ground (arith, open_count-filter c ds)

pub rates-grant_rows :
    (rate : CreditRate) (rows : List DepositRecord) (total : ℕ) (db : Db)
    → (grant_rows rate rows total db).1.rates ≡ db.rates
unfolding grant_rows grant_row
rates-grant_rows rate [] total db = refl
rates-grant_rows rate (r ∷ rs) total db =
    let (total', db') = grant_row rate r total db in
    ground (arith, rates-grant_rows rate rs total' db')

pub not_selected :
    (k : String) (rows : List DepositRecord)
    → select deposit_key k rows ≡ none
    → All (λ (r : DepositRecord). k ≢ r.id) rows
unfolding select
not_selected k [] h = tt
not_selected k (r ∷ rs) h = elim (Bool-cases (r.id == k)) [
  | inl same ↦ absurd (ground (arith, eq_iff r.id k))
  | inr other ↦ ((λ e. ground (arith, eq_iff r.id k)), not_selected k rs (rw other at h))
]

module _ (rate : CreditRate) (c : String) where
  abbrev pub Ready : Db → List DepositRecord → Type 0
  Ready db rows =
      Unique deposit_key rows × All (λ r. IsOpen db r × (needs_backfill c r ≡ true)) rows

  pub Ready-tail :
      (row : DepositRecord) (rows : List DepositRecord) (total : ℕ) (db : Db)
      → IsLedger db
      → Ready db (row ∷ rows)
      → Ready (grant_row rate row total db).1 rows
  Ready-tail row rows total db v h = (h.0.1, both rows (not_selected row.id rows h.0.0) h.1.1)
    where
      both :
          (rs : List DepositRecord)
          → All (λ (r : DepositRecord). row.id ≢ r.id) rs
          → All (λ r. IsOpen db r × (needs_backfill c r ≡ true)) rs
          → All (λ r. IsOpen (grant_row rate row total db).1 r × (needs_backfill c r ≡ true)) rs
      both [] ne o = tt
      both (r ∷ rs) ne o =
          ((grant_row-IsOpen rate row total db v h.1.0.0 r ne.0 o.0.0, o.0.1), both rs ne.1 o.1)

  open_count-grant_row :
      (row : DepositRecord) (total : ℕ) (db : Db)
      → IsLedger db
      → IsOpen db row
      → needs_backfill c row ≡ true
      → open_count c (grant_row rate row total db).1 + 1 ≡ open_count c db
  unfolding open_count grant_row
  open_count-grant_row row total db v o needs = ground (
    arith,
    sum_by-update deposit_key (open_weight c) row.id
        (set_rate (credits_for_amount row.amount_delta (some rate)) rate) db.deposits
        v.deposits_unique o.0,
  )

  total-grant_row :
      (row : DepositRecord) (total : ℕ) (db : Db)
      → (grant_row rate row total db).0 ≡ total + credits_for_amount row.amount_delta (some rate)
  unfolding grant_row
  total-grant_row row total db = ground arith

  pub grant_rows_lem :
      (rows : List DepositRecord) (total : ℕ) (db : Db)
      → IsLedger db
      → Ready db rows
      → let (total', db') = grant_rows rate rows total db in
        IsLedger db'
        × (open_count c db' + length rows ≡ open_count c db)
        × (total'
            ≡ total
              + sum_by (λ (r : DepositRecord). credits_for_amount r.amount_delta (some rate)) rows)
  unfolding grant_rows
  grant_rows_lem [] total db v h = (v, omega arith, omega arith)
  grant_rows_lem (r ∷ rs) total db v h =
      let (total', db') = grant_row rate r total db in
      let ih =
        grant_rows_lem rs total' db' (grant_row-IsLedger rate r total db v h.1.0.0)
          (Ready-tail r rs total db v h) in
      (
        ih.0,
        omega (arith, ih.1, open_count-grant_row r total db v h.1.0.0 h.1.0.1),
        omega (arith, ih.2, total-grant_row r total db),
      )
