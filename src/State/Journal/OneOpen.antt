-- ===== src/State/Journal/OneOpen.antt =====
-- The journal of src/state/regimeJournal.ts keeps one open row for a pool.
use lp_agent.Prelude.{
  ℕ, suc, ◌+◌, ◌≤◌, ◌<◌, ◌≡◌, ◌≢◌, refl, sym, ap, subst, ◌∙◌, inl, inr, String, true, Option, none,
  some, Option-cases, Bool-cases, List, [], ◌∷◌, All, sum_by, if◌then◌else◌, arith, eq_iff,
}
use lp_agent.State.{
  MarketState, normal, trend, extreme, same_state, StateRow, StateHistory, close_rows, close_row,
  insert_row,
}
use lp_agent.State.Machine.Timeline.{IsOlder, older_close}
use lp_agent.State.Journal.{record_over, is_open_of, latest_open, record_regime_transition}

abbrev pub open_weight : String → StateRow → ℕ
open_weight pool_id row = if is_open_of pool_id row then 1 else 0

-- The number of open rows of a pool.
abbrev pub open_count : String → List StateRow → ℕ
open_count pool_id rows = sum_by (open_weight pool_id) rows

-- The ids of AUTOINCREMENT, newest first.
abbrev pub IsDescending : List StateRow → Type 0
IsDescending [] = Unit
IsDescending (row ∷ rows) = All (IsOlder row.id) rows × IsDescending rows

latest-none :
    (p : String) (rows : List StateRow) → latest_open p rows ≡ none → open_count p rows ≡ 0
unfolding latest_open
latest-none p [] h = refl
latest-none p (row ∷ rows) h = ground (arith, latest-none p rows)

count_zero : (p : String) (rows : List StateRow) → open_count p rows ≡ 0 → latest_open p rows ≡ none
unfolding latest_open
count_zero p [] h = refl
count_zero p (row ∷ rows) h = ground (arith, count_zero p rows)

latest-IsOlder :
    (p : String) (id : ℕ) (rows : List StateRow) {r : StateRow}
    → All (IsOlder id) rows
    → latest_open p rows ≡ some r
    → r.id < id
unfolding latest_open
latest-IsOlder p id [] h e = cc
latest-IsOlder p id (row ∷ rows) {r} h e = elim (Option-cases (latest_open p rows)) [
  | inl n ↦ ground (arith, h, e, n)
  | inr (r', n) ↦ ground (arith, h, e, n, latest-IsOlder p id rows {r = r'} h.1 n)
]

closed_weight :
    (p : String) (t : ℕ) (row : StateRow) → open_weight p (record row { exited_at_ms = some t }) ≡ 0
closed_weight p t row = ground arith

-- Closing the row that was found closes one open row of its pool.
count-close :
    (p : String) (t : ℕ) (rows : List StateRow) {r : StateRow}
    → IsDescending rows
    → latest_open p rows ≡ some r
    → open_count p (close_rows t r.id rows) + 1 ≡ open_count p rows
unfolding latest_open close_rows
count-close p t [] d e = cc
count-close p t (row ∷ rows) {r} d e = elim (Option-cases (latest_open p rows)) [
  | inl n ↦ ground (arith, e, n, closed_weight p t row, older_close t row.id rows d.0)
  | inr (r', n) ↦ ground (
    arith,
    e,
    n,
    closed_weight p t row,
    older_close t row.id rows d.0,
    count-close p t rows {r = r'} d.1 n,
    latest-IsOlder p row.id rows {r = r'} d.0 n,
  )
]

count-close_other :
    (p q : String) (t : ℕ) (rows : List StateRow) {r : StateRow}
    → p ≢ q
    → IsDescending rows
    → latest_open p rows ≡ some r
    → open_count q (close_rows t r.id rows) ≡ open_count q rows
unfolding latest_open close_rows
count-close_other p q t [] ne d e = cc
count-close_other p q t (row ∷ rows) {r} ne d e = elim (Option-cases (latest_open p rows)) [
  | inl n ↦
      ground
        (arith, e, n, eq_iff row.pool_id p, eq_iff row.pool_id q, older_close t row.id rows d.0)
  | inr (r', n) ↦ ground (
    arith,
    e,
    n,
    eq_iff row.pool_id p,
    eq_iff row.pool_id q,
    older_close t row.id rows d.0,
    count-close_other p q t rows {r = r'} ne d.1 n,
    latest-IsOlder p row.id rows {r = r'} d.0 n,
  )
]

same_state_refl : (s : MarketState) → same_state s s ≡ true
same_state_refl normal = refl
same_state_refl trend = refl
same_state_refl extreme = refl

same_state-eq : (s t : MarketState) → same_state s t ≡ true → s ≡ t
same_state-eq normal normal h = refl
same_state-eq trend trend h = refl
same_state-eq extreme extreme h = refl
same_state-eq normal trend h = absurd (ground (arith, h))
same_state-eq normal extreme h = absurd (ground (arith, h))
same_state-eq trend normal h = absurd (ground (arith, h))
same_state-eq trend extreme h = absurd (ground (arith, h))
same_state-eq extreme normal h = absurd (ground (arith, h))
same_state-eq extreme trend h = absurd (ground (arith, h))

module _ (db : StateHistory) (p : String) (state : MarketState) (trigger : String) (now_ms : ℕ)
    (descending : IsDescending db.rows) (at_most_one : open_count p db.rows ≤ 1) where
  abbrev after : StateHistory
  after = record_regime_transition db p state trigger now_ms

  abbrev new_row : Option MarketState → ℕ → StateRow
  new_row prev id = record {
    id = id;
    pool_id = p;
    entered_at_ms = now_ms;
    exited_at_ms = none;
    state = state;
    trigger = trigger;
    prev_state = prev;
  }

  -- The new row is the latest open one where no other is open.
  alone :
      (h : StateHistory) (prev : Option MarketState)
      → open_count p h.rows ≡ 0
      → (open_count p (insert_row p now_ms state trigger prev h).rows ≡ 1)
        × ((row : StateRow) × (latest_open p (insert_row p now_ms state trigger prev h).rows
              ≡ some row)
            × (row.state ≡ state))
  unfolding latest_open
  alone h prev e = (
    ground (arith, e, eq_iff p p),
    (new_row prev (suc h.last_id), ground (arith, count_zero p h.rows e, eq_iff p p), refl),
  )

  -- Either the regime is the open row's, or the new row is the only open one.
  abbrev Recorded : StateHistory → Type 0
  Recorded h =
      (open_count p h.rows ≡ 1)
      × ((row : StateRow) × (latest_open p h.rows ≡ some row) × (row.state ≡ state))

  course :
      (o : Option StateRow)
      → latest_open p db.rows ≡ o
      → record_over db p state trigger now_ms o ≡ after
  unfolding record_regime_transition
  course o e = ap (record_over db p state trigger now_ms) (sym e)

  recorded : Recorded after
  recorded = elim (Option-cases (latest_open p db.rows)) [
    | inl n ↦ subst Recorded (course none n) (alone db none (latest-none p db.rows n))
    | inr (r, n) ↦
        subst Recorded (course (some r) n) (elim (Bool-cases (same_state r.state state)) [
          | inl e ↦ rw e (
            omega (arith, at_most_one, count-close p now_ms db.rows {r = r} descending n),
            (r, n, same_state-eq r.state state e),
          )
          | inr e ↦ rw e (
              alone (close_row now_ms r.id db) (some r.state)
                (omega (arith, at_most_one, count-close p now_ms db.rows {r = r} descending n)))
        ])
  ]

  kept : (q : String) → p ≢ q → open_count q after.rows ≡ open_count q db.rows
  kept q ne = elim (Option-cases (latest_open p db.rows)) [
    | inl n ↦ subst Keeps (course none n) (ground (arith, eq_iff p q))
    | inr (r, n) ↦ subst Keeps (course (some r) n) (elim (Bool-cases (same_state r.state state)) [
      | inl e ↦ rw e refl
      | inr e ↦
          rw e (
            ground
              (arith, eq_iff p q, count-close_other p q now_ms db.rows {r = r} ne descending n))
    ])
  ]
    where
      Keeps : StateHistory → Type 0
      Keeps h = open_count q h.rows ≡ open_count q db.rows

  again :
      (trigger' : String) (now_ms' : ℕ)
      → record_regime_transition after p state trigger' now_ms' ≡ after
  unfolding record_regime_transition
  again trigger' now_ms' =
      let (row, found, e) = recorded.1 in
      ap (record_over after p state trigger' now_ms') found
      ∙ ground (arith, e, same_state_refl state)

  -- In a table with the ids of AUTOINCREMENT and at most one open row of the pool, recording a regime leaves
  -- exactly one open row of the pool, in that regime; recording the regime again changes nothing; and the
  -- open rows of another pool are as many as before.
  pub journal_keeps_one_open :
      (trigger' q : String) (now_ms' : ℕ)
      → p ≢ q
      → (open_count p after.rows ≡ 1)
        × ((row : StateRow) × (latest_open p after.rows ≡ some row) × (row.state ≡ state))
        × (record_regime_transition after p state trigger' now_ms' ≡ after)
        × (open_count q after.rows ≡ open_count q db.rows)
  journal_keeps_one_open trigger' q now_ms' ne =
      (recorded.0, recorded.1, again trigger' now_ms', kept q ne)
