-- ===== src/Risk/Emergency/Severity.antt =====
-- How the state of a context in src/risk/emergency.ts is found from the latches: it is the most
-- severe of those that apply, and what a transition does to a weight of one latch.
use lp_agent.Prelude.{
  ℕ, ◌≤◌, String, ◌≡◌, refl, none, some, List, [], ◌∷◌, ◌==◌, ltb, if◌then◌else◌, arith, eq_iff,
  Option-cases, Bool-cases, inl, inr,
}
use lp_agent.Table.{select, update}
use lp_agent.Risk.Emergency.{
  EmergencyContext, Latch, Entry, entry_key, EmergencyStop, severity, hits, insert_by_severity,
  sort_by_severity, applicable, first_state, state, context_keys, set_latch, DrainOutcome,
  drain_step, drain_each,
}

abbrev pub larger : ℕ → ℕ → ℕ
larger a b = if ltb a b then b else a

-- A weight of the latch at a key, 0 where there is none.
unfoldable pub weight_at : (Entry → ℕ) → String → List Entry → ℕ
weight_at w k latches = elim (select entry_key k latches) [ none ↦ 0 | some e ↦ w e ]

abbrev pub severity_of : Entry → ℕ
severity_of e = severity e.latch.state

unfoldable pub worst_at : List String → List Entry → ℕ
worst_at [] latches = 0
worst_at (k ∷ ks) latches = larger (weight_at severity_of k latches) (worst_at ks latches)

first-insert :
    (e : Entry) (es : List Entry)
    → severity (first_state (insert_by_severity e es))
      ≡ larger (severity_of e) (severity (first_state es))
unfolding insert_by_severity first_state
first-insert e [] = ground arith
first-insert e (x ∷ xs) = ground arith

first-sort-hits :
    (ks : List String) (latches : List Entry)
    → severity (first_state (sort_by_severity (hits ks latches))) ≡ worst_at ks latches
unfolding sort_by_severity hits worst_at weight_at first_state
first-sort-hits [] latches = refl
first-sort-hits (k ∷ ks) latches = elim (Option-cases (select entry_key k latches)) [
  | inl e ↦ ground (arith, first-sort-hits ks latches)
  | inr (x, e) ↦
      ground
        (arith, first-sort-hits ks latches, first-insert x (sort_by_severity (hits ks latches)))
]

-- The state of a context is the most severe of its latches'.
pub severity-state :
    (ctx : EmergencyContext) (s : EmergencyStop)
    → severity (state (some ctx) s) ≡ worst_at (context_keys ctx) s.latches
unfolding state applicable
severity-state ctx s = first-sort-hits (context_keys ctx) s.latches

pub worst_at_mono :
    (ks : List String) (xs ys : List Entry)
    → ((k : String) → weight_at severity_of k xs ≤ weight_at severity_of k ys)
    → worst_at ks xs ≤ worst_at ks ys
unfolding worst_at
worst_at_mono [] xs ys h = ground arith
worst_at_mono (k ∷ ks) xs ys h = ground (arith, h k, worst_at_mono ks xs ys h)

module _ (w : Entry → ℕ) where
  pub weight_at-set_latch :
      (k j : String) (l : Latch) (xs : List Entry)
      → weight_at w j (set_latch k l xs)
        ≡ (if k == j then w (record { key = k; latch = l }) else weight_at w j xs)
  unfolding weight_at select set_latch
  weight_at-set_latch k j l [] = ground arith
  weight_at-set_latch k j l (x ∷ xs) = elim (Bool-cases (x.key == k)) [
    | inl same ↦ ground (arith, eq_iff x.key k, eq_iff x.key j, eq_iff k j)
    | inr other ↦
        ground (arith, eq_iff x.key k, eq_iff x.key j, eq_iff k j, weight_at-set_latch k j l xs)
  ]

  -- What an UPDATE by a function that only adds weight does to each latch.
  pub weight_at-update :
      (f : Entry → Entry) (k j : String) (xs : List Entry)
      → ((e : Entry) → (f e).key ≡ e.key)
      → ((e : Entry) → w e ≤ w (f e))
      → weight_at w j xs ≤ weight_at w j (update entry_key k f xs)
  unfolding weight_at select update
  weight_at-update f k j [] keeps h = ground arith
  weight_at-update f k j (x ∷ xs) keeps h =
      ground (arith, keeps x, h x, weight_at-update f k j xs keeps h)

pub drain_step-key : (n : ℕ) (o : DrainOutcome) (e : Entry) → (drain_step n o e).key ≡ e.key
unfolding drain_step
drain_step-key n o e = ground arith

module _ (w : Entry → ℕ) (n : ℕ) (o : DrainOutcome)
    (grows : (e : Entry) → w e ≤ w (drain_step n o e)) where
  pub weight_at-drain_each :
      (j : String) (es xs : List Entry) → weight_at w j xs ≤ weight_at w j (drain_each n o es xs)
  unfolding drain_each
  weight_at-drain_each j [] xs = ground arith
  weight_at-drain_each j (e ∷ es) xs = ground (
    arith,
    weight_at-update w (drain_step n o) e.key j xs (drain_step-key n o) grows,
    weight_at-drain_each j es (update entry_key e.key (drain_step n o) xs),
  )
