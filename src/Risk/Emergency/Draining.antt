-- ===== src/Risk/Emergency/Draining.antt =====
-- The drain of src/risk/emergency.ts: each attempt that a context reports brings every latch that
-- drains there a step further, up to `drainMaxAttempts`.
use lp_agent.Prelude.{
  ℕ, suc, ◌+◌, ◌≤◌, ◌<◌, String, ◌≡◌, refl, Bool, true, false, ◌||◌, some, List, [], ◌∷◌, ◌==◌, ltb,
  if◌then◌else◌, arith, eq_iff, Option-cases, Bool-cases, inl, inr, length,
}
use lp_agent.Table.{select, update}
use lp_agent.Table.Laws.{key-select}
use lp_agent.Risk.Emergency.{
  armed, draining, halted, EmergencyScope, EmergencyContext, Entry, entry_key, EmergencyStop,
  severity, scope_key, is_tripped, hits, sort_by_severity, insert_by_severity, applicable, state,
  context_keys, DrainOutcome, drain_step, drain_each, trip, record_drain_attempt, is_tripped_at,
}
use lp_agent.Risk.Emergency.Severity.{
  weight_at, severity_of, worst_at, severity-state, weight_at-set_latch, weight_at-update,
  weight_at-drain_each, drain_step-key,
}
use lp_agent.Risk.Emergency.Latching.{contains}

has_key : String → List Entry → Bool
has_key k [] = false
has_key k (e ∷ es) = (e.key == k) || has_key k es

-- How far a latch has come: the attempts made while it drains, and one more than the limit when it
-- is halted.
module _ (n : ℕ) where
  abbrev progress : Entry → ℕ
  progress e = elim e.latch.state [
    | armed ↦ 0
    | draining ↦ if ltb e.latch.attempts n then suc e.latch.attempts else n
    | halted ↦ suc n
  ]

module _ (n : ℕ) (some_attempts : 0 < n) (o : DrainOutcome) where
  drain_step-progress : (e : Entry) → progress n e ≤ progress n (drain_step n o e)
  unfolding drain_step
  drain_step-progress e = ground arith

  drain_step-advance :
      (e : Entry)
      → 0 < progress n e
      → progress n e ≤ n
      → progress n e < progress n (drain_step n o e)
  unfolding drain_step
  drain_step-advance e tripped running = ground arith

  progress_bound : (e : Entry) → progress n e ≤ suc n
  progress_bound e = ground arith

  -- An UPDATE with the drain step, at the latch of its key and beside it.
  step_here :
      (k : String) (xs : List Entry)
      → 0 < weight_at (progress n) k xs
      → weight_at (progress n) k xs ≤ n
      → weight_at (progress n) k xs
        < weight_at (progress n) k (update entry_key k (drain_step n o) xs)
  unfolding weight_at select update
  step_here k [] p q = ground arith
  step_here k (x ∷ xs) p q = elim (Bool-cases (x.key == k)) [
    | inl same ↦ ground (arith, drain_step-key n o x, drain_step-advance x)
    | inr other ↦ ground (arith, drain_step-key n o x, step_here k xs)
  ]

  -- The loop over the latches reaches the one at `k` where it is among them.
  drain_each-advance :
      (k : String) (es xs : List Entry)
      → has_key k es ≡ true
      → 0 < weight_at (progress n) k xs
      → weight_at (progress n) k xs ≤ n
      → weight_at (progress n) k xs < weight_at (progress n) k (drain_each n o es xs)
  unfolding drain_each has_key
  drain_each-advance k [] xs here p q = cc
  drain_each-advance k (e ∷ es) xs here p q = elim (Bool-cases (e.key == k)) [
    | inl same ↦
        let at_key : e.key ≡ k = ground (arith, eq_iff e.key k) in
        ground (
          arith,
          step_here k xs,
          weight_at-drain_each (progress n) n o drain_step-progress k es
              (update entry_key e.key (drain_step n o) xs),
        )
    | inr other ↦ ground (
      arith,
      weight_at-update (progress n) (drain_step n o) e.key k xs (drain_step-key n o)
          drain_step-progress,
      weight_at-drain_each (progress n) n o drain_step-progress k es
          (update entry_key e.key (drain_step n o) xs),
      drain_each-advance k es (update entry_key e.key (drain_step n o) xs),
    )
  ]

has_key-insert :
    (k : String) (e : Entry) (es : List Entry)
    → has_key k (insert_by_severity e es) ≡ ((e.key == k) || has_key k es)
unfolding has_key insert_by_severity
has_key-insert k e [] = refl
has_key-insert k e (x ∷ xs) = ground (arith, has_key-insert k e xs)

has_key-applicable :
    (k : String) (ks : List String) (latches : List Entry)
    → contains k ks ≡ true
    → is_tripped_at k latches ≡ true
    → has_key k (sort_by_severity (hits ks latches)) ≡ true
unfolding has_key contains hits sort_by_severity is_tripped_at
has_key-applicable k [] latches c t = cc
has_key-applicable k (j ∷ js) latches c t = elim (Option-cases (select entry_key j latches)) [
  | inl e ↦ ground (arith, eq_iff k j, has_key-applicable k js latches)
  | inr (x, e) ↦ ground (
    arith,
    eq_iff k j,
    eq_iff x.key k,
    key-select entry_key j latches e,
    has_key-applicable k js latches,
    has_key-insert k x (sort_by_severity (hits js latches)),
  )
]

le-worst_at :
    (k : String) (ks : List String) (latches : List Entry)
    → contains k ks ≡ true
    → weight_at severity_of k latches ≤ worst_at ks latches
unfolding contains worst_at
le-worst_at k [] latches c = cc
le-worst_at k (j ∷ js) latches c = ground (arith, eq_iff k j, le-worst_at k js latches)

-- Drain attempts of one context, one after the other.
module _ (n : ℕ) (ctx : EmergencyContext) where
  unfoldable pub drain_all : List DrainOutcome → EmergencyStop → EmergencyStop
  drain_all [] s = s
  drain_all (o ∷ os) s = drain_all os (record_drain_attempt n ctx o s)

module _ (n : ℕ) (some_attempts : 0 < n) (ctx : EmergencyContext) where
  module _ (k : String) (applies : contains k (context_keys ctx) ≡ true) where
    abbrev progress_at : EmergencyStop → ℕ
    progress_at s = weight_at (progress n) k s.latches

    tripped_of_progress : (s : EmergencyStop) → 0 < progress_at s → is_tripped_at k s.latches ≡ true
    unfolding weight_at is_tripped_at
    tripped_of_progress s h = ground arith

    progress_at-bound : (s : EmergencyStop) → progress_at s ≤ suc n
    unfolding weight_at
    progress_at-bound s = ground arith

    record_drain-progress :
        (o : DrainOutcome) (s : EmergencyStop)
        → 0 < progress_at s
        → (progress_at s ≤ progress_at (record_drain_attempt n ctx o s))
          × (progress_at s ≤ n → progress_at s < progress_at (record_drain_attempt n ctx o s))
    unfolding record_drain_attempt applicable
    record_drain-progress o s h = (
      weight_at-drain_each (progress n) n o (drain_step-progress n some_attempts o) k
          (applicable (some ctx) s) s.latches,
      λ running.
          drain_each-advance n some_attempts o k (applicable (some ctx) s) s.latches
            (has_key-applicable k (context_keys ctx) s.latches applies (tripped_of_progress s h)) h
            running,
    )

    drain_all-progress :
        (os : List DrainOutcome) (s : EmergencyStop)
        → 0 < progress_at s
        → n < progress_at s + length os
        → progress_at (drain_all n ctx os s) ≡ suc n
    unfolding drain_all
    drain_all-progress [] s h bound = ground (arith, progress_at-bound s)
    drain_all-progress (o ∷ os) s h bound =
        ground
          (arith, record_drain-progress o s, drain_all-progress os (record_drain_attempt n ctx o s))

    halted_weight :
        (s : EmergencyStop) → progress_at s ≡ suc n → weight_at severity_of k s.latches ≡ 2
    unfolding weight_at
    halted_weight s h = ground arith

    halted_of_progress :
        (s : EmergencyStop) → progress_at s ≡ suc n → is_tripped (some ctx) s ≡ true
    unfolding is_tripped
    halted_of_progress s h =
        let worst : 2 ≤ severity (state (some ctx) s) = ground (
          arith,
          severity-state ctx s,
          le-worst_at k (context_keys ctx) s.latches applies,
          halted_weight s,
        ) in
        ground arith

    trip-progress :
        (reason : String) (scope : EmergencyScope) (ts : ℕ) (s : EmergencyStop)
        → scope_key scope ≡ k
        → 0 < progress_at (trip reason scope ts s)
    unfolding trip is_tripped_at weight_at
    trip-progress reason scope ts s same = ground (
      arith,
      eq_iff (scope_key scope) k,
      weight_at-set_latch (progress n) (scope_key scope) k
          (record {
            state = draining;
            reason = reason;
            event_id = some (suc s.db.last_id);
            attempts = 0;
          })
          s.latches,
    )

  -- A drain ends. With a limit of at least one attempt, once a scope has been tripped, as many
  -- drain attempts as the limit says, by a context that the scope applies to and whatever each of
  -- them comes to, leave the context HALTED.
  pub drain_ends :
      (reason : String) (scope : EmergencyScope) (ts : ℕ) (outcomes : List DrainOutcome)
      (s : EmergencyStop)
      → contains (scope_key scope) (context_keys ctx) ≡ true
      → n ≤ length outcomes
      → is_tripped (some ctx) (drain_all n ctx outcomes (trip reason scope ts s)) ≡ true
  drain_ends reason scope ts outcomes s applies enough =
      let fresh : 0 < progress_at (scope_key scope) applies (trip reason scope ts s) =
        trip-progress (scope_key scope) applies reason scope ts s refl in
      halted_of_progress (scope_key scope) applies _ (
        drain_all-progress (scope_key scope) applies outcomes (trip reason scope ts s) fresh
          (ground arith))
