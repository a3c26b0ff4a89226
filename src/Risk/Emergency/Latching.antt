-- ===== src/Risk/Emergency/Latching.antt =====
-- The latches of src/risk/emergency.ts while the process runs: they only become more severe, a trip
-- reaches the contexts of its scope alone.
use lp_agent.Prelude.{
  ℕ, suc, ◌≤◌, String, ◌≡◌, refl, Bool, true, false, ◌||◌, some, List, [], ◌∷◌, ◌==◌, if◌then◌else◌,
  arith, eq_iff,
}
use lp_agent.Risk.Emergency.{
  draining, EmergencyScope, EmergencyContext, Entry, EmergencyStop, severity, scope_key, applicable,
  state, context_keys, DrainOutcome, drain_step, trip, record_drain_attempt, is_tripped_at,
}
use lp_agent.Risk.Emergency.Severity.{
  larger, weight_at, severity_of, worst_at, severity-state, worst_at_mono, weight_at-set_latch,
  weight_at-drain_each,
}

-- What the monitor and the rebalancer ask of the emergency stop.
pub data StopCall : Type 0 where
  trip_call : String → EmergencyScope → ℕ → StopCall
  drain_call : EmergencyContext → DrainOutcome → StopCall

-- `max_attempts` is `drainMaxAttempts`.
module _ (max_attempts : ℕ) where
  unfoldable pub run_call : StopCall → EmergencyStop → EmergencyStop
  run_call (trip_call reason scope ts) s = trip reason scope ts s
  run_call (drain_call ctx outcome) s = record_drain_attempt max_attempts ctx outcome s

  unfoldable pub run_calls : List StopCall → EmergencyStop → EmergencyStop
  run_calls [] s = s
  run_calls (c ∷ cs) s = run_calls cs (run_call c s)

unfoldable pub contains : String → List String → Bool
contains k [] = false
contains k (j ∷ js) = (k == j) || contains k js

module _ (n : ℕ) where
  drain_step-severity :
      (o : DrainOutcome) (e : Entry) → severity_of e ≤ severity_of (drain_step n o e)
  unfolding drain_step
  drain_step-severity o e = ground arith

  trip-severity :
      (reason : String) (scope : EmergencyScope) (ts : ℕ) (s : EmergencyStop) (k : String)
      → weight_at severity_of k s.latches ≤ weight_at severity_of k (trip reason scope ts s).latches
  unfolding trip is_tripped_at weight_at
  trip-severity reason scope ts s k = ground (
    arith,
    eq_iff (scope_key scope) k,
    weight_at-set_latch severity_of (scope_key scope) k
        (record {
          state = draining;
          reason = reason;
          event_id = some (suc s.db.last_id);
          attempts = 0;
        })
        s.latches,
  )

  run_call-severity :
      (c : StopCall) (s : EmergencyStop) (k : String)
      → weight_at severity_of k s.latches ≤ weight_at severity_of k (run_call n c s).latches
  unfolding run_call record_drain_attempt
  run_call-severity (trip_call reason scope ts) s k = trip-severity reason scope ts s k
  run_call-severity (drain_call ctx o) s k =
      weight_at-drain_each severity_of n o (drain_step-severity o) k (applicable (some ctx) s)
        s.latches

  run_call-state :
      (ctx : EmergencyContext) (c : StopCall) (s : EmergencyStop)
      → severity (state (some ctx) s) ≤ severity (state (some ctx) (run_call n c s))
  run_call-state ctx c s = ground (
    arith,
    severity-state ctx s,
    severity-state ctx (run_call n c s),
    worst_at_mono (context_keys ctx) s.latches (run_call n c s).latches (run_call-severity c s),
  )

  -- No sequence of trips and drain attempts, on any scopes, makes the state of a context less
  -- severe: a draining agent does not go back to work, and a halted one stays halted.
  pub never_less_severe :
      (ctx : EmergencyContext) (calls : List StopCall) (s : EmergencyStop)
      → severity (state (some ctx) s) ≤ severity (state (some ctx) (run_calls n calls s))
  unfolding run_calls
  never_less_severe ctx [] s = ground arith
  never_less_severe ctx (c ∷ cs) s =
      ground (arith, run_call-state ctx c s, never_less_severe ctx cs (run_call n c s))

-- ---- trips

larger-raise :
    (c d : Bool) (a b : ℕ)
    → larger (if c then larger 1 a else a) (if d then larger 1 b else b)
      ≡ (if c || d then larger 1 (larger a b) else larger a b)
larger-raise true true a b = ground arith
larger-raise true false a b = ground arith
larger-raise false true a b = ground arith
larger-raise false false a b = refl

module _ (reason : String) (scope : EmergencyScope) (ts : ℕ) (s : EmergencyStop) where
  trip-weight :
      (k : String)
      → weight_at severity_of k (trip reason scope ts s).latches ≡ (
          if scope_key scope == k
          then larger 1 (weight_at severity_of k s.latches)
          else weight_at severity_of k s.latches)
  unfolding trip is_tripped_at weight_at
  trip-weight k = ground (
    arith,
    eq_iff (scope_key scope) k,
    weight_at-set_latch severity_of (scope_key scope) k
        (record {
          state = draining;
          reason = reason;
          event_id = some (suc s.db.last_id);
          attempts = 0;
        })
        s.latches,
  )

  trip-worst :
      (ks : List String)
      → worst_at ks (trip reason scope ts s).latches ≡ (
          if contains (scope_key scope) ks
          then larger 1 (worst_at ks s.latches)
          else worst_at ks s.latches)
  unfolding worst_at contains
  trip-worst [] = refl
  trip-worst (k ∷ ks) =
      rw (trip-weight k, trip-worst ks)
        (larger-raise (scope_key scope == k) (contains (scope_key scope) ks)
          (weight_at severity_of k s.latches) (worst_at ks s.latches))

  -- A trip is felt exactly where its scope applies: there the state becomes at least DRAINING, and
  -- stays HALTED where it was; the state of every other context is what it was.
  pub trip_reaches_scope :
      (ctx : EmergencyContext)
      → severity (state (some ctx) (trip reason scope ts s)) ≡ (
          if contains (scope_key scope) (context_keys ctx)
          then larger 1 (severity (state (some ctx) s))
          else severity (state (some ctx) s))
  trip_reaches_scope ctx = ground (
    arith,
    severity-state ctx s,
    severity-state ctx (trip reason scope ts s),
    trip-worst (context_keys ctx),
  )
