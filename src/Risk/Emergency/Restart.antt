-- ===== src/Risk/Emergency/Restart.antt =====
-- What a restart does to the latches of src/risk/emergency.ts: it forgets none of them.
use lp_agent.Prelude.{
  ℕ, suc, ◌≤◌, ◌<◌, String, ◌≡◌, refl, ◌≢◌, Bool, true, false, ◌&&◌, ◌||◌, none, some, List, [],
  ◌∷◌, ◌++◌, ◌==◌, if◌then◌else◌, arith, eq_iff, Bool-cases, inl, inr, All,
}
use lp_agent.Table.{select, update}
use lp_agent.Risk.Emergency.{
  armed, draining, halted, EmergencyScope, global, pool, pm, EmergencyContext, Entry, entry_key,
  EmergencyStop, RiskEvent, RiskDb, scope_key, scope_of_row, is_unresolved, unresolved,
  rehydrated_latch, rehydrate, create_emergency_stop, state, context_keys, set_latch, DrainOutcome,
  drain_step, drain_each, trip, record_drain_attempt, is_tripped_at, applicable, insert_risk_event,
  pool_of, pm_of,
}
use lp_agent.Risk.Emergency.Severity.{
  weight_at, severity_of, worst_at, severity-state, weight_at-set_latch, drain_step-key,
}
use lp_agent.Risk.Emergency.Latching.{StopCall, trip_call, drain_call, run_call, run_calls}

-- The table has an unresolved stop of this scope.
has_open : String → List RiskEvent → Bool
has_open k [] = false
has_open k (r ∷ rs) = (is_unresolved r && (scope_key (scope_of_row r) == k)) || has_open k rs

has_open-append :
    (k : String) (rs : List RiskEvent) (r : RiskEvent)
    → has_open k (rs ++ r ∷ [])
      ≡ (has_open k rs || (is_unresolved r && (scope_key (scope_of_row r) == k)))
unfolding has_open
has_open-append k [] r = ground arith
has_open-append k (x ∷ xs) r = ground (arith, has_open-append k xs r)

-- An id that names something.
abbrev pub IsNamed : EmergencyScope → Type 0
IsNamed global = Unit
IsNamed (pool pool_id) = pool_id ≢ ""
IsNamed (pm pm_id) = pm_id ≢ ""

abbrev pub CallIsNamed : StopCall → Type 0
CallIsNamed (trip_call _ scope _) = IsNamed scope
CallIsNamed (drain_call _ _) = Unit

module _ (number_to_string : ℕ → String) where
  -- Rehydrating sets the latch of each row, and every latch that it sets is HALTED.
  rehydrate-weight :
      (k : String) (rs : List RiskEvent) (latches : List Entry)
      → weight_at severity_of k (rehydrate number_to_string (unresolved rs) latches)
        ≡ (if has_open k rs then 2 else weight_at severity_of k latches)
  unfolding rehydrate unresolved has_open
  rehydrate-weight k [] latches = refl
  rehydrate-weight k (r ∷ rs) latches = elim (Bool-cases (is_unresolved r)) [
    | inr resolved ↦ ground (arith, rehydrate-weight k rs latches)
    | inl open_row ↦ ground (
      arith,
      rehydrate-weight k rs
          (set_latch (scope_key (scope_of_row r)) (rehydrated_latch number_to_string r) latches),
      weight_at-set_latch severity_of (scope_key (scope_of_row r)) k
          (rehydrated_latch number_to_string r) latches,
    )
  ]

  create-weight :
      (k : String) (db : RiskDb)
      → weight_at severity_of k (create_emergency_stop number_to_string db).latches
        ≡ (if has_open k db.events then 2 else 0)
  unfolding create_emergency_stop weight_at select
  create-weight k db = rehydrate-weight k db.events []

-- Each latch that is tripped has its row in the table.
abbrev IsRecorded : EmergencyStop → Type 0
IsRecorded s = (k : String) → 0 < weight_at severity_of k s.latches → has_open k s.db.events ≡ true

drain_step-positive :
    (n : ℕ) (o : DrainOutcome) (e : Entry) → 0 < severity_of (drain_step n o e) → 0 < severity_of e
unfolding drain_step
drain_step-positive n o e h = ground arith

update-positive :
    (n : ℕ) (o : DrainOutcome) (j k : String) (xs : List Entry)
    → 0 < weight_at severity_of k (update entry_key j (drain_step n o) xs)
    → 0 < weight_at severity_of k xs
unfolding weight_at select update
update-positive n o j k [] h = h
update-positive n o j k (x ∷ xs) h =
    ground (arith, drain_step-key n o x, drain_step-positive n o x, update-positive n o j k xs)

drain_each-positive :
    (n : ℕ) (o : DrainOutcome) (k : String) (es xs : List Entry)
    → 0 < weight_at severity_of k (drain_each n o es xs)
    → 0 < weight_at severity_of k xs
unfolding drain_each
drain_each-positive n o k [] xs h = h
drain_each-positive n o k (e ∷ es) xs h =
    update-positive n o e.key k xs
      (drain_each-positive n o k es (update entry_key e.key (drain_step n o) xs) h)

-- The row of a trip rehydrates to the scope that was tripped.
row_scope :
    (scope : EmergencyScope) (r : RiskEvent)
    → IsNamed scope
    → r.pool_id ≡ pool_of scope
    → r.pm_id ≡ pm_of scope
    → scope_of_row r ≡ scope
unfolding scope_of_row
row_scope global r named a b = ground arith
row_scope (pool x) r named a b = ground (arith, eq_iff x "")
row_scope (pm x) r named a b = ground (arith, eq_iff x "")

trip-IsRecorded :
    (reason : String) (scope : EmergencyScope) (ts : ℕ) (s : EmergencyStop)
    → IsNamed scope
    → IsRecorded s
    → IsRecorded (trip reason scope ts s)
unfolding trip insert_risk_event
trip-IsRecorded reason scope ts s named old k h =
    elim (Bool-cases (is_tripped_at (scope_key scope) s.latches)) [
      | inl already ↦ ground (arith, old k)
      | inr fresh ↦
          let row : RiskEvent = record {
            id = suc s.db.last_id;
            pool_id = pool_of scope;
            pm_id = pm_of scope;
            ts_ms = ts;
            level = "L3";
            kind = "emergency_stop";
            metric = "emergency_stop";
            threshold = 0;
            observed = 1;
            action = "drain_position_then_halt";
            resolved_at_ms = none;
          } in
          ground (
            arith,
            old k,
            has_open-append k s.db.events row,
            row_scope scope row named refl refl,
            weight_at-set_latch severity_of (scope_key scope) k
                (record {
                  state = draining;
                  reason = reason;
                  event_id = some (suc s.db.last_id);
                  attempts = 0;
                })
                s.latches,
          )
    ]

module _ (n : ℕ) where
  run_call-IsRecorded :
      (c : StopCall) (s : EmergencyStop)
      → CallIsNamed c
      → IsRecorded s
      → IsRecorded (run_call n c s)
  unfolding run_call record_drain_attempt
  run_call-IsRecorded (trip_call reason scope ts) s named old k h =
      trip-IsRecorded reason scope ts s named old k h
  run_call-IsRecorded (drain_call ctx o) s named old k h =
      old k (drain_each-positive n o k (applicable (some ctx) s) s.latches h)

  run_calls-IsRecorded :
      (cs : List StopCall) (s : EmergencyStop)
      → All CallIsNamed cs
      → IsRecorded s
      → IsRecorded (run_calls n cs s)
  unfolding run_calls
  run_calls-IsRecorded [] s named old = old
  run_calls-IsRecorded (c ∷ cs) s named old =
      run_calls-IsRecorded cs (run_call n c s) named.1 (run_call-IsRecorded c s named.0 old)

worst-restart :
    (ks : List String) (xs ys : List Entry)
    → ((k : String) → 0 < weight_at severity_of k xs → weight_at severity_of k ys ≡ 2)
    → 0 < worst_at ks xs
    → 2 ≤ worst_at ks ys
unfolding worst_at
worst-restart [] xs ys h p = ground arith
worst-restart (k ∷ ks) xs ys h p = ground (arith, h k, worst-restart ks xs ys h)

module _ (number_to_string : ℕ → String) where
  create-IsRecorded : (db : RiskDb) → IsRecorded (create_emergency_stop number_to_string db)
  unfolding create_emergency_stop
  create-IsRecorded db k h = ground (arith, create-weight number_to_string k db)

  -- A restart forgets no stop. Take a process that started from any database and then saw any trips
  -- (on pools and managers whose ids are not empty) and drain attempts: for each context that is
  -- not ARMED when it dies, the process that starts next from its database is HALTED.
  pub restart_keeps_stop :
      (max_attempts : ℕ) (db : RiskDb) (calls : List StopCall) (ctx : EmergencyContext)
      → All CallIsNamed calls
      → let died = run_calls max_attempts calls (create_emergency_stop number_to_string db) in
        state (some ctx) died ≢ armed
        → state (some ctx) (create_emergency_stop number_to_string died.db) ≡ halted
  restart_keeps_stop n db calls ctx named stopped =
      let died : EmergencyStop = run_calls n calls (create_emergency_stop number_to_string db) in
      let next : EmergencyStop = create_emergency_stop number_to_string died.db in
      let recorded : IsRecorded died =
        run_calls-IsRecorded n calls _ named (create-IsRecorded db) in
      let worst : 2 ≤ worst_at (context_keys ctx) next.latches =
        worst-restart (context_keys ctx) died.latches next.latches
          (λ k h. ground (arith, recorded k h, create-weight number_to_string k died.db))
          (ground (arith, severity-state ctx died)) in
      ground (arith, severity-state ctx next)
