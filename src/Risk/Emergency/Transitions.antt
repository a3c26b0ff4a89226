-- ===== src/Risk/Emergency/Transitions.antt =====
-- The transitions of src/risk/emergency.ts, and the operator's reset in the database.
use Prim.Native.String.{◌++◌ as cat}
use lp_agent.Prelude.{
  ℕ, suc, String, Bool, false, ◌||◌, Option, none, some, List, [], ◌∷◌, ◌==◌, ltb, if◌then◌else◌,
  map,
}
use lp_agent.Table.{select, update}
use lp_agent.Risk.Emergency.Latches.{
  DrainOutcome, EmergencyContext, EmergencyScope, EmergencyStop, Entry, RiskDb, RiskEvent,
  delete_latch, entry_key, insert_risk_event, resolve_event, scope_key, set_latch, unresolved,
  draining, halted, pool, pm,
}
use lp_agent.Risk.Emergency.Scopes.{applicable, is_tripped_state}

unfoldable pub is_tripped_at : String → List Entry → Bool
is_tripped_at k latches = elim (select entry_key k latches) [
  | none ↦ false
  | some e ↦ is_tripped_state e.latch.state
]

abbrev pub pool_of : EmergencyScope → Option String
pool_of (pool pool_id) = some pool_id
pool_of _ = none

abbrev pub pm_of : EmergencyScope → Option String
pm_of (pm pm_id) = some pm_id
pm_of _ = none

unfoldable pub trip : String → EmergencyScope → ℕ → EmergencyStop → EmergencyStop
trip reason scope ts s = if is_tripped_at (scope_key scope) s.latches then s else record {
  latches =
      set_latch (scope_key scope)
        (record {
          state = draining;
          reason = reason;
          event_id = some (suc s.db.last_id);
          attempts = 0;
        })
        s.latches;
  db =
      insert_risk_event (pool_of scope) (pm_of scope) ts "emergency_stop" 1
        "drain_position_then_halt" s.db;
}

-- One latch of the loop of `recordDrainAttempt`.
unfoldable pub drain_step : ℕ → DrainOutcome → Entry → Entry
drain_step max_attempts outcome e = elim e.latch.state [
  | draining ↦
      if outcome.position_empty
      then record e { latch = record (e.latch) { state = halted } }
      else record e {
        latch = record (e.latch) {
          attempts = suc e.latch.attempts;
          state = (if ltb (suc e.latch.attempts) max_attempts then draining else halted);
        };
      }
  | _ ↦ e
]

unfoldable pub drain_each : ℕ → DrainOutcome → List Entry → List Entry → List Entry
drain_each max_attempts outcome [] latches = latches
drain_each max_attempts outcome (e ∷ es) latches =
    drain_each max_attempts outcome es
      (update entry_key e.key (drain_step max_attempts outcome) latches)

unfoldable pub record_drain_attempt :
    ℕ → EmergencyContext → DrainOutcome → EmergencyStop → EmergencyStop
record_drain_attempt max_attempts ctx outcome s = record s {
  latches = drain_each max_attempts outcome (applicable (some ctx) s) s.latches;
}

unfoldable pub tripped : List Entry → List Entry
tripped [] = []
tripped (e ∷ es) = if is_tripped_state e.latch.state then e ∷ tripped es else tripped es

unfoldable pub reset_each : ℕ → List Entry → EmergencyStop → EmergencyStop
reset_each ts [] s = s
reset_each ts (e ∷ es) s = reset_each ts es (record {
  latches = delete_latch e.key s.latches;
  db =
      insert_risk_event none none ts "emergency_stop_reset" 0 (cat "manual_reset:" e.key)
        (record (s.db) {
          events = elim e.latch.event_id [
            | none ↦ s.db.events
            | some id ↦ resolve_event ts id s.db.events
          ];
        });
})

-- `reset`, or nothing where it throws.
unfoldable pub reset : ℕ → EmergencyStop → Option EmergencyStop
reset ts s = elim (tripped s.latches) [ [] ↦ none | e ∷ es ↦ some (reset_each ts (e ∷ es) s) ]

-- ---- resolveEmergencyStopInDb

unfoldable pub resolve_each : ℕ → List RiskEvent → List RiskEvent → List RiskEvent
resolve_each ts [] events = events
resolve_each ts (r ∷ rs) events = resolve_each ts rs (resolve_event ts r.id events)

-- The ids that it resolved and the database it leaves, or nothing where it throws.
module _ (trim : String → String) where
  unfoldable pub resolve_emergency_stop_in_db : String → ℕ → RiskDb → Option (List ℕ × RiskDb)
  resolve_emergency_stop_in_db ack_reason ts db =
      if (ack_reason == "") || (trim ack_reason == "") then none else elim (unresolved db.events) [
        | [] ↦ none
        | r ∷ rs ↦ some (
          map (λ (x : RiskEvent). x.id) (r ∷ rs),
          insert_risk_event none none ts "emergency_stop_reset" 0
              (cat "manual_reset:" (trim ack_reason))
              (record db { events = resolve_each ts (r ∷ rs) db.events }),
        )
      ]
