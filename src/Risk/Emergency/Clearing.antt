-- ===== src/Risk/Emergency/Clearing.antt =====
-- What the operator's reset in the database does to src/risk/emergency.ts: the process that starts
-- next has no latch.
use Prim.Native.String.{◌++◌ as cat}
use lp_agent.Prelude.{
  ◌∙◌, ℕ, String, ◌≡◌, refl, Bool, true, false, ◌||◌, Option, none, some, List, [], ◌∷◌, ◌++◌,
  ◌===◌, arith, All,
}
use lp_agent.Table.{select}
use lp_agent.Risk.Emergency.{
  armed, EmergencyContext, RiskEvent, RiskDb, is_unresolved, unresolved, rehydrate,
  create_emergency_stop, state, context_keys, applicable, hits, sort_by_severity, first_state,
  add_others, insert_risk_event, resolve_event, resolve_each, resolve_emergency_stop_in_db,
}

listed : ℕ → List RiskEvent → Bool
listed id [] = false
listed id (r ∷ rs) = (r.id === id) || listed id rs

abbrev IsListed : List RiskEvent → RiskEvent → Type 0
IsListed rs e = is_unresolved e ≡ true → listed e.id rs ≡ true

resolve_event-All :
    (ts : ℕ) (r : RiskEvent) (rs es : List RiskEvent)
    → All (IsListed (r ∷ rs)) es
    → All (IsListed rs) (resolve_event ts r.id es)
unfolding resolve_event listed
resolve_event-All ts r rs [] a = tt
resolve_event-All ts r rs (e ∷ es) a = (λ h. ground (arith, a.0), resolve_event-All ts r rs es a.1)

none_listed : (es : List RiskEvent) → All (IsListed []) es → unresolved es ≡ []
unfolding unresolved listed
none_listed [] a = refl
none_listed (e ∷ es) a = ground (arith, a.0, none_listed es a.1)

resolve_each-unresolved :
    (ts : ℕ) (rs es : List RiskEvent)
    → All (IsListed rs) es
    → unresolved (resolve_each ts rs es) ≡ []
unfolding resolve_each
resolve_each-unresolved ts [] es a = none_listed es a
resolve_each-unresolved ts (r ∷ rs) es a =
    resolve_each-unresolved ts rs (resolve_event ts r.id es) (resolve_event-All ts r rs es a)

All-listed :
    (es rs : List RiskEvent)
    → ((i : ℕ) → listed i (unresolved es) ≡ true → listed i rs ≡ true)
    → All (IsListed rs) es
unfolding unresolved listed
All-listed [] rs h = tt
All-listed (e ∷ es) rs h =
    (λ u. ground (arith, h e.id), All-listed es rs (λ i p. ground (arith, h i)))

unresolved-append :
    (es : List RiskEvent) (r : RiskEvent)
    → is_unresolved r ≡ false
    → unresolved (es ++ r ∷ []) ≡ unresolved es
unfolding unresolved
unresolved-append [] r h = ground arith
unresolved-append (e ∷ es) r h = ground (arith, unresolved-append es r h)

resolved_all :
    (ts : ℕ) (action : String) (db : RiskDb)
    → unresolved
        (insert_risk_event none none ts "emergency_stop_reset" 0 action
          (record db { events = resolve_each ts (unresolved db.events) db.events })).events
      ≡ []
unfolding insert_risk_event
resolved_all ts action db =
    unresolved-append (resolve_each ts (unresolved db.events) db.events) _ refl
    ∙ resolve_each-unresolved ts (unresolved db.events) db.events
        (All-listed db.events (unresolved db.events) (λ i p. p))

resolved_after :
    (trim : String → String) (ack_reason : String) (ts : ℕ) (db after : RiskDb) (ids : List ℕ)
    → resolve_emergency_stop_in_db trim ack_reason ts db ≡ some (ids, after)
    → unresolved after.events ≡ []
unfolding resolve_emergency_stop_in_db
resolved_after trim ack_reason ts db after ids h =
    ground (arith, resolved_all ts (cat "manual_reset:" (trim ack_reason)) db)

no_latch_armed :
    (ctx : Option EmergencyContext) (db : RiskDb)
    → state ctx (record { latches = []; db = db }) ≡ armed
unfolding state applicable hits sort_by_severity first_state add_others context_keys select
no_latch_armed none db = refl
no_latch_armed (some ctx) db = ground arith

-- The operator's reset in the database lifts every stop: where `resolveEmergencyStopInDb` does not
-- throw, a process that starts from the database it leaves is ARMED in every context, and also
-- where it is asked without a context.
pub resolve_clears :
    (trim : String → String) (number_to_string : ℕ → String) (ack_reason : String) (ts : ℕ)
    (db after : RiskDb) (ids : List ℕ) (ctx : Option EmergencyContext)
    → resolve_emergency_stop_in_db trim ack_reason ts db ≡ some (ids, after)
    → state ctx (create_emergency_stop number_to_string after) ≡ armed
unfolding create_emergency_stop rehydrate
resolve_clears trim number_to_string ack_reason ts db after ids ctx h =
    rw (resolved_after trim ack_reason ts db after ids h, create_emergency_stop)
      (no_latch_armed ctx after)
