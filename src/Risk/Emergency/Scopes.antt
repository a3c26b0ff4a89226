-- ===== src/Risk/Emergency/Scopes.antt =====
-- How src/risk/emergency.ts starts from the database, and which latches apply to a context.
use Prim.Native.String.{◌++◌ as cat}
use lp_agent.Prelude.{
  ℕ, String, Bool, true, false, Option, none, some, List, [], ◌∷◌, ◌++◌, ◌==◌, leb, if◌then◌else◌,
}
use lp_agent.Table.{select}
use lp_agent.Risk.Emergency.Latches.{
  EmergencyContext, EmergencyScope, EmergencyState, EmergencyStop, Entry, Latch, RiskDb, RiskEvent,
  entry_key, scope_key, set_latch, severity, unresolved, armed, draining, halted, global, pool, pm,
}

-- A column or an argument as a condition: null, undefined and the empty text are false.
abbrev pub truthy : Option String → Option String
truthy none = none
truthy (some x) = if x == "" then none else some x

unfoldable pub scope_of_row : RiskEvent → EmergencyScope
scope_of_row r = elim (truthy r.pm_id) [
  | some pm_id ↦ pm pm_id
  | none ↦ elim (truthy r.pool_id) [ some pool_id ↦ pool pool_id | none ↦ global ]
]

-- `number_to_string` is the id's text in the reason.
module _ (number_to_string : ℕ → String) where
  abbrev pub rehydrated_latch : RiskEvent → Latch
  rehydrated_latch r = record {
    state = halted;
    reason = cat "rehydrated:risk_event:" (number_to_string r.id);
    event_id = some r.id;
    attempts = 0;
  }

  unfoldable pub rehydrate : List RiskEvent → List Entry → List Entry
  rehydrate [] latches = latches
  rehydrate (r ∷ rs) latches =
      rehydrate rs (set_latch (scope_key (scope_of_row r)) (rehydrated_latch r) latches)

  unfoldable pub create_emergency_stop : RiskDb → EmergencyStop
  create_emergency_stop db = record { latches = rehydrate (unresolved db.events) []; db = db }

-- ---- scope resolution

abbrev pub is_tripped_state : EmergencyState → Bool
is_tripped_state armed = false
is_tripped_state _ = true

abbrev pub key_if : (String → EmergencyScope) → Option String → List String → List String
key_if scope o rest = elim (truthy o) [ none ↦ rest | some x ↦ scope_key (scope x) ∷ rest ]

unfoldable pub context_keys : EmergencyContext → List String
context_keys ctx = "global" ∷ key_if pool ctx.pool_id (key_if pm ctx.pm_id [])

unfoldable pub hits : List String → List Entry → List Entry
hits [] latches = []
hits (k ∷ ks) latches = elim (select entry_key k latches) [
  | none ↦ hits ks latches
  | some e ↦ if is_tripped_state e.latch.state then e ∷ hits ks latches else hits ks latches
]

-- Without a context: every other latch too.
unfoldable pub add_others : List Entry → List Entry → List Entry
add_others out [] = out
add_others out (e ∷ es) =
    add_others
      (if is_tripped_state e.latch.state
        then elim (select entry_key e.key out) [ none ↦ out ++ e ∷ [] | some _ ↦ out ]
        else out)
      es

-- The stable sort, most severe first.
unfoldable pub insert_by_severity : Entry → List Entry → List Entry
insert_by_severity e [] = e ∷ []
insert_by_severity e (x ∷ xs) =
    if leb (severity x.latch.state) (severity e.latch.state)
    then e ∷ x ∷ xs
    else x ∷ insert_by_severity e xs

unfoldable pub sort_by_severity : List Entry → List Entry
sort_by_severity [] = []
sort_by_severity (e ∷ es) = insert_by_severity e (sort_by_severity es)

unfoldable pub applicable : Option EmergencyContext → EmergencyStop → List Entry
applicable none s = sort_by_severity (add_others (hits ("global" ∷ []) s.latches) s.latches)
applicable (some ctx) s = sort_by_severity (hits (context_keys ctx) s.latches)

unfoldable pub first_state : List Entry → EmergencyState
first_state [] = armed
first_state (e ∷ es) = e.latch.state

unfoldable pub state : Option EmergencyContext → EmergencyStop → EmergencyState
state ctx s = first_state (applicable ctx s)

unfoldable pub is_tripped : Option EmergencyContext → EmergencyStop → Bool
is_tripped ctx s = elim (state ctx s) [ halted ↦ true | _ ↦ false ]

unfoldable pub is_draining : Option EmergencyContext → EmergencyStop → Bool
is_draining ctx s = elim (state ctx s) [ draining ↦ true | _ ↦ false ]
