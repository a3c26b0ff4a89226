-- ===== src/Risk/Emergency/Latches.antt =====
-- The state of src/risk/emergency.ts: the latches, the rows of risk_events, and their writes.
use Prim.Native.String.{◌++◌ as cat}
use lp_agent.Prelude.{
  ℕ, suc, String, Bool, true, false, ◌&&◌, Option, none, some, List, [], ◌∷◌, ◌++◌, ◌==◌, ◌===◌,
  if◌then◌else◌,
}

pub data EmergencyState : Type 0 where
  armed draining halted : EmergencyState

pub data EmergencyScope : Type 0 where
  global : EmergencyScope
  pool pm : String → EmergencyScope

pub record EmergencyContext : Type 0 where
  pub pool_id : Option String
  pub pm_id : Option String

-- Of the outcome of a drain attempt, what the state machine reads.
pub record DrainOutcome : Type 0 where
  pub position_empty : Bool

pub record Latch : Type 0 where
  pub state : EmergencyState
  pub reason : String
  pub event_id : Option ℕ
  pub attempts : ℕ

-- An entry of the map of latches.
pub record Entry : Type 0 where
  pub key : String
  pub latch : Latch

abbrev pub entry_key : Entry → String
entry_key e = e.key

-- A row of `risk_events`.
pub record RiskEvent : Type 0 where
  pub id : ℕ
  pub pool_id : Option String
  pub pm_id : Option String
  pub ts_ms : ℕ
  pub level : String
  pub kind : String
  pub metric : String
  pub threshold : ℕ
  pub observed : ℕ
  pub action : String
  pub resolved_at_ms : Option ℕ

-- The table, in the order of its ids, and the last id that AUTOINCREMENT gave.
pub record RiskDb : Type 0 where
  pub events : List RiskEvent
  pub last_id : ℕ

-- The running process: its latches, and the database.
pub record EmergencyStop : Type 0 where
  pub latches : List Entry
  pub db : RiskDb

unfoldable pub scope_key : EmergencyScope → String
scope_key global = "global"
scope_key (pool pool_id) = cat "pool:" pool_id
scope_key (pm pm_id) = cat "pm:" pm_id

abbrev pub severity : EmergencyState → ℕ
severity armed = 0
severity draining = 1
severity halted = 2

-- ---- the map of latches

unfoldable pub set_latch : String → Latch → List Entry → List Entry
set_latch k l [] = (record { key = k; latch = l }) ∷ []
set_latch k l (e ∷ es) =
    if e.key == k then (record { key = k; latch = l }) ∷ es else e ∷ set_latch k l es

unfoldable pub delete_latch : String → List Entry → List Entry
delete_latch k [] = []
delete_latch k (e ∷ es) = if e.key == k then es else e ∷ delete_latch k es

-- ---- risk_events

unfoldable pub insert_risk_event :
    Option String → Option String → ℕ → String → ℕ → String → RiskDb → RiskDb
insert_risk_event pool_id pm_id ts kind observed action db = record {
  events =
      db.events
      ++ (record {
        id = suc db.last_id;
        pool_id = pool_id;
        pm_id = pm_id;
        ts_ms = ts;
        level = "L3";
        kind = kind;
        metric = "emergency_stop";
        threshold = 0;
        observed = observed;
        action = action;
        resolved_at_ms = none;
      })
        ∷ [];
  last_id = suc db.last_id;
}

-- UPDATE risk_events SET resolved_at_ms = ? WHERE id = ?
unfoldable pub resolve_event : ℕ → ℕ → List RiskEvent → List RiskEvent
resolve_event ts id [] = []
resolve_event ts id (r ∷ rs) =
    (if r.id === id then record r { resolved_at_ms = some ts } else r) ∷ resolve_event ts id rs

-- WHERE kind = 'emergency_stop' AND resolved_at_ms IS NULL
abbrev pub is_unresolved : RiskEvent → Bool
is_unresolved r =
    (r.kind == "emergency_stop") && elim r.resolved_at_ms [ none ↦ true | some _ ↦ false ]

unfoldable pub unresolved : List RiskEvent → List RiskEvent
unresolved [] = []
unresolved (r ∷ rs) = if is_unresolved r then r ∷ unresolved rs else unresolved rs
