-- ===== src/Risk/Monitor/Stopped.antt =====
-- How severe the emergency stop is along the calls of src/risk/monitor.ts: a condition of L3 trips the
-- pool, and no call makes the stop less severe.
use lp_agent.Prelude.{
  ℕ, ◌≤◌, ◌<◌, String, ◌≡◌, refl, sym, subst, ap, ◌∙◌, inl, inr, Bool, true, false, not, ◌&&◌, ◌||◌,
  Bool-cases, Option, none, some, length, ◌+◌, if◌then◌else◌, List, [], ◌∷◌, ◌==◌, eq_refl, leb,
  arith,
}
use native.Mathlib.Nat.{le_trans}
use lp_agent.Prelude.Floats.{Floats}
use lp_agent.Risk.Circuits.{SourceStalenessInput, keep_if}
use lp_agent.Risk.Emergency.{
  EmergencyContext, EmergencyStop, armed, pool, severity, state, is_tripped, is_draining, trip,
  scope_key, context_keys,
}
use lp_agent.Risk.Emergency.Severity.{worst_at, severity-state}
use lp_agent.Risk.Emergency.Latching.{
  StopCall, trip_call, run_call, run_calls, contains, trip_reaches_scope, never_less_severe,
}
use lp_agent.Risk.Monitor.State.{
  RiskThresholds, L3Thresholds, PoolRiskState, RiskNote, RiskMonitor, persist_risk_event,
  persist_all, pool_state, put_state,
}
use lp_agent.Risk.Monitor.Observe.{observe_for_pool, observe_source_staleness, set_24h_pnl}
use lp_agent.Risk.Monitor.Trips.{
  TickInput, context_of, recent_l2, is_unreadable, repeated_l2, trip_pool, evaluate_armed,
  evaluate_l3, is_armed,
}
use lp_agent.Risk.Monitor.PreTick.{RiskVeto, emergency, drain, veto_of, check_pre_tick}
use lp_agent.Risk.Monitor.Calls.{
  MonitorCall, observe, sample, set_pnl, tick, stop_call, run_one, run_monitor,
}

-- How severe the emergency stop is for a context.
abbrev pub stop_severity : EmergencyContext → EmergencyStop → ℕ
stop_severity ctx s = severity (state (some ctx) s)

-- The latches alone decide it.
same_latches :
    (ctx : EmergencyContext) (s s' : EmergencyStop)
    → s.latches ≡ s'.latches
    → stop_severity ctx s ≡ stop_severity ctx s'
same_latches ctx s s' e =
    severity-state ctx s ∙ ap (worst_at (context_keys ctx)) e ∙ sym (severity-state ctx s')

pub same_mono :
    (ctx : EmergencyContext) (s s' : EmergencyStop)
    → s'.latches ≡ s.latches
    → stop_severity ctx s ≤ stop_severity ctx s'
same_mono ctx s s' e = omega (arith, same_latches ctx s s' (sym e))

-- The contexts of the PMs of a pool.
context-contains :
    (input : TickInput)
    → input.pool_id == "" ≡ false
    → contains (scope_key (pool input.pool_id)) (context_keys (context_of input)) ≡ true
unfolding contains context_keys scope_key
context-contains input h = rw h (ground (arith, eq_refl (scope_key (pool input.pool_id))))

persist_all-latches :
    {F : Type 0} (now : ℕ) (ns : List (RiskNote F)) (m : RiskMonitor F)
    → (persist_all now ns m).stop.latches ≡ m.stop.latches
unfolding persist_all persist_risk_event
persist_all-latches now [] m = refl
persist_all-latches now (n ∷ ns) m = persist_all-latches now ns (persist_risk_event now n m)

-- A veto of L3.
abbrev pub IsStop : {F : Type 0} → Option (RiskVeto F) → Type 0
IsStop (some (emergency reason)) = Unit
IsStop (some (drain reason)) = Unit
IsStop _ = ⊥

-- How many of the times lie within the window before `now`.
abbrev entered_since : ℕ → ℕ → List ℕ → ℕ
entered_since now window [] = 0
entered_since now window (t ∷ ts) =
    (if leb now (t + window) then 1 else 0) + entered_since now window ts

entered_since_lem :
    (now window : ℕ) (ts : List ℕ) → length (recent_l2 now window ts) ≡ entered_since now window ts
unfolding keep_if
entered_since_lem now window [] = refl
entered_since_lem now window (t ∷ ts) = ground (arith, entered_since_lem now window ts)

-- The last sample, if there is one, found the Cetus feed older than the outage.
abbrev is_silent : ℕ → Option SourceStalenessInput → Bool
is_silent outage_ms none = false
is_silent outage_ms (some ages) = not (leb ages.cetus outage_ms)

is_silent_lem :
    (outage_ms : ℕ) (x : Option SourceStalenessInput)
    → is_unreadable outage_ms x ≡ is_silent outage_ms x
is_silent_lem outage_ms none = refl
is_silent_lem outage_ms (some ages) = ground arith

module _ {F : Type 0} (num : Floats F) (thresholds : RiskThresholds F) (l3 : L3Thresholds F) where
  pub put_state-stop :
      (p : String) (s : PoolRiskState F) (m : RiskMonitor F) → (put_state num p s m).stop ≡ m.stop
  unfolding put_state
  put_state-stop p s m = refl

  -- One of the conditions of L3: EXTREME entered as often as the limit within the window, the
  -- pool's own feed on Cetus silent for longer than the outage while the PM has bins, or the PnL
  -- below the catastrophic threshold.
  abbrev pub trips : ℕ → TickInput → PoolRiskState F → Bool
  trips now input risk =
      leb l3.repeated_l2_count
        (entered_since now l3.repeated_l2_window_ms risk.l2_entered_timestamps)
      || (is_silent l3.outage_ms risk.latest_source_staleness && input.position_open)
      || num.gt l3.pnl_pct risk.latest_24h_pnl

  -- The same by the code's own tests.
  abbrev trips_by_code : ℕ → TickInput → PoolRiskState F → Bool
  trips_by_code now input risk =
      leb l3.repeated_l2_count (repeated_l2 num l3 now risk)
      || (is_unreadable l3.outage_ms risk.latest_source_staleness && input.position_open)
      || num.gt l3.pnl_pct risk.latest_24h_pnl

  trips_by_code_lem :
      (now : ℕ) (input : TickInput) (risk : PoolRiskState F)
      → trips_by_code now input risk ≡ trips now input risk
  trips_by_code_lem now input risk =
      rw
        (
          entered_since_lem now l3.repeated_l2_window_ms risk.l2_entered_timestamps,
          is_silent_lem l3.outage_ms risk.latest_source_staleness,
        )
        refl

  trip-severity_pos :
      (reason : String) (input other : TickInput) (now : ℕ) (s : EmergencyStop)
      → input.pool_id == "" ≡ false
      → other.pool_id ≡ input.pool_id
      → 0 < stop_severity (context_of other) (trip reason (pool input.pool_id) now s)
  trip-severity_pos reason input other now s h e =
      let c : contains (scope_key (pool input.pool_id)) (context_keys (context_of other)) ≡ true =
        subst (λ p. contains (scope_key (pool p)) (context_keys (context_of other)) ≡ true) e
          (context-contains other (subst (λ p. p == "" ≡ false) (sym e) h)) in
      rw (trip_reaches_scope reason (pool input.pool_id) now s (context_of other), c) (ground arith)

  trip_pool-severity :
      (now : ℕ) (input other : TickInput) (note : RiskNote F) (reason : String) (m : RiskMonitor F)
      → input.pool_id == "" ≡ false
      → other.pool_id ≡ input.pool_id
      → 0 < stop_severity (context_of other) (trip_pool num l3 now input note reason m).stop
  unfolding trip_pool
  trip_pool-severity now input other note reason m h e =
      trip-severity_pos reason input other now (persist_risk_event now note m).stop h e

  pub armed-severity :
      (now : ℕ) (input other : TickInput) (risk : PoolRiskState F) (m : RiskMonitor F)
      → input.pool_id == "" ≡ false
      → other.pool_id ≡ input.pool_id
      → trips now input risk ≡ true
      → 0 < stop_severity (context_of other) (evaluate_armed num l3 now input risk m).stop
  unfolding evaluate_armed
  armed-severity now input other risk m h e holds =
      let t = trips_by_code_lem now input risk ∙ holds in
      elim (Bool-cases (leb l3.repeated_l2_count (repeated_l2 num l3 now risk))) [
        | inl a ↦ rw a (trip_pool-severity now input other _ _ m h e)
        | inr a ↦
            rw a
              (elim (Bool-cases
                (is_unreadable l3.outage_ms risk.latest_source_staleness && input.position_open)) [
                  | inl b ↦ rw b (trip_pool-severity now input other _ _ m h e)
                  | inr b ↦ rw b (elim (Bool-cases (num.gt l3.pnl_pct risk.latest_24h_pnl)) [
                    | inl d ↦ rw d (trip_pool-severity now input other _ _ m h e)
                    | inr d ↦ absurd (ground (arith, a, b, d, t))
                  ])
                ])
      ]

  -- Without a condition nothing happens.
  pub armed_quiet :
      (now : ℕ) (input : TickInput) (risk : PoolRiskState F) (m : RiskMonitor F)
      → trips now input risk ≡ false
      → evaluate_armed num l3 now input risk m ≡ m
  unfolding evaluate_armed
  armed_quiet now input risk m quiet =
      let t = trips_by_code_lem now input risk ∙ quiet in
      let a : leb l3.repeated_l2_count (repeated_l2 num l3 now risk) ≡ false = ground (arith, t) in
      let b : is_unreadable l3.outage_ms risk.latest_source_staleness && input.position_open
          ≡ false =
        ground (arith, t) in
      let d : num.gt l3.pnl_pct risk.latest_24h_pnl ≡ false = ground (arith, t) in
      rw a (rw b (rw d refl))

  -- A stop that is not armed vetoes.
  pub veto_of-IsStop :
      (now : ℕ) (input : TickInput) (risk : PoolRiskState F) (m : RiskMonitor F)
      → 0 < stop_severity (context_of input) m.stop
      → IsStop (veto_of num thresholds l3 now input risk m).0
  unfolding veto_of is_tripped is_draining
  veto_of-IsStop now input risk m h = ground arith

  pub evaluate_l3_stopped :
      (now : ℕ) (input : TickInput) (risk : PoolRiskState F) (m : RiskMonitor F)
      → 0 < stop_severity (context_of input) m.stop
      → evaluate_l3 num l3 now input risk m ≡ m
  unfolding evaluate_l3
  evaluate_l3_stopped now input risk m h = ground arith

  pub evaluate_l3_armed :
      (now : ℕ) (input : TickInput) (risk : PoolRiskState F) (m : RiskMonitor F)
      → state (some (context_of input)) m.stop ≡ armed
      → evaluate_l3 num l3 now input risk m ≡ evaluate_armed num l3 now input risk m
  unfolding evaluate_l3
  evaluate_l3_armed now input risk m h = rw h refl

  -- A veto writes at most a row.
  pub veto_of-latches :
      (now : ℕ) (input : TickInput) (risk : PoolRiskState F) (m : RiskMonitor F)
      → (veto_of num thresholds l3 now input risk m).1.stop.latches ≡ m.stop.latches
  unfolding veto_of persist_risk_event
  veto_of-latches now input risk m = ground arith

  -- ---- no call makes the stop less severe

  trip_mono :
      (n : ℕ) (ctx : EmergencyContext) (c : StopCall) (s : EmergencyStop)
      → stop_severity ctx s ≤ stop_severity ctx (run_call n c s)
  trip_mono n ctx c s = unfold run_calls in never_less_severe n ctx (c ∷ []) s

  trip_pool_mono :
      (ctx : EmergencyContext) (now : ℕ) (input : TickInput) (note : RiskNote F) (reason : String)
      (m : RiskMonitor F)
      → stop_severity ctx m.stop ≤ stop_severity ctx (trip_pool num l3 now input note reason m).stop
  unfolding trip_pool run_call persist_risk_event
  trip_pool_mono ctx now input note reason m =
      rw (same_latches ctx m.stop (persist_risk_event now note m).stop refl) (
        trip_mono 0 ctx (trip_call reason (pool input.pool_id) now)
          (persist_risk_event now note m).stop)

  armed_mono :
      (ctx : EmergencyContext) (now : ℕ) (input : TickInput) (risk : PoolRiskState F)
      (m : RiskMonitor F)
      → stop_severity ctx m.stop ≤ stop_severity ctx (evaluate_armed num l3 now input risk m).stop
  unfolding evaluate_armed
  armed_mono ctx now input risk m =
      elim (Bool-cases (leb l3.repeated_l2_count (repeated_l2 num l3 now risk))) [
        | inl a ↦ rw a (trip_pool_mono ctx now input _ _ m)
        | inr a ↦
            rw a
              (elim (Bool-cases
                (is_unreadable l3.outage_ms risk.latest_source_staleness && input.position_open)) [
                  | inl b ↦ rw b (trip_pool_mono ctx now input _ _ m)
                  | inr b ↦ rw b (elim (Bool-cases (num.gt l3.pnl_pct risk.latest_24h_pnl)) [
                    | inl d ↦ rw d (trip_pool_mono ctx now input _ _ m)
                    | inr d ↦ rw d (omega arith)
                  ])
                ])
      ]

  pub evaluate_l3_mono :
      (ctx : EmergencyContext) (now : ℕ) (input : TickInput) (risk : PoolRiskState F)
      (m : RiskMonitor F)
      → stop_severity ctx m.stop ≤ stop_severity ctx (evaluate_l3 num l3 now input risk m).stop
  unfolding evaluate_l3
  evaluate_l3_mono ctx now input risk m =
      elim (Bool-cases (not (is_armed (state (some (context_of input)) m.stop)))) [
        | inl e ↦ rw e (omega arith)
        | inr e ↦ rw e (armed_mono ctx now input risk m)
      ]

  run_one_mono :
      (n : ℕ) (ctx : EmergencyContext) (c : MonitorCall F) (m : RiskMonitor F)
      → stop_severity ctx m.stop ≤ stop_severity ctx (run_one num thresholds l3 n c m).stop
  unfolding run_one observe_for_pool observe_source_staleness set_24h_pnl check_pre_tick put_state
  run_one_mono n ctx (observe now p snapshot pred) m =
      same_mono ctx m.stop _ (persist_all-latches now _ _)
  run_one_mono n ctx (sample now p staleness) m =
      same_mono ctx m.stop _ (persist_all-latches now _ _)
  run_one_mono n ctx (set_pnl p pnl) m = omega arith
  run_one_mono n ctx (tick now input) m =
      le_trans
        (evaluate_l3_mono ctx now input (pool_state num input.pool_id m)
          (put_state num input.pool_id (pool_state num input.pool_id m) m))
        (same_mono ctx _ _ (veto_of-latches now input (pool_state num input.pool_id m) _))
  run_one_mono n ctx (stop_call call) m = trip_mono n ctx call m.stop

  pub run_monitor_mono :
      (n : ℕ) (ctx : EmergencyContext) (cs : List (MonitorCall F)) (m : RiskMonitor F)
      → stop_severity ctx m.stop ≤ stop_severity ctx (run_monitor num thresholds l3 n cs m).stop
  unfolding run_monitor
  run_monitor_mono n ctx [] m = omega arith
  run_monitor_mono n ctx (c ∷ cs) m =
      le_trans (run_one_mono n ctx c m)
        (run_monitor_mono n ctx cs (run_one num thresholds l3 n c m))
