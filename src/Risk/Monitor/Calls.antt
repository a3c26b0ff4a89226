-- ===== src/Risk/Monitor/Calls.antt =====
-- Any calls of the monitor of src/risk/monitor.ts, with those that the rebalancer makes of its
-- emergency stop, and what a call does to the state of a pool.
use lp_agent.Prelude.{
  ℕ, String, ◌≡◌, refl, sym, subst, All, ◌∙◌, inl, inr, Bool, true, false, Bool-cases, Option, none,
  some, List, [], ◌∷◌, ◌==◌, eq_iff, arith, if◌then◌else◌,
}
use lp_agent.Prelude.Floats.{Floats}
use lp_agent.Table.{select, update}
use lp_agent.Risk.Emergency.Latching.{StopCall, run_call}
use lp_agent.Risk.Monitor.State.{
  RiskThresholds, L3Thresholds, MonitorSnapshot, MonitorPrediction, StalenessInfo, PoolRiskState,
  RiskNote, PoolEntry, RiskMonitor, entry_pool, persist_risk_event, persist_all, pool_state,
  put_state, put_entry, risk_in,
}
use lp_agent.Risk.Monitor.Levels.{evaluate_l2}
use lp_agent.Risk.Monitor.Observe.{
  observed_state, observe_for_pool, sampled, observe_source_staleness, set_24h_pnl,
}
use lp_agent.Risk.Monitor.Trips.{TickInput, evaluate_armed, evaluate_l3, trip_pool}
use lp_agent.Risk.Monitor.PreTick.{veto_of, check_pre_tick}

-- The clock's answer first, where a call asks for it.
pub data MonitorCall (F : Type 0) : Type 0 where
  observe : ℕ → String → MonitorSnapshot F → Option (MonitorPrediction F) → MonitorCall F
  sample : ℕ → String → StalenessInfo → MonitorCall F
  set_pnl : String → F → MonitorCall F
  tick : ℕ → TickInput → MonitorCall F
  stop_call : StopCall → MonitorCall F

-- `max_attempts` is `drainMaxAttempts`.
module _ {F : Type 0} (num : Floats F) (thresholds : RiskThresholds F) (l3 : L3Thresholds F)
    (max_attempts : ℕ) where
  unfoldable pub run_one : MonitorCall F → RiskMonitor F → RiskMonitor F
  run_one (observe now pool_id snapshot pred) m =
      observe_for_pool num thresholds l3 now pool_id snapshot pred m
  run_one (sample now pool_id staleness) m =
      observe_source_staleness num thresholds l3 now pool_id staleness m
  run_one (set_pnl pool_id pnl) m = set_24h_pnl num pool_id pnl m
  run_one (tick now input) m = (check_pre_tick num thresholds l3 now input m).1
  run_one (stop_call call) m = record m { stop = run_call max_attempts call m.stop }

  unfoldable pub run_monitor : List (MonitorCall F) → RiskMonitor F → RiskMonitor F
  run_monitor [] m = m
  run_monitor (c ∷ cs) m = run_monitor cs (run_one c m)

  -- What a call does to the state of the pool `q`.
  abbrev pub effect_on : String → MonitorCall F → PoolRiskState F → PoolRiskState F
  effect_on q (observe now p snapshot pred) s =
      if p == q then observed_state num thresholds l3 now p snapshot pred s else s
  effect_on q (sample now p staleness) s =
      if p == q
      then evaluate_l2 num thresholds l3 now none (sampled num thresholds l3 now p staleness s)
      else s
  effect_on q (set_pnl p pnl) s = if p == q then record s { latest_24h_pnl = pnl } else s
  effect_on q (tick now input) s = s
  effect_on q (stop_call call) s = s

-- ---- the map of pools

if_same : {A : Type 0} (b : Bool) (x : A) → (if b then x else x) ≡ x
if_same true x = refl
if_same false x = refl

module _ {F : Type 0} (num : Floats F) where
  persist_all-pools :
      (now : ℕ) (ns : List (RiskNote F)) (m : RiskMonitor F)
      → (persist_all now ns m).pools ≡ m.pools
  unfolding persist_all persist_risk_event
  persist_all-pools now [] m = refl
  persist_all-pools now (n ∷ ns) m = persist_all-pools now ns (persist_risk_event now n m)

  -- The state of a pool depends on the map alone.
  pub same_pools :
      (q : String) (m m' : RiskMonitor F)
      → m.pools ≡ m'.pools
      → pool_state num q m ≡ pool_state num q m'
  unfolding pool_state
  same_pools q m m' e = rw e refl

  -- Another pool's entry is left alone.
  risk_in-absent :
      (p q : String) (s : PoolRiskState F) (es : List (PoolEntry F))
      → p == q ≡ false
      → risk_in num (select entry_pool q (update entry_pool p (λ e. record e { risk = s }) es))
        ≡ risk_in num (select entry_pool q es)
  unfolding select update
  risk_in-absent p q s [] h = refl
  risk_in-absent p q s (e ∷ es) h =
      ground (arith, eq_iff e.pool_id q, eq_iff e.pool_id p, eq_iff p q, risk_in-absent p q s es h)

  risk_in-update :
      (p q : String) (s : PoolRiskState F) (es : List (PoolEntry F)) (x : PoolEntry F)
      → select entry_pool p es ≡ some x
      → risk_in num (select entry_pool q (update entry_pool p (λ e. record e { risk = s }) es))
        ≡ (if p == q then s else risk_in num (select entry_pool q es))
  unfolding select update
  risk_in-update p q s [] x h = absurd cc
  risk_in-update p q s (e ∷ es) x h = ground (
    arith,
    eq_iff e.pool_id q,
    eq_iff e.pool_id p,
    eq_iff p q,
    risk_in-absent p q s es,
    risk_in-update p q s es x,
  )

  risk_in-put :
      (p q : String) (s : PoolRiskState F) (es : List (PoolEntry F)) (o : Option (PoolEntry F))
      → select entry_pool p es ≡ o
      → risk_in num (select entry_pool q (put_entry num p s es o))
        ≡ (if p == q then s else risk_in num (select entry_pool q es))
  unfolding select
  risk_in-put p q s es none h = ground (arith, eq_iff p q)
  risk_in-put p q s es (some x) h = risk_in-update p q s es x h

  pub pool_state-put_state :
      (p q : String) (s : PoolRiskState F) (m : RiskMonitor F)
      → pool_state num q (put_state num p s m) ≡ (if p == q then s else pool_state num q m)
  unfolding pool_state put_state
  pool_state-put_state p q s m = risk_in-put p q s m.pools (select entry_pool p m.pools) refl

  pub pool_state_self :
      (p q : String) (f : PoolRiskState F → PoolRiskState F) (m : RiskMonitor F)
      → pool_state num q (put_state num p (f (pool_state num p m)) m)
        ≡ (if p == q then f (pool_state num q m) else pool_state num q m)
  pool_state_self p q f m = elim (Bool-cases (p == q)) [
    | inl e ↦ rw (pool_state-put_state p q (f (pool_state num p m)) m, (eq_iff p q).0 e) refl
    | inr e ↦ rw (pool_state-put_state p q (f (pool_state num p m)) m, e) refl
  ]

  module _ (thresholds : RiskThresholds F) (l3 : L3Thresholds F) where
    evaluate_l3-pools :
        (now : ℕ) (input : TickInput) (risk : PoolRiskState F) (m : RiskMonitor F)
        → (evaluate_l3 num l3 now input risk m).pools ≡ m.pools
    unfolding evaluate_l3 evaluate_armed trip_pool persist_risk_event
    evaluate_l3-pools now input risk m = ground arith

    veto_of-pools :
        (now : ℕ) (input : TickInput) (risk : PoolRiskState F) (m : RiskMonitor F)
        → (veto_of num thresholds l3 now input risk m).1.pools ≡ m.pools
    unfolding veto_of persist_risk_event
    veto_of-pools now input risk m = ground arith

    pub pool_state-run_one :
        (n : ℕ) (q : String) (c : MonitorCall F) (m : RiskMonitor F)
        → pool_state num q (run_one num thresholds l3 n c m)
          ≡ effect_on num thresholds l3 n q c (pool_state num q m)
    unfolding run_one observe_for_pool observe_source_staleness set_24h_pnl check_pre_tick
    pool_state-run_one n q (observe now p snapshot pred) m =
        same_pools q _ _ (persist_all-pools now _ _)
        ∙ pool_state_self p q (observed_state num thresholds l3 now p snapshot pred) m
    pool_state-run_one n q (sample now p staleness) m =
        same_pools q _ _ (persist_all-pools now _ _)
        ∙ pool_state_self p q
            (λ s.
              evaluate_l2 num thresholds l3 now none (sampled num thresholds l3 now p staleness s))
            m
    pool_state-run_one n q (set_pnl p pnl) m =
        pool_state_self p q (λ s. record s { latest_24h_pnl = pnl }) m
    pool_state-run_one n q (tick now input) m =
        same_pools q _ _ (veto_of-pools now input _ _ ∙ evaluate_l3-pools now input _ _)
        ∙ pool_state_self input.pool_id q (λ s. s) m
        ∙ if_same (input.pool_id == q) (pool_state num q m)
    pool_state-run_one n q (stop_call call) m = same_pools q _ _ refl

    -- What every call keeps of a pool's state, a run keeps.
    pub run_monitor-inv :
        (n : ℕ) (q : String) (P : PoolRiskState F → Type 0) (Q : MonitorCall F → Type 0)
        → ((c : MonitorCall F) (s : PoolRiskState F)
            → Q c
            → P s
            → P (effect_on num thresholds l3 n q c s))
        → (cs : List (MonitorCall F)) (m : RiskMonitor F) → All Q cs
        → P (pool_state num q m)
        → P (pool_state num q (run_monitor num thresholds l3 n cs m))
    unfolding run_monitor
    run_monitor-inv n q P Q keep [] m h p = p
    run_monitor-inv n q P Q keep (c ∷ cs) m h p =
        run_monitor-inv n q P Q keep cs (run_one num thresholds l3 n c m) h.1
          (subst P (sym (pool_state-run_one n q c m)) (keep c (pool_state num q m) h.0 p))
