-- ===== src/Risk/Monitor/Hysteresis.antt =====
-- When the L2 circuit of src/risk/monitor.ts becomes active and clears again.
use lp_agent.Prelude.{
  ℕ, ◌+◌, ◌≤◌, ◌<◌, String, ◌≡◌, ◌↔◌, ◌⊎◌, refl, inl, inr, Bool, true, false, not, ◌&&◌, ◌||◌,
  Option, none, some, List, ltb, All, arith, if◌then◌else◌,
}
use lp_agent.Prelude.Floats.{Floats}
use lp_agent.Risk.Circuits.{any_fires, can_exit_extreme}
use lp_agent.Risk.Monitor.State.{
  RiskThresholds, L3Thresholds, MonitorSnapshot, MonitorPrediction, PoolRiskState, RiskMonitor,
  pool_state,
}
use lp_agent.Risk.Monitor.Feed.{push_price, push_tvl, push_spread, store_prediction}
use lp_agent.Risk.Monitor.Levels.{
  l2_results, volatility_result, enter_extreme, evaluate_l2, evaluate_l1, entered_or, may_exit,
}
use lp_agent.Risk.Monitor.Observe.{fed, observed_state, sampled}
use lp_agent.Risk.Monitor.Calls.{
  MonitorCall, observe, sample, set_pnl, tick, stop_call, effect_on, run_monitor, run_monitor-inv,
}

module _ {F : Type 0} (num : Floats F) (thresholds : RiskThresholds F) (l3 : L3Thresholds F) where
  -- The volatility has recovered, and ten minutes have passed since the circuit became active.
  abbrev pub IsRecovered : ℕ → PoolRiskState F → Type 0
  IsRecovered now s =
      (num.is_finite (volatility_result num thresholds s now).observed ≡ true)
      × (num.ge (volatility_result num thresholds s now).observed thresholds.volatility_recovery
          ≡ false)
      × (entered_or s.extreme_entered_at_ms now + 600_000 ≤ now)

  exit_test :
      (b c d : Bool) (now t : ℕ)
      → ((if b then false else if not c || d then false else not (ltb now t)) ≡ true)
        ↔ ((b ≡ false) × ((c ≡ true) × (d ≡ false) × (t ≤ now)))
  exit_test b c d now t = (λ h. ground arith, λ h. ground arith)

  active_after :
      (fires exit : Bool) (now : ℕ) (s : PoolRiskState F)
      → (if fires && not s.extreme_active
          then enter_extreme num thresholds l3 now s
          else if not fires && s.extreme_active && exit
          then record s { extreme_active = false; extreme_entered_at_ms = none }
          else s).extreme_active
        ≡ (if s.extreme_active then fires || not exit else fires)
  unfolding enter_extreme
  active_after fires exit now s = ground arith

  off_test :
      (fires active exit : Bool) (A : Type 0)
      → ((exit ≡ true) ↔ ((fires ≡ false) × A))
      → ((if active then fires || not exit else fires) ≡ false)
        ↔ ((fires ≡ false) × ((active ≡ false) ⊎ A))
  off_test true active exit A (f, g) = (λ h. ground arith, λ h. ground arith)
  off_test false false exit A (f, g) = (λ h. (refl, inl refl), λ h. refl)
  off_test false true true A (f, g) = (λ h. (refl, inr (f refl).1), λ h. refl)
  off_test false true false A (f, g) = (
    λ h. ground arith,
    λ (e, h). elim h [ inl c ↦ cc | inr a ↦ absurd (ground (arith, g (refl, a))) ],
  )

  -- After an evaluation of L2 the circuit is clear exactly where no trigger fires and it was clear
  -- before, or the volatility is finite and below the recovery threshold and ten minutes have
  -- passed since it became active.
  pub extreme_clear_iff :
      (now : ℕ) (pred : Option (MonitorPrediction F)) (s : PoolRiskState F)
      → ((evaluate_l2 num thresholds l3 now pred s).extreme_active ≡ false) ↔ (
          (any_fires (l2_results num thresholds now pred s) ≡ false)
          × ((s.extreme_active ≡ false) ⊎ IsRecovered now s))
  unfolding evaluate_l2 can_exit_extreme
  extreme_clear_iff now pred s =
      rw
        (active_after (any_fires (l2_results num thresholds now pred s))
          (may_exit num thresholds now (l2_results num thresholds now pred s) s) now s)
        (off_test _ s.extreme_active _ (IsRecovered now s) (exit_test _ _ _ now _))

  -- ---- how long it stays active

  -- Active since the time `t`.
  abbrev pub IsActiveSince : ℕ → PoolRiskState F → Type 0
  IsActiveSince t s = (s.extreme_active ≡ true) × (s.extreme_entered_at_ms ≡ some t)

  -- The clock's answer in a call that asks for it is before the limit.
  abbrev pub IsBefore : ℕ → MonitorCall F → Type 0
  IsBefore limit (observe now pool_id snapshot pred) = now < limit
  IsBefore limit (sample now pool_id staleness) = now < limit
  IsBefore limit _ = Unit

  evaluate_l2-IsActiveSince :
      (t now : ℕ) (pred : Option (MonitorPrediction F)) (s : PoolRiskState F)
      → now < t + 600_000
      → IsActiveSince t s
      → IsActiveSince t (evaluate_l2 num thresholds l3 now pred s)
  unfolding evaluate_l2 can_exit_extreme
  evaluate_l2-IsActiveSince t now pred s h (a, e) = ground (arith, a, e)

  fed-IsActiveSince :
      (t : ℕ) (snapshot : MonitorSnapshot F) (pred : Option (MonitorPrediction F))
      (s : PoolRiskState F)
      → IsActiveSince t s
      → IsActiveSince t (fed num snapshot pred s)
  unfolding fed push_price push_tvl push_spread store_prediction
  fed-IsActiveSince t snapshot pred s h = ground arith

  effect_on-IsActiveSince :
      (n : ℕ) (q : String) (t : ℕ) (c : MonitorCall F) (s : PoolRiskState F)
      → IsBefore (t + 600_000) c
      → IsActiveSince t s
      → IsActiveSince t (effect_on num thresholds l3 n q c s)
  unfolding observed_state evaluate_l1
  effect_on-IsActiveSince n q t (observe now p snapshot pred) s h k = ground (
    arith,
    evaluate_l2-IsActiveSince t now pred (fed num snapshot pred s) h
        (fed-IsActiveSince t snapshot pred s k),
  )
  effect_on-IsActiveSince n q t (sample now p staleness) s h k = ground (
    arith,
    evaluate_l2-IsActiveSince t now none (sampled num thresholds l3 now p staleness s) h k,
  )
  effect_on-IsActiveSince n q t (set_pnl p pnl) s h k = ground arith
  effect_on-IsActiveSince n q t (tick now input) s h k = k
  effect_on-IsActiveSince n q t (stop_call call) s h k = k

  -- A circuit that is active since `t` stays so through any calls, in any order, for which the
  -- clock answers less than ten minutes after `t`.
  pub extreme_lasts :
      (n t : ℕ) (q : String) (cs : List (MonitorCall F)) (m : RiskMonitor F)
      → IsActiveSince t (pool_state num q m)
      → All (IsBefore (t + 600_000)) cs
      → IsActiveSince t (pool_state num q (run_monitor num thresholds l3 n cs m))
  extreme_lasts n t q cs m k h =
      run_monitor-inv num thresholds l3 n q (IsActiveSince t) (IsBefore (t + 600_000))
        (effect_on-IsActiveSince n q t) cs m h k
