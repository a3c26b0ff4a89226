-- ===== src/Risk/Monitor/Vetoes.antt =====
-- What the check before a tick of src/risk/monitor.ts answers, and for how long.
use native.Mathlib.Nat.{le_trans}
use lp_agent.Prelude.{
  ℕ, ◌<◌, ◌≡◌, ◌↔◌, refl, ap, ◌∙◌, inl, inr, true, false, Bool-cases, none, some, List, ◌==◌, arith,
}
use lp_agent.Prelude.Floats.{Floats}
use lp_agent.Risk.Emergency.{
  EmergencyState, armed, draining, halted, severity, state, is_tripped, is_draining,
}
use lp_agent.Risk.Monitor.State.{
  RiskThresholds, L3Thresholds, PoolRiskState, RiskMonitor, pool_state, put_state,
}
use lp_agent.Risk.Monitor.Trips.{TickInput, context_of, evaluate_l3}
use lp_agent.Risk.Monitor.PreTick.{veto_of, check_pre_tick}
use lp_agent.Risk.Monitor.Calls.{MonitorCall, run_monitor}
use lp_agent.Risk.Monitor.Stopped.{
  stop_severity, IsStop, trips, armed-severity, armed_quiet, veto_of-IsStop, evaluate_l3_armed,
  veto_of-latches, same_mono, run_monitor_mono, evaluate_l3_mono,
}

module _ {F : Type 0} (num : Floats F) (thresholds : RiskThresholds F) (l3 : L3Thresholds F) where
  -- The monitor as `evaluateL3` finds it.
  abbrev kept : TickInput → RiskMonitor F → RiskMonitor F
  kept input m = put_state num input.pool_id (pool_state num input.pool_id m) m

  -- A stop that is not armed vetoes every tick.
  stopped-IsStop :
      (now : ℕ) (input : TickInput) (m : RiskMonitor F)
      → 0 < stop_severity (context_of input) m.stop
      → IsStop (check_pre_tick num thresholds l3 now input m).0
  unfolding check_pre_tick put_state
  stopped-IsStop now input m h = veto_of-IsStop num thresholds l3 now input _ _ (
      le_trans h (
        evaluate_l3_mono num thresholds l3 (context_of input) now input
          (pool_state num input.pool_id m) (kept input m)))

  -- The stop after the tick in which a condition of L3 holds.
  tripped_after :
      (now : ℕ) (input other : TickInput) (m : RiskMonitor F)
      → input.pool_id == "" ≡ false
      → other.pool_id ≡ input.pool_id
      → state (some (context_of input)) m.stop ≡ armed
      → trips num thresholds l3 now input (pool_state num input.pool_id m) ≡ true
      → 0
        < stop_severity
            (context_of other)
            (evaluate_l3 num l3 now input (pool_state num input.pool_id m) (kept input m)).stop
  unfolding put_state
  tripped_after now input other m h e a t =
      rw
        (evaluate_l3_armed num thresholds l3 now input (pool_state num input.pool_id m)
          (kept input m) a)
        (armed-severity num thresholds l3 now input other (pool_state num input.pool_id m)
          (kept input m) h e t)

  -- Where a condition of L3 holds at the tick of a PM for which the stop is armed, in a pool with a
  -- name - EXTREME was entered as often as the limit within the window, the Cetus feed of the last
  -- sample is older than the outage while the PM has bins, or the PnL is below the catastrophic
  -- threshold - that tick is vetoed with L3, and so is every tick of every PM of the pool after any
  -- further calls of the monitor, trips and drain attempts, an operator's reset being none of them.
  pub l3_stops_pool :
      (n now later : ℕ) (input other : TickInput) (cs : List (MonitorCall F)) (m : RiskMonitor F)
      → input.pool_id == "" ≡ false
      → other.pool_id ≡ input.pool_id
      → state (some (context_of input)) m.stop ≡ armed
      → trips num thresholds l3 now input (pool_state num input.pool_id m) ≡ true
      → IsStop (check_pre_tick num thresholds l3 now input m).0
        × IsStop
            (check_pre_tick num thresholds l3 later other (
              run_monitor num thresholds l3 n cs
                (check_pre_tick num thresholds l3 now input m).1)).0
  unfolding check_pre_tick
  l3_stops_pool n now later input other cs m h e a t = (
    veto_of-IsStop num thresholds l3 now input _ _ (tripped_after now input input m h refl a t),
    stopped-IsStop later other _ (
        le_trans (tripped_after now input other m h e a t) (
          le_trans
            (same_mono (context_of other) _ _
              (veto_of-latches num thresholds l3 now input (pool_state num input.pool_id m) _))
            (run_monitor_mono num thresholds l3 n (context_of other) cs _))),
  )

  -- A tick is let through.
  veto_of-none :
      (now : ℕ) (input : TickInput) (risk : PoolRiskState F) (m : RiskMonitor F)
      → ((veto_of num thresholds l3 now input risk m).0 ≡ none) ↔ (
          (state (some (context_of input)) m.stop ≡ armed)
          × (risk.extreme_active ≡ false)
          × (risk.soft_active ≡ false))
  unfolding veto_of is_tripped is_draining
  veto_of-none now input risk m = (λ h. ground arith, λ h. ground arith)

  armed_of_zero : (x : EmergencyState) → severity x ≡ 0 → x ≡ armed
  armed_of_zero armed h = refl
  armed_of_zero draining h = absurd (omega (arith, h))
  armed_of_zero halted h = absurd (omega (arith, h))

  quiet_after :
      (now : ℕ) (input : TickInput) (m : RiskMonitor F)
      → state (some (context_of input)) m.stop ≡ armed
      → trips num thresholds l3 now input (pool_state num input.pool_id m) ≡ false
      → evaluate_l3 num l3 now input (pool_state num input.pool_id m) (kept input m) ≡ kept input m
  unfolding put_state
  quiet_after now input m a t =
      evaluate_l3_armed num thresholds l3 now input (pool_state num input.pool_id m) (kept input m)
        a
      ∙ armed_quiet num thresholds l3 now input (pool_state num input.pool_id m) (kept input m) t

  let_through :
      (now : ℕ) (input : TickInput) (m : RiskMonitor F)
      → input.pool_id == "" ≡ false
      → state
          (some (context_of input))
          (evaluate_l3 num l3 now input (pool_state num input.pool_id m) (kept input m)).stop
        ≡ armed
      → (state (some (context_of input)) m.stop ≡ armed)
        × (trips num thresholds l3 now input (pool_state num input.pool_id m) ≡ false)
  unfolding put_state
  let_through now input m h a =
      let z : severity (
            state (some (context_of input))
              (evaluate_l3 num l3 now input (pool_state num input.pool_id m) (kept input m)).stop)
          ≡ 0 =
        ap severity a in
      let before = armed_of_zero (state (some (context_of input)) m.stop) (
        omega (
          arith,
          z,
          evaluate_l3_mono num thresholds l3 (context_of input) now input
              (pool_state num input.pool_id m) (kept input m),
        )) in
      (
        before,
        elim (Bool-cases (trips num thresholds l3 now input (pool_state num input.pool_id m))) [
          | inl t ↦ absurd (omega (arith, z, tripped_after now input input m h refl before t))
          | inr t ↦ t
        ],
      )

  -- A tick of a PM, in a pool with a name, is let through without a veto exactly where the emergency
  -- stop is armed for the PM, no condition of L3 holds, and neither L2 nor L1 is active in the pool.
  pub no_veto_iff :
      (now : ℕ) (input : TickInput) (m : RiskMonitor F)
      → input.pool_id == "" ≡ false
      → ((check_pre_tick num thresholds l3 now input m).0 ≡ none) ↔ (
          (state (some (context_of input)) m.stop ≡ armed)
          × (trips num thresholds l3 now input (pool_state num input.pool_id m) ≡ false)
          × ((pool_state num input.pool_id m).extreme_active ≡ false)
          × ((pool_state num input.pool_id m).soft_active ≡ false))
  unfolding check_pre_tick put_state
  no_veto_iff now input m h = (
    λ e.
        let (a, x, y) = (veto_of-none now input (pool_state num input.pool_id m) _).0 e in
        let (b, t) = let_through now input m h a in (b, t, x, y),
    λ (b, t, x, y). (veto_of-none now input (pool_state num input.pool_id m) _).1 (
      ap (λ (z : RiskMonitor F). state (some (context_of input)) z.stop)
            (quiet_after now input m b t)
          ∙ b,
      x,
      y,
    ),
  )
