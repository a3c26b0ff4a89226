-- ===== src/Risk/Monitor/Bounded.antt =====
-- The windows of src/risk/monitor.ts stay small and hold usable numbers.
use lp_agent.Prelude.{
  ℕ, ◌+◌, ◌≤◌, String, ◌≡◌, inl, inr, Bool, true, false, ◌&&◌, ◌||◌, Bool-cases, Option, none, some,
  List, [], ◌∷◌, ◌++◌, ◌==◌, ltb, All, length, arith, if◌then◌else◌,
}
use lp_agent.Prelude.Floats.{Floats}
use lp_agent.Table.{select}
use lp_agent.Risk.Emergency.{EmergencyStop}
use lp_agent.Risk.Circuits.{PricePoint, TvlPoint, SpreadPoint, whole}
use lp_agent.Risk.Monitor.State.{
  RiskThresholds, L3Thresholds, MonitorSnapshot, MonitorPrediction, PoolRiskState, pool_state,
}
use lp_agent.Risk.Monitor.Feed.{
  prune_window, max_window_entries, push_price, push_tvl, push_spread, store_prediction,
}
use lp_agent.Risk.Monitor.Levels.{enter_extreme, evaluate_l2, evaluate_l1}
use lp_agent.Risk.Monitor.Observe.{fed, observed_state}
use lp_agent.Risk.Monitor.Calls.{
  MonitorCall, observe, sample, set_pnl, tick, stop_call, effect_on, run_monitor, run_monitor-inv,
}

-- At most 500 points, all of them with the property.
abbrev pub IsWindow : {A : Type 0} → (A → Type 0) → List A → Type 0
IsWindow P ps = (length ps ≤ 500) × All P ps

module _ {A : Type 0} (ts_of : A → ℕ) (P : A → Type 0) where
  prune_window-IsWindow :
      (ts keep : ℕ) (ps : List A) → All P ps → IsWindow P (prune_window ts_of ts keep ps)
  unfolding prune_window
  prune_window-IsWindow ts keep [] h = (omega arith, tt)
  prune_window-IsWindow ts keep (p ∷ ps) h =
      elim (Bool-cases (ltb max_window_entries (length (p ∷ ps)) || ltb (ts_of p + keep) ts)) [
        | inl e ↦ rw e (prune_window-IsWindow ts keep ps h.1)
        | inr e ↦ rw e (ground (arith, e), h)
      ]

All-snoc :
    {A : Type 0} (P : A → Type 0) (ps : List A) (p : A) → All P ps → P p → All P (ps ++ p ∷ [])
All-snoc P [] p h k = (k, tt)
All-snoc P (q ∷ ps) p h k = (h.0, All-snoc P ps p h.1 k)

module _ {F : Type 0} (num : Floats F) where
  abbrev pub IsPrice : PricePoint F → Type 0
  IsPrice p = (num.is_finite p.price ≡ true) × (num.gt p.price (whole num 0) ≡ true)

  abbrev pub IsTvl : TvlPoint F → Type 0
  IsTvl p = num.is_finite p.tvl_usd ≡ true

  abbrev pub IsSpread : SpreadPoint F → Type 0
  IsSpread p = num.is_finite p.spread ≡ true

  -- The three windows: prices are finite and positive, the others finite.
  abbrev pub AreWindows : PoolRiskState F → Type 0
  AreWindows s =
      IsWindow IsPrice s.price_window
      × IsWindow IsTvl s.tvl_window
      × IsWindow IsSpread s.spread_window

  push_price-AreWindows :
      (ts : ℕ) (price : F) (s : PoolRiskState F)
      → AreWindows s
      → AreWindows (push_price num ts price s)
  unfolding push_price
  push_price-AreWindows ts price s (p, t, r) =
      elim (Bool-cases (num.is_finite price && num.gt price (whole num 0))) [
        | inl e ↦ rw e (
          prune_window-IsWindow (λ q. q.ts) IsPrice ts _ _
              (All-snoc IsPrice s.price_window _ p.1 (ground (arith, e))),
          t,
          r,
        )
        | inr e ↦ rw e (p, t, r)
      ]

  push_tvl-AreWindows :
      (ts : ℕ) (tvl : F) (s : PoolRiskState F) → AreWindows s → AreWindows (push_tvl num ts tvl s)
  unfolding push_tvl
  push_tvl-AreWindows ts tvl s (p, t, r) = elim (Bool-cases (num.is_finite tvl)) [
    | inl e ↦
        rw e (
          p,
          prune_window-IsWindow (λ q. q.ts) IsTvl ts _ _ (All-snoc IsTvl s.tvl_window _ t.1 e),
          r,
        )
    | inr e ↦ rw e (p, t, r)
  ]

  push_spread-AreWindows :
      (ts : ℕ) (spread : F) (s : PoolRiskState F)
      → AreWindows s
      → AreWindows (push_spread num ts spread s)
  unfolding push_spread
  push_spread-AreWindows ts spread s (p, t, r) = elim (Bool-cases (num.is_finite spread)) [
    | inl e ↦ rw e (
      p,
      t,
      prune_window-IsWindow (λ q. q.ts) IsSpread ts _ _ (All-snoc IsSpread s.spread_window _ r.1 e),
    )
    | inr e ↦ rw e (p, t, r)
  ]

  -- States with the same windows.
  abbrev SameWindows : PoolRiskState F → PoolRiskState F → Type 0
  SameWindows s s' =
      (s'.price_window ≡ s.price_window)
      × (s'.tvl_window ≡ s.tvl_window)
      × (s'.spread_window ≡ s.spread_window)

  SameWindows-AreWindows :
      (s s' : PoolRiskState F) → SameWindows s s' → AreWindows s → AreWindows s'
  SameWindows-AreWindows s s' (e, f, g) h = rw (e, f, g) h

  store_prediction-SameWindows :
      (ts : ℕ) (pred : Option (MonitorPrediction F)) (s : PoolRiskState F)
      → SameWindows s (store_prediction num ts pred s)
  unfolding store_prediction
  store_prediction-SameWindows ts pred s = ground arith

  fed-AreWindows :
      (snapshot : MonitorSnapshot F) (pred : Option (MonitorPrediction F)) (s : PoolRiskState F)
      → AreWindows s
      → AreWindows (fed num snapshot pred s)
  unfolding fed
  fed-AreWindows snapshot pred s h =
      let priced = push_price num snapshot.ts (num.parse snapshot.cetus_price) s in
      let valued = push_tvl num snapshot.ts snapshot.tvl_usd priced in
      let spread = push_spread num snapshot.ts snapshot.spread valued in
      let stamped = record spread { latest_snapshot_ts = some snapshot.ts } in
      SameWindows-AreWindows stamped (store_prediction num snapshot.ts pred stamped)
        (store_prediction-SameWindows snapshot.ts pred stamped)
        (push_spread-AreWindows snapshot.ts snapshot.spread valued (
          push_tvl-AreWindows snapshot.ts snapshot.tvl_usd priced
            (push_price-AreWindows snapshot.ts (num.parse snapshot.cetus_price) s h)))

  module _ (thresholds : RiskThresholds F) (l3 : L3Thresholds F) where
    evaluate_l2-SameWindows :
        (now : ℕ) (pred : Option (MonitorPrediction F)) (s : PoolRiskState F)
        → SameWindows s (evaluate_l2 num thresholds l3 now pred s)
    unfolding evaluate_l2 enter_extreme
    evaluate_l2-SameWindows now pred s = ground arith

    after_l2 :
        (now : ℕ) (pred : Option (MonitorPrediction F)) (s : PoolRiskState F)
        → AreWindows s
        → AreWindows (evaluate_l2 num thresholds l3 now pred s)
    after_l2 now pred s h =
        SameWindows-AreWindows s (evaluate_l2 num thresholds l3 now pred s)
          (evaluate_l2-SameWindows now pred s) h

    if_either :
        (b : Bool) (s s' : PoolRiskState F)
        → AreWindows s
        → AreWindows s'
        → AreWindows (if b then s else s')
    if_either true s s' h k = h
    if_either false s s' h k = k

    effect_on-AreWindows :
        (n : ℕ) (q : String) (c : MonitorCall F) (s : PoolRiskState F)
        → Unit {0}
        → AreWindows s
        → AreWindows (effect_on num thresholds l3 n q c s)
    unfolding observed_state evaluate_l1
    effect_on-AreWindows n q (observe now p snapshot pred) s u h =
        if_either (p == q) _ s (after_l2 now pred _ (fed-AreWindows snapshot pred s h)) h
    effect_on-AreWindows n q (sample now p staleness) s u h =
        if_either (p == q) _ s (after_l2 now none _ h) h
    effect_on-AreWindows n q (set_pnl p pnl) s u h = if_either (p == q) _ s h h
    effect_on-AreWindows n q (tick now input) s u h = h
    effect_on-AreWindows n q (stop_call call) s u h = h

    all_calls : (cs : List (MonitorCall F)) → All (λ c. Unit {0}) cs
    all_calls [] = tt
    all_calls (c ∷ cs) = (tt, all_calls cs)

    -- However a new monitor is called, each window of each pool holds at most 500 points, the prices
    -- in it are finite and positive, and the TVLs and spreads are finite.
    pub windows_stay_sound :
        (n : ℕ) (q : String) (stop : EmergencyStop) (cs : List (MonitorCall F))
        → AreWindows (
            pool_state num q
              (run_monitor num thresholds l3 n cs (record { pools = []; rows = []; stop = stop })))
    unfolding pool_state select
    windows_stay_sound n q stop cs =
        run_monitor-inv num thresholds l3 n q AreWindows (λ c. Unit {0}) (effect_on-AreWindows n q)
          cs (record { pools = []; rows = []; stop = stop }) (all_calls cs)
          ((omega arith, tt), (omega arith, tt), (omega arith, tt))
