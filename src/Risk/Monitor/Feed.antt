-- ===== src/Risk/Monitor/Feed.antt =====
-- How an observation of src/risk/monitor.ts feeds the windows of a pool.
use lp_agent.Prelude.{
  ℕ, ◌+◌, ◌&&◌, ◌||◌, Option, none, some, List, [], ◌∷◌, ◌++◌, length, ltb, if◌then◌else◌,
}
use lp_agent.Prelude.Floats.{Floats}
use lp_agent.Risk.Circuits.{whole}
use lp_agent.Risk.Monitor.State.{MonitorPrediction, PoolRiskState, usable, window_5m_ms}

abbrev pub spread_lookback_ms : ℕ
spread_lookback_ms = 120_000

abbrev pub max_window_entries : ℕ
max_window_entries = 500

-- The oldest points go while there are too many, or while they are older than `keep_ms` before `ts`.
unfoldable pub prune_window : {A : Type 0} → (A → ℕ) → ℕ → ℕ → List A → List A
prune_window ts_of ts keep_ms [] = []
prune_window ts_of ts keep_ms (p ∷ ps) =
    let rest = prune_window ts_of ts keep_ms ps in
    if ltb max_window_entries (length (p ∷ ps)) || ltb (ts_of p + keep_ms) ts then rest else p ∷ ps

module _ {F : Type 0} (num : Floats F) where
  -- ---- the windows

  unfoldable pub push_price : ℕ → F → PoolRiskState F → PoolRiskState F
  push_price ts price state =
      if num.is_finite price && num.gt price (whole num 0)
      then record state {
        price_window =
            prune_window (λ p. p.ts) ts (window_5m_ms + 60_000)
              (state.price_window ++ (record { ts = ts; price = price }) ∷ []);
      }
      else state

  unfoldable pub push_tvl : ℕ → F → PoolRiskState F → PoolRiskState F
  push_tvl ts tvl_usd state =
      if num.is_finite tvl_usd
      then record state {
        tvl_window =
            prune_window (λ p. p.ts) ts (window_5m_ms + 60_000)
              (state.tvl_window ++ (record { ts = ts; tvl_usd = tvl_usd }) ∷ []);
      }
      else state

  unfoldable pub push_spread : ℕ → F → PoolRiskState F → PoolRiskState F
  push_spread ts spread state =
      if num.is_finite spread
      then record state {
        spread_window =
            prune_window (λ p. p.ts) ts (spread_lookback_ms + 60_000)
              (state.spread_window ++ (record { ts = ts; spread = spread }) ∷ []);
      }
      else state

  unfoldable pub store_prediction :
      ℕ → Option (MonitorPrediction F) → PoolRiskState F → PoolRiskState F
  store_prediction ts pred state = elim (usable num pred) [
    | none ↦ state
    | some p ↦ record state {
      latest_p_above = p.p_above;
      latest_p_below = p.p_below;
      latest_pred_ts = some ts;
    }
  ]
