-- ===== src/Risk/Monitor/State.antt =====
-- The state of src/risk/monitor.ts: the windows and flags of each pool, and the rows it writes.
--
-- The rows of risk_events that the monitor writes stand apart from those of the emergency stop, which
-- reads only its own kind; the ids are shared. An insert that fails is caught and logged in the
-- source, and is taken to succeed here. The row's source column, `live` or `shadow`, is left out.
use lp_agent.Prelude.{ℕ, suc, String, Bool, false, Option, none, some, List, [], ◌∷◌, if◌then◌else◌}
use lp_agent.Prelude.Floats.{Floats}
use lp_agent.Table.{select, update}
use lp_agent.Risk.Emergency.{EmergencyStop}
use lp_agent.Risk.Circuits.{PricePoint, TvlPoint, SpreadPoint, SourceStalenessInput, whole}

pub record RiskThresholds (F : Type 0) : Type 0 where
  pub extreme_volatility_5m : F
  pub tvl_drop_5m : F
  pub spread_extreme : F
  pub spread_sustain_ms : ℕ
  pub p_break_sum : F
  pub pnl_24h_pct : F
  pub l1_spread_soft_band_low : F
  pub l1_spread_soft_band_high : F
  pub volatility_recovery : F
  pub source_stale_sui_ms : ℕ
  pub source_stale_cetus_ms : ℕ
  pub source_stale_deriv_ms : ℕ

pub record L3Thresholds (F : Type 0) : Type 0 where
  pub repeated_l2_count : ℕ
  pub repeated_l2_window_ms : ℕ
  pub outage_ms : ℕ
  pub pnl_pct : F

-- What the monitor reads of a snapshot and of a prediction.
pub record MonitorSnapshot (F : Type 0) : Type 0 where
  pub ts : ℕ
  pub cetus_price : String
  pub tvl_usd : F
  pub spread : F

pub record MonitorPrediction (F : Type 0) : Type 0 where
  pub fallback : Bool
  pub p_above : F
  pub p_below : F

pub record StalenessInfo : Type 0 where
  pub sui : ℕ
  pub cetus : ℕ
  pub derivatives : ℕ

pub record PoolRiskState (F : Type 0) : Type 0 where
  pub price_window : List (PricePoint F)
  pub tvl_window : List (TvlPoint F)
  pub spread_window : List (SpreadPoint F)
  pub latest_snapshot_ts : Option ℕ
  pub latest_p_above : F
  pub latest_p_below : F
  pub latest_pred_ts : Option ℕ
  pub latest_24h_pnl : F
  pub extreme_active : Bool
  pub extreme_entered_at_ms : Option ℕ
  pub soft_active : Bool
  pub l2_entered_timestamps : List ℕ
  pub latest_source_staleness : Option SourceStalenessInput

pub data RiskLevel : Type 0 where
  l1 l2 l3 : RiskLevel

-- What a call of `persistRiskEvent` says.
pub record RiskNote (F : Type 0) : Type 0 where
  pub pool_id : Option String
  pub pm_id : Option String
  pub level : RiskLevel
  pub kind : String
  pub metric : String
  pub threshold : F
  pub observed : F
  pub action : String

pub record MonitorRow (F : Type 0) : Type 0 where
  pub id : ℕ
  pub ts_ms : ℕ
  pub note : RiskNote F

-- An entry of the map of pools.
pub record PoolEntry (F : Type 0) : Type 0 where
  pub pool_id : String
  pub risk : PoolRiskState F

pub record RiskMonitor (F : Type 0) : Type 0 where
  pub pools : List (PoolEntry F)
  pub rows : List (MonitorRow F)
  pub stop : EmergencyStop

abbrev pub window_5m_ms : ℕ
window_5m_ms = 300_000

abbrev pub entry_pool : {F : Type 0} → PoolEntry F → String
entry_pool e = e.pool_id

unfoldable pub persist_risk_event : {F : Type 0} → ℕ → RiskNote F → RiskMonitor F → RiskMonitor F
persist_risk_event now note m = record m {
  rows = (record { id = suc m.stop.db.last_id; ts_ms = now; note = note }) ∷ m.rows;
  stop = record (m.stop) { db = record (m.stop.db) { last_id = suc m.stop.db.last_id } };
}

unfoldable pub persist_all : {F : Type 0} → ℕ → List (RiskNote F) → RiskMonitor F → RiskMonitor F
persist_all now [] m = m
persist_all now (n ∷ ns) m = persist_all now ns (persist_risk_event now n m)

module _ {F : Type 0} (num : Floats F) where
  abbrev pub minus_one : F
  minus_one = num.neg (whole num 1)

  abbrev pub fresh_state : PoolRiskState F
  fresh_state = record {
    price_window = [];
    tvl_window = [];
    spread_window = [];
    latest_snapshot_ts = none;
    latest_p_above = whole num 0;
    latest_p_below = whole num 0;
    latest_pred_ts = none;
    latest_24h_pnl = whole num 0;
    extreme_active = false;
    extreme_entered_at_ms = none;
    soft_active = false;
    l2_entered_timestamps = [];
    latest_source_staleness = none;
  }

  abbrev pub risk_in : Option (PoolEntry F) → PoolRiskState F
  risk_in none = fresh_state
  risk_in (some e) = e.risk

  unfoldable pub pool_state : String → RiskMonitor F → PoolRiskState F
  pool_state pool_id m = risk_in (select entry_pool pool_id m.pools)

  -- `getOrCreatePoolState` returns the object of the map, so what a call does to it stays in the map.
  abbrev pub put_entry :
      String → PoolRiskState F → List (PoolEntry F) → Option (PoolEntry F) → List (PoolEntry F)
  put_entry pool_id state pools none = (record { pool_id = pool_id; risk = state }) ∷ pools
  put_entry pool_id state pools (some _) =
      update entry_pool pool_id (λ e. record e { risk = state }) pools

  unfoldable pub put_state : String → PoolRiskState F → RiskMonitor F → RiskMonitor F
  put_state pool_id state m = record m {
    pools = put_entry pool_id state m.pools (select entry_pool pool_id m.pools);
  }

  -- A prediction that is there and is no fallback.
  abbrev pub usable : Option (MonitorPrediction F) → Option (MonitorPrediction F)
  usable none = none
  usable (some pred) = if pred.fallback then none else some pred
