-- ===== src/Risk/Monitor/Examples.antt =====
-- Runs of the monitor at concrete inputs, over fixed-point numbers with six places.
use lp_agent.Prelude.{
  ℕ, ◌^◌, ◌*◌, ◌≡◌, ◌↔◌, ◌⊎◌, refl, true, false, none, some, List, [], ◌∷◌, arith, leb,
}
use lp_agent.Prelude.Micro.{micro}
use lp_agent.Table.{select}
use lp_agent.Risk.Emergency.{
  EmergencyStop, armed, state, applicable, hits, context_keys, sort_by_severity, first_state,
}
use lp_agent.Risk.Circuits.{
  SpreadPoint, any_fires, check_spread_sustained, from_newest, sort_by_ts, keep_if,
}
use lp_agent.Risk.Circuits.Streak.{HasRun, spread_sustained_iff}
use lp_agent.Risk.Monitor.State.{
  RiskThresholds, L3Thresholds, MonitorSnapshot, PoolRiskState, RiskMonitor, StalenessInfo,
  fresh_state, pool_state,
}
use lp_agent.Risk.Monitor.Levels.{evaluate_l2, l2_results}
use lp_agent.Risk.Monitor.Trips.{TickInput, context_of}
use lp_agent.Risk.Monitor.PreTick.{check_pre_tick}
use lp_agent.Risk.Monitor.Calls.{MonitorCall, observe, sample, tick, run_monitor}
use lp_agent.Risk.Monitor.Hysteresis.{IsRecovered, IsActiveSince, extreme_clear_iff, extreme_lasts}
use lp_agent.Risk.Monitor.Bounded.{AreWindows, windows_stay_sound}
use lp_agent.Risk.Monitor.Stopped.{IsStop, trips}
use lp_agent.Risk.Monitor.Vetoes.{l3_stops_pool, no_veto_iff}

abbrev thresholds : RiskThresholds ℕ
thresholds = record {
  extreme_volatility_5m = 10 ^ 5;
  tvl_drop_5m = 3 * 10 ^ 5;
  spread_extreme = 2 * 10 ^ 4;
  spread_sustain_ms = 30_000;
  p_break_sum = 8 * 10 ^ 5;
  pnl_24h_pct = 0;
  l1_spread_soft_band_low = 5 * 10 ^ 3;
  l1_spread_soft_band_high = 2 * 10 ^ 4;
  volatility_recovery = 7 * 10 ^ 4;
  source_stale_sui_ms = 60_000;
  source_stale_cetus_ms = 60_000;
  source_stale_deriv_ms = 60_000;
}

abbrev limits : L3Thresholds ℕ
limits = record {
  repeated_l2_count = 2;
  repeated_l2_window_ms = 3_600_000;
  outage_ms = 300_000;
  pnl_pct = 0;
}

abbrev unstopped : EmergencyStop
unstopped = record { latches = []; db = record { events = []; last_id = 0 } }

-- Active since 5000, the second time.
abbrev stormy : PoolRiskState ℕ
stormy = record (fresh_state micro) {
  extreme_active = true;
  extreme_entered_at_ms = some 5000;
  l2_entered_timestamps = 1000 ∷ 5000 ∷ [];
}

abbrev monitor : RiskMonitor ℕ
monitor = record {
  pools = (record { pool_id = "p"; risk = stormy }) ∷ [];
  rows = [];
  stop = unstopped;
}

abbrev calm_monitor : RiskMonitor ℕ
calm_monitor = record { pools = []; rows = []; stop = unstopped }

abbrev snapshot : MonitorSnapshot ℕ
snapshot = record { ts = 6000; cetus_price = "1"; tvl_usd = 10 ^ 6; spread = 0 }

abbrev first_pm : TickInput
first_pm = record { pool_id = "p"; pm_id = "m"; position_open = true }

abbrev second_pm : TickInput
second_pm = record { pool_id = "p"; pm_id = "k"; position_open = false }

abbrev fresh_feeds : StalenessInfo
fresh_feeds = record { sui = 10; cetus = 20; derivatives = 30 }

abbrev calls : List (MonitorCall ℕ)
calls = observe 6000 "p" snapshot none ∷ tick 6100 second_pm ∷ sample 6200 "p" fresh_feeds ∷ []

abbrev points : List (SpreadPoint ℕ)
points =
    record { ts = 40_000; spread = 3 * 10 ^ 4 }
    ∷ record { ts = 5_000; spread = 4 * 10 ^ 4 }
    ∷ record { ts = 1_000; spread = 10 ^ 3 }
    ∷ []

extreme_clear_iff_example :
    ((evaluate_l2 micro thresholds limits 700_000 none stormy).extreme_active ≡ false) ↔ (
      (any_fires (l2_results micro thresholds 700_000 none stormy) ≡ false)
      × ((stormy.extreme_active ≡ false) ⊎ IsRecovered micro thresholds limits 700_000 stormy))
extreme_clear_iff_example = extreme_clear_iff micro thresholds limits 700_000 none stormy

extreme_lasts_example :
    IsActiveSince micro thresholds limits 5000
      (pool_state micro "p" (run_monitor micro thresholds limits 3 calls monitor))
unfolding pool_state select
extreme_lasts_example =
    extreme_lasts micro thresholds limits 3 5000 "p" calls monitor (refl, refl)
      (omega arith, (tt, (omega arith, tt)))

windows_stay_sound_example :
    AreWindows micro
      (pool_state micro "p" (run_monitor micro thresholds limits 3 calls calm_monitor))
windows_stay_sound_example = windows_stay_sound micro thresholds limits 3 "p" unstopped calls

l3_stops_pool_example :
    IsStop (check_pre_tick micro thresholds limits 9000 first_pm monitor).0
    × IsStop
        (check_pre_tick micro thresholds limits 20_000 second_pm (
          run_monitor micro thresholds limits 3 calls
            (check_pre_tick micro thresholds limits 9000 first_pm monitor).1)).0
unfolding pool_state select keep_if state applicable hits context_keys sort_by_severity first_state
l3_stops_pool_example =
    l3_stops_pool micro thresholds limits 3 9000 20_000 first_pm second_pm calls monitor refl refl
      refl refl

no_veto_iff_example :
    ((check_pre_tick micro thresholds limits 9000 first_pm calm_monitor).0 ≡ none) ↔ (
      (state (some (context_of first_pm)) unstopped ≡ armed)
      × (trips micro thresholds limits 9000 first_pm (pool_state micro "p" calm_monitor) ≡ false)
      × ((pool_state micro "p" calm_monitor).extreme_active ≡ false)
      × ((pool_state micro "p" calm_monitor).soft_active ≡ false))
no_veto_iff_example = no_veto_iff micro thresholds limits 9000 first_pm calm_monitor refl

spread_sustained_iff_example :
    ((check_spread_sustained micro points (2 * 10 ^ 4) 30_000 41_000).fires ≡ true)
    ↔ HasRun micro
        (2 * 10 ^ 4)
        30_000
        41_000
        (from_newest (sort_by_ts (λ p. p.ts) (keep_if (λ p. leb p.ts 41_000) points)))
spread_sustained_iff_example =
    spread_sustained_iff micro (2 * 10 ^ 4) 30_000 41_000 points (refl, (refl, (refl, tt)))
