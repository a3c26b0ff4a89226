-- ===== src/Risk/Circuits.antt =====
-- src/risk/circuits.ts: the triggers of the EXTREME circuit over windows of points, and the test for
-- leaving it. Times are milliseconds; `now - d <= ts` is written `now <= ts + d`.
pub mod Streak
use lp_agent.Prelude.{
  ℕ, ◌+◌, String, Bool, true, false, not, ◌&&◌, ◌||◌, Option, none, some, List, [], ◌∷◌, map, leb,
  ltb, if◌then◌else◌,
}
use Prim.Native.String.{◌++◌ as cat}
use lp_agent.Prelude.Floats.{Floats}
use lp_agent.Prelude.Int.{pos, ◌-ℤ◌, pos_part}

pub record PricePoint (F : Type 0) : Type 0 where
  pub ts : ℕ
  pub price : F

pub record TvlPoint (F : Type 0) : Type 0 where
  pub ts : ℕ
  pub tvl_usd : F

pub record SpreadPoint (F : Type 0) : Type 0 where
  pub ts : ℕ
  pub spread : F

pub record TriggerResult (F : Type 0) : Type 0 where
  pub fires : Bool
  pub metric : String
  pub threshold : F
  pub observed : F

-- Ages in milliseconds when the sample was taken; a source that never updated has the largest exact
-- integer, which is finite.
pub record SourceStalenessInput : Type 0 where
  pub captured_at_ms : ℕ
  pub sui : ℕ
  pub cetus : ℕ
  pub derivatives : ℕ

-- ---- windows

unfoldable pub keep_if : {A : Type 0} → (A → Bool) → List A → List A
keep_if test [] = []
keep_if test (p ∷ ps) = let rest = keep_if test ps in if test p then p ∷ rest else rest

abbrev pub within_window : {A : Type 0} → (A → ℕ) → List A → ℕ → ℕ → List A
within_window ts window now_ms duration_ms = keep_if (λ p. leb now_ms (ts p + duration_ms)) window

-- The stable sort by time.
unfoldable pub insert_by_ts : {A : Type 0} → (A → ℕ) → A → List A → List A
insert_by_ts ts p [] = p ∷ []
insert_by_ts ts p (q ∷ qs) =
    let rest = insert_by_ts ts p qs in if leb (ts p) (ts q) then p ∷ q ∷ qs else q ∷ rest

unfoldable pub sort_by_ts : {A : Type 0} → (A → ℕ) → List A → List A
sort_by_ts ts [] = []
sort_by_ts ts (p ∷ ps) = insert_by_ts ts p (sort_by_ts ts ps)

-- The list from its end: `from_newest` of a list sorted by time.
unfoldable pub onto : {A : Type 0} → List A → List A → List A
onto out [] = out
onto out (p ∷ ps) = onto (p ∷ out) ps

abbrev pub from_newest : {A : Type 0} → List A → List A
from_newest ps = onto [] ps

abbrev pub any_fires : {F : Type 0} → List (TriggerResult F) → Bool
any_fires [] = false
any_fires (r ∷ rs) = r.fires || any_fires rs

module _ {F : Type 0} (num : Floats F) where
  abbrev pub whole : ℕ → F
  whole n = num.decimal n 0

  abbrev pub ms : ℕ → F
  ms n = num.of_int (pos n)

  abbrev pub blind : String → F → TriggerResult F
  blind metric threshold = record {
    fires = false;
    metric = metric;
    threshold = threshold;
    observed = num.nan;
  }

  -- ---- volatility

  unfoldable pub max_price : F → List (PricePoint F) → F
  max_price m [] = m
  max_price m (p ∷ ps) = max_price (num.max m p.price) ps

  unfoldable pub min_price : F → List (PricePoint F) → F
  min_price m [] = m
  min_price m (p ∷ ps) = min_price (num.min m p.price) ps

  unfoldable pub spread_of_prices : F → F → F
  spread_of_prices max_p min_p =
      if num.gt min_p (whole 0) then num.div (num.sub max_p min_p) min_p else num.nan

  abbrev pub volatility_of : List (PricePoint F) → F → TriggerResult F
  volatility_of (p ∷ q ∷ ps) threshold =
      let observed = spread_of_prices (max_price p.price (q ∷ ps)) (min_price p.price (q ∷ ps)) in
      record {
        fires = num.is_finite observed && num.gt observed threshold;
        metric = "volatility_5m";
        threshold = threshold;
        observed = observed;
      }
  volatility_of _ threshold = blind "volatility_5m" threshold

  unfoldable pub check_volatility_5m : List (PricePoint F) → F → ℕ → ℕ → TriggerResult F
  check_volatility_5m price_window threshold now_ms window_ms =
      volatility_of (within_window (λ p. p.ts) price_window now_ms window_ms) threshold

  -- ---- TVL

  abbrev pub drop_of : F → F → F → TriggerResult F
  drop_of oldest newest threshold =
      if num.ge (whole 0) oldest
      then blind "tvl_drop_5m" threshold
      else (let observed = num.div (num.sub oldest newest) oldest in
          record {
            fires = num.gt observed threshold;
            metric = "tvl_drop_5m";
            threshold = threshold;
            observed = observed;
          })

  unfoldable pub last_tvl : F → List (TvlPoint F) → F
  last_tvl tvl [] = tvl
  last_tvl tvl (p ∷ ps) = last_tvl p.tvl_usd ps

  -- Sorted, two points at least.
  abbrev pub drop_in : List (TvlPoint F) → F → TriggerResult F
  drop_in (p ∷ q ∷ ps) threshold = drop_of p.tvl_usd (last_tvl q.tvl_usd ps) threshold
  drop_in _ threshold = blind "tvl_drop_5m" threshold

  unfoldable pub check_tvl_drop_5m : List (TvlPoint F) → F → ℕ → ℕ → TriggerResult F
  check_tvl_drop_5m tvl_window threshold now_ms window_ms =
      drop_in (sort_by_ts (λ p. p.ts) (within_window (λ p. p.ts) tvl_window now_ms window_ms))
        threshold

  -- ---- spread

  -- The scan from the newest point backwards, `start` its last time so far.
  unfoldable pub streak_back : F → ℕ → List (SpreadPoint F) → ℕ
  streak_back threshold start [] = start
  streak_back threshold start (p ∷ ps) =
      let rest = streak_back threshold p.ts ps in
      if num.gt (num.abs p.spread) threshold then rest else start

  -- `findLastIndex`, on the newest first.
  unfoldable pub up_to_now : ℕ → List (SpreadPoint F) → List (SpreadPoint F)
  up_to_now now_ms [] = []
  up_to_now now_ms (p ∷ ps) =
      let rest = up_to_now now_ms ps in if leb p.ts now_ms then p ∷ ps else rest

  abbrev pub streak_from : F → List (SpreadPoint F) → Option ℕ
  streak_from threshold [] = none
  streak_from threshold (p ∷ ps) =
      if num.ge threshold (num.abs p.spread) then none else some (streak_back threshold p.ts ps)

  unfoldable pub find_streak_start : List (SpreadPoint F) → F → ℕ → Option ℕ
  find_streak_start newest threshold now_ms = streak_from threshold (up_to_now now_ms newest)

  abbrev pub started_by : ℕ → ℕ → Option ℕ → Bool
  started_by sustain_ms now_ms none = false
  started_by sustain_ms now_ms (some start) = leb (start + sustain_ms) now_ms

  -- The points up to now, the newest first.
  unfoldable pub sustained_in : List (SpreadPoint F) → F → ℕ → ℕ → TriggerResult F
  sustained_in [] threshold sustain_ms now_ms = blind "spread_sustained" threshold
  sustained_in (p ∷ ps) threshold sustain_ms now_ms = record {
    fires =
        if num.ge threshold (num.abs p.spread)
        then false
        else started_by sustain_ms now_ms (find_streak_start (p ∷ ps) threshold now_ms);
    metric = "spread_sustained";
    threshold = threshold;
    observed = num.abs p.spread;
  }

  unfoldable pub check_spread_sustained : List (SpreadPoint F) → F → ℕ → ℕ → TriggerResult F
  check_spread_sustained spread_window threshold sustain_ms now_ms =
      sustained_in
        (from_newest (sort_by_ts (λ p. p.ts) (keep_if (λ p. leb p.ts now_ms) spread_window)))
        threshold sustain_ms now_ms

  -- ---- the other triggers

  abbrev pub check_p_break_sum : F → F → F → TriggerResult F
  check_p_break_sum p_above p_below threshold = record {
    fires = num.gt (num.add p_above p_below) threshold;
    metric = "p_break_sum";
    threshold = threshold;
    observed = num.add p_above p_below;
  }

  abbrev pub check_pnl_24h : F → F → TriggerResult F
  check_pnl_24h pnl_24h_pct threshold = record {
    fires = num.gt threshold pnl_24h_pct;
    metric = "pnl_24h_pct";
    threshold = threshold;
    observed = pnl_24h_pct;
  }

  abbrev pub check_data_outage : Option ℕ → ℕ → ℕ → TriggerResult F
  check_data_outage none stale_threshold_ms now_ms = record {
    fires = true;
    metric = "data_outage_staleness_ms";
    threshold = ms stale_threshold_ms;
    observed = num.infinity;
  }
  check_data_outage (some snapshot_ts) stale_threshold_ms now_ms = record {
    fires = ltb (snapshot_ts + stale_threshold_ms) now_ms;
    metric = "data_outage_staleness_ms";
    threshold = ms stale_threshold_ms;
    observed = num.of_int (pos now_ms -ℤ pos snapshot_ts);
  }

  -- `age + Math.max(0, nowMs - capturedAtMs)`
  abbrev pub stale_source : String → ℕ → ℕ → ℕ → TriggerResult F
  stale_source src age threshold drift = record {
    fires = ltb threshold (age + drift);
    metric = cat "source_stale_" src;
    threshold = ms threshold;
    observed = ms (age + drift);
  }

  abbrev pub check_source_staleness :
      Option SourceStalenessInput → ℕ → ℕ → ℕ → ℕ → List (TriggerResult F)
  check_source_staleness none sui_ms cetus_ms deriv_ms now_ms =
      blind (cat "source_stale_" "sui") (ms sui_ms)
      ∷ blind (cat "source_stale_" "cetus") (ms cetus_ms)
      ∷ blind (cat "source_stale_" "derivatives") (ms deriv_ms)
      ∷ []
  check_source_staleness (some input) sui_ms cetus_ms deriv_ms now_ms =
      let drift = pos_part (pos now_ms -ℤ pos input.captured_at_ms) in
      stale_source "sui" input.sui sui_ms drift
      ∷ stale_source "cetus" input.cetus cetus_ms drift
      ∷ stale_source "derivatives" input.derivatives deriv_ms drift
      ∷ []

  -- ---- leaving EXTREME

  unfoldable pub can_exit_extreme : List (TriggerResult F) → ℕ → ℕ → ℕ → F → F → Bool
  can_exit_extreme trigger_results entered_at_ms stable_required_ms now_ms recovery volatility =
      if any_fires trigger_results
      then false
      else if not (num.is_finite volatility) || num.ge volatility recovery
      then false
      else not (ltb now_ms (entered_at_ms + stable_required_ms))
