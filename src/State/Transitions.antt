-- ===== src/State/Transitions.antt =====
-- src/state/transitions.ts: the predicates of the transitions.
use lp_agent.Prelude.{
  ℕ, zero, suc, ◌+◌, ◌-◌, String, Bool, true, false, not, ◌&&◌, ◌||◌, Option, none, some, List, [],
  ◌∷◌, map, length, get_elem?, ltb, leb, if◌then◌else◌,
}
use Prim.Native.String.{◌++◌ as cat}
use lp_agent.Prelude.Floats.{Floats}
use lp_agent.State.{MarketState, extreme, ◌>>=◌}
use lp_agent.State.Params.{StateParams, min_dwell_ms}

-- What the module reads of the market: the bars of `snapshot.binance.sui`, oldest first.
pub record PriceBar (F : Type 0) : Type 0 where
  pub close : F

pub record MarketSnapshot (F : Type 0) : Type 0 where
  pub sui : List (PriceBar F)

pub record PredictionResponse (F : Type 0) : Type 0 where
  pub width_sigma : F
  pub p_above : F
  pub p_below : F

pub record ExtremeSignal : Type 0 where
  pub active : Bool
  pub trigger : String

-- `extremeSignal?.active`
abbrev pub is_active : Option ExtremeSignal → Bool
is_active none = false
is_active (some s) = s.active

abbrev pub close_of : {F : Type 0} → PriceBar F → F
close_of bar = bar.close

unfoldable pub dwell_elapsed : MarketState → ℕ → ℕ → Bool
dwell_elapsed current_state entered_at_ms now_ms =
    leb (entered_at_ms + min_dwell_ms current_state) now_ms

module _ {F : Type 0} (num : Floats F) where
  abbrev all_finite : List F → Bool
  all_finite [] = true
  all_finite (x ∷ xs) = num.is_finite x && all_finite xs

  -- One round of the loop over the background window; the average so far is nothing before the
  -- first return.
  unfoldable pub background_step : Option F → Option F → Option F → Option F
  background_step none curr ewma = ewma
  background_step (some prev) none ewma = ewma
  background_step (some prev) (some curr) ewma =
      if num.ge (num.decimal 0 0) prev
      then ewma
      else (let abs_ret = num.abs (num.div (num.sub curr prev) prev) in
          elim ewma [
            | none ↦ some abs_ret
            | some e ↦ some (
                num.add (num.mul (num.decimal 94 2) e)
                  (num.mul (num.sub (num.decimal 1 0) (num.decimal 94 2)) abs_ret))
          ])

  -- The rounds `i`, `i + 1`, ... of the loop, `rounds` of them.
  unfoldable pub background : List F → ℕ → ℕ → Option F → Option F
  background closes i zero ewma = ewma
  background closes i (suc rounds) ewma =
      background closes (suc i) rounds
        (background_step (get_elem? closes (i - 1)) (get_elem? closes i) ewma)

  abbrev or_zero : Option F → F
  or_zero none = num.decimal 0 0
  or_zero (some x) = x

  abbrev drift_of : List F → ℕ → F → F → F → F
  drift_of closes n close_0 close_1 close_2 =
      if num.ge (num.decimal 0 0) close_1 || num.ge (num.decimal 0 0) close_2
      then num.decimal 0 0
      else (let r_t = num.div (num.sub close_0 close_1) close_1 in
          let r_t1 = num.div (num.sub close_1 close_2) close_2 in
          let bg_end = n - 3 in
          let bg_start = (if leb (bg_end - 29) 1 then 1 else bg_end - 29) in
          let ewma = or_zero (background closes bg_start (suc bg_end - bg_start) none) in
          let sigma_ewm = num.max (num.decimal 1 6) ewma in
          num.div (num.add (num.abs r_t) (num.abs r_t1)) (num.mul (num.decimal 2 0) sigma_ewm))

  -- The three last closes are there with four bars.
  unfoldable pub drift_of_closes : List F → ℕ → Option F
  drift_of_closes closes n = do
    close_0 ← get_elem? closes (n - 1)
    close_1 ← get_elem? closes (n - 2)
    close_2 ← get_elem? closes (n - 3)
    some (drift_of closes n close_0 close_1 close_2)

  -- Nothing where it throws the RangeError.
  unfoldable pub compute_drift_strength : MarketSnapshot F → Option F
  compute_drift_strength snapshot =
      let closes = map close_of snapshot.sui in
      let n = length closes in
      if ltb n 4
      then some (num.decimal 0 0)
      else if not (all_finite closes)
      then none
      else drift_of_closes closes n

  abbrev pub p_break : PredictionResponse F → F
  p_break pred = num.max pred.p_above pred.p_below

  abbrev pub p_sum : PredictionResponse F → F
  p_sum pred = num.add pred.p_above pred.p_below

  unfoldable pub should_enter_trend :
      MarketSnapshot F → PredictionResponse F → StateParams F → Option Bool
  should_enter_trend snapshot pred params = do
    drift_strength ← compute_drift_strength snapshot
    some (
        if num.gt drift_strength params.drift_strength_entry
        then true
        else if num.gt (p_break pred) params.p_break_entry
        then true
        else false)

  unfoldable pub should_exit_trend :
      MarketSnapshot F → PredictionResponse F → StateParams F → Option Bool
  should_exit_trend snapshot pred params = do
    drift_strength ← compute_drift_strength snapshot
    some (
        if num.gt drift_strength params.drift_strength_exit
        then false
        else if num.gt (p_break pred) params.p_break_exit
        then false
        else true)

  abbrev p_sum_trigger : PredictionResponse F → StateParams F → String
  p_sum_trigger pred params =
      cat "p_break_sum=" (
        cat (num.to_fixed (p_sum pred) 4)
          (cat ">threshold=" (num.print params.p_break_sum_extreme)))

  -- The trigger where it answers `enter: true`.
  unfoldable pub should_enter_extreme :
      PredictionResponse F → Option ExtremeSignal → StateParams F → Option String
  should_enter_extreme pred none params =
      if num.gt (p_sum pred) params.p_break_sum_extreme
      then some (p_sum_trigger pred params)
      else none
  should_enter_extreme pred (some s) params =
      if s.active
      then some s.trigger
      else if num.gt (p_sum pred) params.p_break_sum_extreme
      then some (p_sum_trigger pred params)
      else none

  unfoldable pub should_exit_extreme :
      PredictionResponse F → Option ExtremeSignal → Bool → ℕ → ℕ → StateParams F → Bool
  should_exit_extreme pred extreme_signal vol_recovered extreme_entered_at_ms now_ms params =
      if is_active extreme_signal
      then false
      else if num.gt (p_sum pred) params.p_break_sum_extreme_exit
      then false
      else if ltb now_ms (extreme_entered_at_ms + min_dwell_ms extreme)
      then false
      else if not vol_recovered
      then false
      else true
