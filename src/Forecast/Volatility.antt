-- ===== src/Forecast/Volatility.antt =====
-- The estimators of src/forecast/volatility.ts that the strategies call, and the distribution of
-- types.ts. Nothing where a function throws.
use lp_agent.Prelude.{
  ℕ, ◌+◌, String, Bool, false, ◌||◌, Option, none, some, List, [], ◌∷◌, leb, if◌then◌else◌,
}
use lp_agent.Prelude.Floats.{Floats}
use lp_agent.Prelude.Int.{pos}

pub record OhlcvBar (F : Type 0) : Type 0 where
  pub bucket_start_ms : ℕ
  pub open_price : F
  pub high : F
  pub low : F
  pub close : F

pub record PriceDistribution (F : Type 0) : Type 0 where
  pub log_mu : F
  pub sigma : F
  pub horizon_ms : F
  pub estimator : String

module _ {F : Type 0} (num : Floats F) where
  abbrev pub default_ewma_lambda : F
  default_ewma_lambda = num.decimal 94 2

  abbrev pub min_sigma : F
  min_sigma = num.decimal 1 6

  -- The loop over the third price and those after it.
  unfoldable pub ewma_from : F → F → F → List F → F
  ewma_from lambda var_est prev [] = num.max (num.sqrt var_est) min_sigma
  ewma_from lambda var_est prev (p ∷ ps) =
      let r = num.log (num.div p prev) in
      ewma_from lambda
        (num.add (num.mul lambda var_est)
          (num.mul (num.mul (num.sub (num.decimal 1 0) lambda) r) r))
        p ps

  unfoldable pub ewma_sigma : List F → F → Option F
  ewma_sigma [] lambda = some min_sigma
  ewma_sigma (p ∷ []) lambda = some min_sigma
  ewma_sigma (p ∷ q ∷ ps) lambda =
      if num.ge (num.decimal 0 0) lambda || num.ge lambda (num.decimal 1 0)
      then none
      else (let r = num.log (num.div q p) in some (ewma_from lambda (num.mul r r) q ps))

  -- `bar.high <= 0 || bar.low <= 0 || bar.high === bar.low`; the last as two comparisons.
  abbrev pub is_flat : OhlcvBar F → Bool
  is_flat bar =
      num.ge (num.decimal 0 0) bar.high
      || num.ge (num.decimal 0 0) bar.low
      || (if num.ge bar.high bar.low then num.ge bar.low bar.high else false)

  unfoldable pub parkinson_from : F → F → ℕ → List (OhlcvBar F) → F
  parkinson_from factor sum n [] =
      if leb n 0 then min_sigma else num.max (num.sqrt (num.div sum (num.of_int (pos n)))) min_sigma
  parkinson_from factor sum n (bar ∷ bars) =
      let ln = num.log (num.div bar.high bar.low) in
      let flat = is_flat bar in
      parkinson_from factor (if flat then sum else num.add sum (num.mul (num.mul factor ln) ln))
        (if flat then n else n + 1) bars

  unfoldable pub parkinson_sigma : List (OhlcvBar F) → F
  parkinson_sigma [] = min_sigma
  parkinson_sigma (bar ∷ bars) =
      parkinson_from
        (num.div (num.decimal 1 0) (num.mul (num.decimal 4 0) (num.log (num.decimal 2 0))))
        (num.decimal 0 0) 0 (bar ∷ bars)

  unfoldable pub scale_sigma_to_horizon : F → F → F → Option F
  scale_sigma_to_horizon sigma_per_bar bar_period_ms horizon_ms =
      let periods = num.div horizon_ms bar_period_ms in
      if num.ge (num.decimal 0 0) bar_period_ms
      then none
      else if num.ge (num.decimal 0 0) periods
      then some min_sigma
      else some (num.max (num.mul sigma_per_bar (num.sqrt periods)) min_sigma)
