-- ===== src/Forecast/BinWeights.antt =====
-- src/forecast/binWeights.ts. The printed price of a bin is left out of its weight.
use lp_agent.Prelude.{ℕ, ◌+◌, none, some, List, [], ◌∷◌, length, ◌&&◌, if◌then◌else◌}
use lp_agent.Prelude.Floats.{Floats}
use lp_agent.Prelude.Int.{ℤ, pos, negsuc, pos_part, neg_part, ◌+ℤ◌, ◌-ℤ◌}
use lp_agent.Decision.DiffPlan.{PoolOrientation, sum_f, up_to}
use lp_agent.Decision.DiffPlan.Rows.{human_price_for_bin}
use lp_agent.Forecast.Volatility.{PriceDistribution}

pub record BinWeightInput (F : Type 0) : Type 0 where
  pub bins : List ℤ
  pub orientation : PoolOrientation F
  pub active_bin_id : ℤ
  pub fee_rate_bps : F
  pub distribution : PriceDistribution F

module _ {F : Type 0} (num : Floats F) where
  unfoldable pub norm_cdf : F → F
  norm_cdf x =
      let sign =
        if num.gt (num.decimal 0 0) x then num.neg (num.decimal 1 0) else num.decimal 1 0 in
      let ax = num.div (num.abs x) (num.sqrt (num.decimal 2 0)) in
      let t =
        num.div (num.decimal 1 0)
          (num.add (num.decimal 1 0) (num.mul (num.decimal 3275911 7) ax)) in
      let a1 = num.decimal 254829592 9 in
      let a2 = num.neg (num.decimal 284496736 9) in
      let a3 = num.decimal 1421413741 9 in
      let a4 = num.neg (num.decimal 1453152027 9) in
      let a5 = num.decimal 1061405429 9 in
      let poly =
        num.add
          (num.mul (num.add (num.mul (num.add (num.mul (num.add (num.mul a5 t) a4) t) a3) t) a2) t)
          a1 in
      let erf_approx =
        num.sub (num.decimal 1 0) (num.mul (num.mul poly t) (num.exp (num.mul (num.neg ax) ax))) in
      num.mul (num.decimal 5 1) (num.add (num.decimal 1 0) (num.mul sign erf_approx))

  abbrev pub or_nought : F → F
  or_nought p = if num.gt p (num.decimal 0 0) then p else num.decimal 0 0

  unfoldable pub mass_in_log_range : F → F → F → F → F
  mass_in_log_range log_l log_h mu sigma =
      if num.ge (num.decimal 0 0) sigma
      then if num.ge mu log_l && num.gt log_h mu then num.decimal 1 0 else num.decimal 0 0
      else or_nought (
          num.sub (norm_cdf (num.div (num.sub log_h mu) sigma))
            (norm_cdf (num.div (num.sub log_l mu) sigma)))

  unfoldable pub mid_price_log : ℤ → ℤ → PoolOrientation F → F
  mid_price_log bin_id step o = num.mul (num.decimal 5 1) (
      num.add (num.log (human_price_for_bin num o bin_id))
        (num.log (human_price_for_bin num o (bin_id +ℤ step))))

  abbrev pub distance : ℤ → ℤ → ℕ
  distance k active = pos_part (k -ℤ active) + neg_part (k -ℤ active)

  unfoldable pub fee_derate : ℤ → ℤ → F → F → F
  fee_derate bin_id active_bin_id bin_step_bps fee_rate_bps =
      let dist_bins = num.of_int (pos (distance bin_id active_bin_id)) in
      let dead_zone_bins = num.div fee_rate_bps bin_step_bps in
      if num.ge (num.decimal 0 0) fee_rate_bps
      then num.decimal 1 0
      else if num.ge dist_bins dead_zone_bins
      then num.decimal 1 0
      else num.div dist_bins (num.max dead_zone_bins (num.decimal 1 0))

  -- The mass of a bin after the derate.
  abbrev pub mass_of : BinWeightInput F → ℤ → F
  mass_of input bin_id =
      let log_a = mid_price_log bin_id (negsuc 0) input.orientation in
      let log_b = mid_price_log bin_id (pos 1) input.orientation in
      num.mul
        (mass_in_log_range (num.min log_a log_b) (num.max log_a log_b) input.distribution.log_mu
          input.distribution.sigma)
        (fee_derate bin_id input.active_bin_id input.orientation.bin_step input.fee_rate_bps)

  unfoldable pub raw_masses : BinWeightInput F → List ℤ → List (ℤ × F)
  raw_masses input [] = []
  raw_masses input (k ∷ ks) = (k, mass_of input k) ∷ raw_masses input ks

  unfoldable pub each_weight : (F → F) → List (ℤ × F) → List (ℤ × F)
  each_weight f [] = []
  each_weight f ((k, w) ∷ entries) = (k, f w) ∷ each_weight f entries

  unfoldable pub mass_list : List (ℤ × F) → List F
  mass_list [] = []
  mass_list ((k, w) ∷ entries) = w ∷ mass_list entries

  -- `computeBinWeights(input).bins`
  unfoldable pub compute_bin_weights : BinWeightInput F → List (ℤ × F)
  compute_bin_weights input =
      let raw = raw_masses input input.bins in
      let raw_mass = sum_f num (mass_list raw) in
      if num.ge (num.decimal 0 0) raw_mass
      then each_weight (λ _. num.div (num.decimal 1 0) (num.of_int (pos (length raw)))) raw
      else each_weight (λ w. num.div w raw_mass) raw

  -- The half width is rounded and clipped; where it is NaN the loop does not run.
  unfoldable pub pick_bin_range : ℤ → F → ℤ → List ℤ
  pick_bin_range active_bin_id half_width_bins max_half_width_bins =
      elim (num.to_bigint (
        num.min (num.max (num.round half_width_bins) (num.decimal 1 0))
          (num.of_int max_half_width_bins))) [
            | none ↦ []
            | some half ↦ up_to (active_bin_id -ℤ half) (active_bin_id +ℤ half)
          ]
