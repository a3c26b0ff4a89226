-- ===== src/Decision/DiffPlan.antt =====
-- src/decision/diffPlanner.ts, with the orientation of a pool from src/domain/binMath.ts: the plan
-- that moves a position to its target. Here are the state it reads and the weights of the target.
-- DiffPlan/Split divides an amount by weights, DiffPlan/Build has the parts on integers,
-- DiffPlan/Rows builds the bins with their amounts, DiffPlan/Quiet is the gate, and DiffPlan/Plan is
-- diffPlan.
pub mod Split
pub mod Build
pub mod Rows
pub mod Quiet
pub mod Plan
mod Examples
use lp_agent.Prelude.{
  ℕ, zero, suc, ◌+◌, String, Bool, true, false, not, ◌&&◌, ◌||◌, Option, none, some, List, [], ◌∷◌,
  map, length, ltb, if◌then◌else◌,
}
use lp_agent.Prelude.Floats.{Floats}
use lp_agent.Prelude.Int.{ℤ, pos, negsuc, pos_part, ◌+ℤ◌, ◌-ℤ◌, ltb_ℤ, leb_ℤ, eqb_ℤ}
use lp_agent.State.{MarketState}

pub record PositionBin : Type 0 where
  pub bin_id : ℤ
  pub liquidity_share : ℤ

-- What the planner reads of a PM: its balances, its fee bag, its bins, and the value of the
-- position where the execution layer has estimated it.
pub record PmState : Type 0 where
  pub pm_id : String
  pub balance_a : ℤ
  pub balance_b : ℤ
  pub fee_a : ℤ
  pub fee_b : ℤ
  pub position_bins : List PositionBin
  pub position_value : Option (ℤ × ℤ)

-- `halfWidth` and `toleranceBins` are rounded where the state machine derives them.
pub record PlanContext (F : Type 0) : Type 0 where
  pub state : MarketState
  pub half_width : ℤ
  pub trend_bias : F
  pub strong_trend : Bool
  pub tolerance_bins : ℤ

pub record StopLoss : Type 0 where
  pub relaxed_ask_floor_bin : Option ℤ
  pub force_liquidation_bins : List ℤ

pub record PoolOrientation (F : Type 0) : Type 0 where
  pub bin_step : F
  pub pool_coin_a_decimals : ℤ
  pub pool_coin_b_decimals : ℤ
  pub pool_coin_a_is_quote : Bool

pub record DiffPlanInput (F : Type 0) : Type 0 where
  pub pm : PmState
  pub active_bin_id : ℤ
  pub fee_rate_bps : F
  pub ctx : PlanContext F
  pub width_sigma : F
  pub orientation : PoolOrientation F
  pub stop_loss : Option StopLoss

-- +1 is true.
abbrev pub bin_direction : {F : Type 0} → PoolOrientation F → Bool
bin_direction o = not o.pool_coin_a_is_quote

abbrev pub min_ℤ : ℤ → ℤ → ℤ
min_ℤ a b = if leb_ℤ a b then a else b

abbrev pub max_ℤ : ℤ → ℤ → ℤ
max_ℤ a b = if leb_ℤ a b then b else a

-- `for (let k = lo; k <= hi; k++)`, and the count of its rounds.
unfoldable pub count_up : ℤ → ℕ → List ℤ
count_up k zero = []
count_up k (suc n) = k ∷ count_up (k +ℤ pos 1) n

unfoldable pub count_down : ℤ → ℕ → List ℤ
count_down k zero = []
count_down k (suc n) = k ∷ count_down (k -ℤ pos 1) n

abbrev pub rounds : ℤ → ℤ → ℕ
rounds lo hi = if leb_ℤ lo hi then suc (pos_part (hi -ℤ lo)) else 0

abbrev pub up_to : ℤ → ℤ → List ℤ
up_to lo hi = count_up lo (rounds lo hi)

abbrev pub down_to : ℤ → ℤ → List ℤ
down_to hi lo = count_down hi (rounds lo hi)

-- The sign of a number that is not NaN, and the sign of the move in bin space.
abbrev pub flip : Bool → ℤ → ℤ
flip true s = s
flip false s = pos 0 -ℤ s

module _ {F : Type 0} (num : Floats F) where
  abbrev pub whole : ℕ → F
  whole n = num.decimal n 0

  abbrev pub sum_f : List F → F
  sum_f ws = sum_from_f (whole 0) ws
    where
      sum_from_f : F → List F → F
      sum_from_f s [] = s
      sum_from_f s (w ∷ ws) = sum_from_f (num.add s w) ws

  unfoldable pub gaussian_weight : ℤ → ℤ → F → F
  gaussian_weight k center_bin width_sigma =
      if num.ge (whole 0) width_sigma
      then (if eqb_ℤ k center_bin then whole 1 else whole 0)
      else (let d = num.of_int (k -ℤ center_bin) in
          num.exp
            (num.div (num.neg (num.mul d d)) (num.mul (num.mul (whole 2) width_sigma) width_sigma)))

  -- The loop that fills `raw`: the bins of a range but the active one, with a positive weight.
  unfoldable pub raw_weights : (ℤ → F) → ℤ → List ℤ → List (ℤ × F)
  raw_weights weight active_bin [] = []
  raw_weights weight active_bin (k ∷ ks) =
      let rest = raw_weights weight active_bin ks in
      if eqb_ℤ k active_bin
      then rest
      else if num.gt (weight k) (whole 0)
      then (k, weight k) ∷ rest
      else rest

  abbrev pub weights_of : List (ℤ × F) → List F
  weights_of = map (λ entry. entry.1)

  abbrev pub bins_of : List (ℤ × F) → List ℤ
  bins_of = map (λ entry. entry.0)

  unfoldable pub normalized : List (ℤ × F) → List (ℤ × F)
  normalized raw =
      let sum = sum_f (weights_of raw) in
      if num.ge (whole 0) sum then [] else map (λ entry. (entry.0, num.div entry.1 sum)) raw

  unfoldable pub compute_normal_weights : ℤ → ℤ → ℤ → F → ℤ → ℤ → List (ℤ × F)
  compute_normal_weights center_bin active_bin half_width width_sigma pm_lower pm_upper =
      let lo = max_ℤ (center_bin -ℤ half_width) pm_lower in
      let hi = min_ℤ (center_bin +ℤ half_width) pm_upper in
      normalized
        (raw_weights (λ k. gaussian_weight k center_bin width_sigma) active_bin (up_to lo hi))

  abbrev pub sign : F → ℤ
  sign x = if num.gt x (whole 0) then pos 1 else if num.gt (whole 0) x then negsuc 0 else pos 0

  abbrev pub sign_ℤ : ℤ → ℤ
  sign_ℤ x = if ltb_ℤ (pos 0) x then pos 1 else if ltb_ℤ x (pos 0) then negsuc 0 else pos 0

  -- The one to three bins on the side against the move.
  unfoldable pub counter_bins : ℤ → ℤ → ℤ → ℤ → List ℤ
  counter_bins active_bin move_sign pm_lower pm_upper =
      if ltb_ℤ move_sign (pos 0)
      then up_to (active_bin +ℤ pos 1) (min_ℤ (active_bin +ℤ pos 3) pm_upper)
      else down_to (active_bin -ℤ pos 1) (max_ℤ (active_bin -ℤ pos 3) pm_lower)

  abbrev pub skewed : ℤ → F → F → ℤ → ℤ → F
  skewed active_bin width_sigma skew move_sign k =
      let w = gaussian_weight k active_bin width_sigma in
      if eqb_ℤ move_sign (pos 0)
      then w
      else num.mul w (
          if eqb_ℤ (sign_ℤ (k -ℤ active_bin)) move_sign
          then num.add (whole 1) skew
          else num.sub (whole 1) skew)

  unfoldable pub compute_trend_weights : ℤ → F → ℤ → F → ℤ → ℤ → Bool → Bool → List (ℤ × F)
  compute_trend_weights active_bin trend_bias half_width width_sigma pm_lower pm_upper strong_trend
        rising =
      let move_sign = flip rising (sign trend_bias) in
      if strong_trend
      then (let bins = counter_bins active_bin move_sign pm_lower pm_upper in
          map (λ k. (k, num.div (whole 1) (num.of_int (pos (length bins))))) bins)
      else (let lo = max_ℤ (active_bin -ℤ half_width) pm_lower in
          let hi = min_ℤ (active_bin +ℤ half_width) pm_upper in
          let skew = num.mul (num.decimal 3 1) (num.abs trend_bias) in
          normalized
            (raw_weights (skewed active_bin width_sigma skew move_sign) active_bin (up_to lo hi)))
