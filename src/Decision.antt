-- ===== src/Decision.antt =====
-- src/decision: plans for a rebalance. The plan's amounts are `bigint`s; bins are numbered by
-- integers, and the map of shares to remove is the list of its entries.
pub mod Invariants
pub mod Rescale
pub mod Lots
pub mod Inventory
pub mod DiffPlan
pub mod AgeStopLoss
mod Examples
use lp_agent.Prelude.{ℕ, String, Bool, Option, List, [], ◌∷◌}
use lp_agent.Prelude.Int.{ℤ, pos, ◌+ℤ◌}

pub data Priority : Type 0 where
  normal emergency : Priority

-- `RebalancePlan` of src/domain/types.ts.
pub record RebalancePlan : Type 0 where
  pub pm_id : String
  pub remove_shares : List (ℤ × ℤ)
  pub add_amount_a : ℤ
  pub add_amount_b : ℤ
  pub add_bins : List ℤ
  pub add_amounts_a : List ℤ
  pub add_amounts_b : List ℤ
  pub collect_fees : Bool
  pub reason : String
  pub planned_active_bin_id : Option ℤ
  pub priority : Option Priority

-- `reduce((s, v) => s + v, 0n)`
unfoldable pub sum_from : ℤ → List ℤ → ℤ
sum_from s [] = s
sum_from s (v ∷ vs) = sum_from (s +ℤ v) vs

abbrev pub total : List ℤ → ℤ
total = sum_from (pos 0)
