-- ===== src/Strategies.antt =====
-- src/strategies: what a strategy answers at a tick (types.ts), and the strategies.
pub mod SingleBin
pub mod MultiBinSpot
mod Examples
use lp_agent.Prelude.{String, Option, Bool, true, false}
use lp_agent.Prelude.Int.{ℤ}
use lp_agent.Decision.{RebalancePlan}

-- With the boundary of the fills and the state context, of type C, where the strategy gives them.
pub data StrategyOutput (C : Type 0) : Type 0 where
  plan_and_reconcile : RebalancePlan → Option ℤ → Option C → StrategyOutput C
  plan_only : RebalancePlan → Option ℤ → Option C → StrategyOutput C
  reconcile_only : String → Option C → StrategyOutput C
  quiet : String → StrategyOutput C
