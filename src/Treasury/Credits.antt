-- ===== src/Treasury/Credits.antt =====
-- src/treasury/credits.ts: the conversion of a deposit into credits. (`estimateRebalanceCost` is
-- floating-point arithmetic on prices and is not modelled.)
pub mod Rounding
use lp_agent.Prelude.{ℕ, ◌-◌, ◌*◌, ◌/◌, ◌^◌, Option, none, some, ltb, ◌===◌, if◌then◌else◌}
use lp_agent.Prelude.Int.{ℤ, pos, negsuc}
use lp_agent.Treasury.Db.{CreditRate}

-- Number.MAX_SAFE_INTEGER
abbrev pub max_safe : ℕ
max_safe = 2 ^ 53 - 1

-- `raw > MAX_SAFE ? MAX_SAFE : raw`, at any limit.
unfoldable pub clamp : ℕ → ℕ → ℕ
clamp limit raw = if ltb limit raw then limit else raw

unfoldable pub credits_for_amount : ℤ → Option CreditRate → ℕ
credits_for_amount amount_atomic none = 0
credits_for_amount (negsuc n) (some rate) = 0
credits_for_amount (pos n) (some rate) =
    if n === 0
    then 0
    else if rate.rate_den === 0
    then 0
    else clamp max_safe (n * rate.rate_num / rate.rate_den)
