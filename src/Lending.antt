-- ===== src/Lending.antt =====
-- src/sui/lending/math.ts: what a redeem from Scallop or Kai pays, and how much to burn for a wanted
-- amount. The snapshots hold unsigned integers of the chain, so they are naturals; a wanted amount
-- may be negative.
pub mod Fee
mod Examples
pub mod Target
pub mod Burn
pub mod Scallop
pub mod Redeeming
pub mod Kai
use lp_agent.Prelude.{
  ℕ, zero, suc, ◌+◌, ◌-◌, ◌*◌, ◌/◌, ◌^◌, Bool, true, false, Option, none, some, ltb, leb, ◌===◌,
  if◌then◌else◌,
}
use lp_agent.Prelude.Int.{ℤ, pos, negsuc, sub_ℕ}

abbrev pub max_u64 : ℕ
max_u64 = 2 ^ 64 - 1

abbrev pub fee_denominator : ℕ
fee_denominator = 10_000

abbrev pub max_fee_rate : ℕ
max_fee_rate = 3_000

abbrev pub lending_safe_margin_wrapper_raw : ℕ
lending_safe_margin_wrapper_raw = 100

pub data LendingError : Type 0 where
  reserve_empty invalid_fee_rate bad_divisor : LendingError

pub data Redeem (A : Type 0) : Type 0 where
  ok : A → Redeem A
  throw : LendingError → Redeem A

infixl 5 ◌>>=◌
abbrev pub ◌>>=◌ : {A B : Type 0} → Redeem A → (A → Redeem B) → Redeem B
ok a >>= f = f a
throw e >>= f = throw e

-- At a divisor that is not negative; `ceil_div` tests for zero.
unfoldable pub ceil_div : ℕ → ℕ → Redeem ℕ
ceil_div a b = if b === 0 then throw bad_divisor else ok ((a + b - 1) / b)

-- ---- the fee

pub record YieldFee : Type 0 where
  pub interest : ℕ
  pub fee_amount : ℕ
  pub to_balance : ℕ

unfoldable pub apply_yield_fee : ℕ → ℕ → ℕ → Redeem YieldFee
apply_yield_fee redeemed principal fee_rate_bp =
    if ltb max_fee_rate fee_rate_bp
    then throw invalid_fee_rate
    else (let interest = (if ltb principal redeemed then redeemed - principal else 0) in
        let fee = interest * fee_rate_bp / fee_denominator in
        ok (record { interest = interest; fee_amount = fee; to_balance = redeemed - fee }))

pub record RedeemPrediction : Type 0 where
  pub expected_underlying : ℕ
  pub principal_portion : ℕ
  pub interest : ℕ
  pub fee_amount : ℕ
  pub to_balance : ℕ

abbrev pub prediction_of : ℕ → ℕ → YieldFee → RedeemPrediction
prediction_of expected portion fee = record {
  expected_underlying = expected;
  principal_portion = portion;
  interest = fee.interest;
  fee_amount = fee.fee_amount;
  to_balance = fee.to_balance;
}

-- ---- Scallop

pub record ScallopReserveSnapshot : Type 0 where
  pub cash : ℕ
  pub debt : ℕ
  pub revenue : ℕ
  pub supply : ℕ

pub record ScallopVaultSnapshot : Type 0 where
  pub scoin_total : ℕ
  pub principal_total : ℕ

unfoldable pub scallop_denom : ScallopReserveSnapshot → Redeem ℕ
scallop_denom r =
    if ltb (r.cash + r.debt) r.revenue
    then throw reserve_empty
    else if r.cash + r.debt - r.revenue === 0
    then throw reserve_empty
    else ok (r.cash + r.debt - r.revenue)

unfoldable pub compute_expected_underlying_scallop : ScallopReserveSnapshot → ℕ → Redeem ℕ
compute_expected_underlying_scallop r scoin_amount =
    if r.supply === 0
    then throw reserve_empty
    else (do denom ← scallop_denom r; ok (scoin_amount * denom / r.supply))

unfoldable pub scallop_principal_portion : ℕ → ℕ → ℕ → ℕ
scallop_principal_portion p_total s_total want =
    if s_total === 0 then 0 else if leb s_total want then p_total else p_total * want / s_total

unfoldable pub predict_scallop_redeem :
    ScallopReserveSnapshot → ScallopVaultSnapshot → ℕ → ℕ → Redeem RedeemPrediction
predict_scallop_redeem reserve vault want fee_rate_bp = do
  expected ← compute_expected_underlying_scallop reserve want
  let portion = scallop_principal_portion vault.principal_total vault.scoin_total want
  fee ← apply_yield_fee expected portion fee_rate_bp
  ok (prediction_of expected portion fee)

-- ---- the amount to burn

-- `if (denomTerm === 0n) return MAX_U64; n = ceilDiv(numer, denomTerm)`: `none` is the early return.
unfoldable pub divided : ℕ → ℤ → Redeem (Option ℕ)
divided numer (pos zero) = ok none
divided numer (pos (suc d)) = do n ← ceil_div numer (suc d); ok (some n)
divided numer (negsuc _) = throw bad_divisor

-- The closed form. The sum of the source, of which `(FEE_DENOMINATOR - r)` may be negative, is
-- written as one difference.
unfoldable pub closed_form : ℕ → ℕ → ℕ → ℕ → ℕ → ℕ → Redeem (Option ℕ)
closed_form denom supply total principal wanted r =
    if ltb (supply * principal) (denom * total)
    then divided (wanted * fee_denominator * supply * total)
        (sub_ℕ (fee_denominator * denom * total + r * supply * principal) (r * denom * total))
    else (do n ← ceil_div (wanted * supply) denom; ok (some n))

-- The refinement loop, on the rounds left. `predict` simulates a redeem.
unfoldable pub refine : (ℕ → Redeem RedeemPrediction) → ℕ → ℕ → ℕ → ℕ → Redeem ℕ
refine predict total wanted zero n = ok (if ltb total n then max_u64 else n)
refine predict total wanted (suc rounds) n =
    if ltb total n
    then ok max_u64
    else if n === 0
    then refine predict total wanted rounds 1
    else (do
      sim ← predict n
      if leb wanted sim.to_balance then ok n else refine predict total wanted rounds (n + 1))

unfoldable pub finish : (ℕ → Redeem RedeemPrediction) → ℕ → ℕ → ℕ → Option ℕ → Redeem ℕ
finish predict total wanted rounds none = ok max_u64
finish predict total wanted rounds (some n) =
    if ltb total n then ok max_u64 else refine predict total wanted rounds n

-- `max_iterations` is 8 unless the caller says otherwise.
unfoldable pub scoin_to_burn_for_target_net :
    ScallopReserveSnapshot → ScallopVaultSnapshot → ℤ → ℕ → ℕ → Redeem ℕ
scoin_to_burn_for_target_net reserve vault (negsuc _) fee_rate_bp max_iterations = ok 0
scoin_to_burn_for_target_net reserve vault (pos zero) fee_rate_bp max_iterations = ok 0
scoin_to_burn_for_target_net reserve vault (pos (suc k)) fee_rate_bp max_iterations =
    if vault.scoin_total === 0 then ok max_u64 else (do
      denom ← scallop_denom reserve
      if reserve.supply === 0 then throw reserve_empty else (do
        n ←
            closed_form denom reserve.supply vault.scoin_total vault.principal_total (suc k)
              fee_rate_bp
        finish (λ n. predict_scallop_redeem reserve vault n fee_rate_bp) vault.scoin_total (suc k)
            max_iterations n))

-- ---- Kai

pub record KaiVaultSnapshot : Type 0 where
  pub total_available : ℕ
  pub yt_supply : ℕ

pub record KaiPmVaultSnapshot : Type 0 where
  pub yt_in_pm : ℕ
  pub principal_in_pm : ℕ

unfoldable pub compute_expected_underlying_kai : KaiVaultSnapshot → ℕ → Redeem ℕ
compute_expected_underlying_kai v yt_amount =
    if v.yt_supply === 0
    then throw reserve_empty
    else ok (yt_amount * v.total_available / v.yt_supply)

unfoldable pub kai_principal_portion : ℕ → ℕ → ℕ → ℕ
kai_principal_portion p_in_pm yt_in_pm want =
    if yt_in_pm === 0 then 0 else if leb yt_in_pm want then p_in_pm else p_in_pm * want / yt_in_pm

unfoldable pub predict_kai_redeem :
    KaiVaultSnapshot → KaiPmVaultSnapshot → ℕ → ℕ → Redeem RedeemPrediction
predict_kai_redeem vault pm want fee_rate_bp = do
  expected ← compute_expected_underlying_kai vault want
  let portion = kai_principal_portion pm.principal_in_pm pm.yt_in_pm want
  fee ← apply_yield_fee expected portion fee_rate_bp
  ok (prediction_of expected portion fee)

unfoldable pub yt_to_burn_for_target_net :
    KaiVaultSnapshot → KaiPmVaultSnapshot → ℤ → ℕ → ℕ → Redeem ℕ
yt_to_burn_for_target_net vault pm (negsuc _) fee_rate_bp max_iterations = ok 0
yt_to_burn_for_target_net vault pm (pos zero) fee_rate_bp max_iterations = ok 0
yt_to_burn_for_target_net vault pm (pos (suc k)) fee_rate_bp max_iterations =
    if pm.yt_in_pm === 0
    then ok max_u64
    else if vault.total_available === 0
    then ok max_u64
    else if vault.yt_supply === 0
    then throw reserve_empty
    else (do
      n ←
          closed_form vault.total_available vault.yt_supply pm.yt_in_pm pm.principal_in_pm (suc k)
            fee_rate_bp
      finish (λ n. predict_kai_redeem vault pm n fee_rate_bp) pm.yt_in_pm (suc k) max_iterations n)

-- ---- the cap on a burn

unfoldable pub cap_redeem_burn_raw : ℕ → ℕ → ℕ → Option ℕ
cap_redeem_burn_raw exact wrapper_raw safe_margin =
    if leb wrapper_raw safe_margin
    then none
    else some (if leb (wrapper_raw - safe_margin) exact then wrapper_raw - safe_margin else exact)
