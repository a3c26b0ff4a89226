-- ===== src/Decision/Inventory.antt =====
-- src/decision/inventory.ts: the correction of a plan's amounts for a lopsided inventory.
pub mod Clamp
use lp_agent.Prelude.{
  ℕ, Bool, true, false, not, ◌||◌, Option, none, some, List, [], ◌∷◌, length, ◌===◌, if◌then◌else◌,
}
use lp_agent.Prelude.Floats.{Floats}
use lp_agent.Prelude.Int.{ℤ, pos, ◌-ℤ◌, ◌*ℤ◌, ◌/ℤ◌, ltb_ℤ, leb_ℤ, eqb_ℤ}
use lp_agent.Decision.{total}
use lp_agent.Decision.Rescale.{max_idx_from, add_at, scale_all}

pub record InventoryState (F : Type 0) : Type 0 where
  pub available_a : ℤ
  pub available_b : ℤ
  pub mid_price_num : F
  pub decimal_adj : F

pub data InventoryRegime : Type 0 where
  balanced mild moderate severe : InventoryRegime

pub record InventoryAdjustment (F : Type 0) : Type 0 where
  pub bid_scale : F
  pub ask_scale : F
  pub regime : InventoryRegime
  pub sui_overage : F
  pub single_sided_only : Bool
  pub bypass_gas_filter : Bool

module _ {F : Type 0} (num : Floats F) where
  abbrev lit : ℕ → F
  lit n = num.decimal n 0

  -- `x <= 0 || !Number.isFinite(x)`
  abbrev unusable : F → Bool
  unusable x = num.ge (lit 0) x || not (num.is_finite x)

  unfoldable pub compute_sui_overage : InventoryState F → F
  compute_sui_overage inv =
      if unusable inv.mid_price_num
      then lit 0
      else if unusable inv.decimal_adj
      then lit 0
      else (let sui_value =
            num.div (num.mul (num.of_int inv.available_a) inv.mid_price_num) inv.decimal_adj in
          let total_value = num.add sui_value (num.of_int inv.available_b) in
          if num.ge (lit 0) total_value
          then lit 0
          else num.sub (num.div sui_value total_value) (num.decimal 5 1))

  unfoldable pub classify_overage : F → InventoryRegime
  classify_overage overage =
      let abs = num.abs overage in
      if num.gt (num.decimal 15 2) abs
      then balanced
      else if num.gt (num.decimal 30 2) abs
      then mild
      else if num.gt (num.decimal 50 2) abs
      then moderate
      else severe

  abbrev adjustment_in : InventoryRegime → F → InventoryAdjustment F
  adjustment_in balanced overage = record {
    bid_scale = lit 1;
    ask_scale = lit 1;
    regime = balanced;
    sui_overage = overage;
    single_sided_only = false;
    bypass_gas_filter = false;
  }
  adjustment_in mild overage = record {
    bid_scale = if num.gt overage (lit 0) then num.decimal 7 1 else num.decimal 15 1;
    ask_scale = if num.gt (lit 0) overage then num.decimal 7 1 else num.decimal 15 1;
    regime = mild;
    sui_overage = overage;
    single_sided_only = false;
    bypass_gas_filter = false;
  }
  adjustment_in moderate overage = record {
    bid_scale = if num.gt overage (lit 0) then lit 0 else lit 1;
    ask_scale = if num.gt (lit 0) overage then lit 0 else lit 1;
    regime = moderate;
    sui_overage = overage;
    single_sided_only = false;
    bypass_gas_filter = false;
  }
  adjustment_in severe overage = record {
    bid_scale = if num.gt overage (lit 0) then lit 0 else lit 1;
    ask_scale = if num.gt (lit 0) overage then lit 0 else lit 1;
    regime = severe;
    sui_overage = overage;
    single_sided_only = true;
    bypass_gas_filter = true;
  }

  unfoldable pub compute_inventory_adjustment : InventoryState F → InventoryAdjustment F
  compute_inventory_adjustment inv =
      let overage = compute_sui_overage inv in adjustment_in (classify_overage overage) overage

  -- `BigInt(Math.round(scale * Number(SCALE)))`
  abbrev pub scale_fixed : F → Option ℤ
  scale_fixed scale = num.to_bigint (num.round (num.mul scale (lit 1_000_000)))

-- `scaled < 0n ? 0n : scaled`
abbrev pub not_below_zero : ℤ → ℤ
not_below_zero scaled = if ltb_ℤ scaled (pos 0) then pos 0 else scaled

unfoldable pub adjust_a : ℤ → ℤ → ℤ → ℤ → ℤ
adjust_a active_bin scale k a =
    if eqb_ℤ a (pos 0)
    then pos 0
    else if leb_ℤ k active_bin
    then a
    else not_below_zero (a *ℤ scale /ℤ pos 1_000_000)

unfoldable pub adjust_b : ℤ → ℤ → ℤ → ℤ → ℤ
adjust_b active_bin scale k b =
    if eqb_ℤ b (pos 0)
    then pos 0
    else if ltb_ℤ active_bin k
    then b
    else not_below_zero (b *ℤ scale /ℤ pos 1_000_000)

-- The two arrays of amounts run beside the bins, once their lengths are compared.
unfoldable pub adjust_all : (ℤ → ℤ → ℤ) → List ℤ → List ℤ → List ℤ
adjust_all f (k ∷ ks) (v ∷ vs) = f k v ∷ adjust_all f ks vs
adjust_all f _ _ = []

abbrev pub scaled_by : ℤ → List ℤ → List ℤ → List ℤ → Option ℤ → Option ℤ → Option (List ℤ × List ℤ)
scaled_by active_bin bins amounts_a amounts_b (some bid) (some ask) = some (
  adjust_all (adjust_a active_bin bid) bins amounts_a,
  adjust_all (adjust_b active_bin ask) bins amounts_b,
)
scaled_by active_bin bins amounts_a amounts_b _ _ = none

module _ {F : Type 0} (num : Floats F) where
  -- Nothing where it throws.
  unfoldable pub apply_inventory_scales :
      List ℤ → List ℤ → List ℤ → ℤ → InventoryAdjustment F → Option (List ℤ × List ℤ)
  apply_inventory_scales bins amounts_a amounts_b active_bin adj =
      if not (length bins === length amounts_a) || not (length bins === length amounts_b)
      then none
      else scaled_by active_bin bins amounts_a amounts_b (scale_fixed num adj.bid_scale)
          (scale_fixed num adj.ask_scale)

-- The dust goes to the first largest amount.
unfoldable pub with_dust : ℤ → List ℤ → List ℤ
with_dust available [] = []
with_dust available (v ∷ vs) =
    if ltb_ℤ (total (v ∷ vs)) available
    then add_at (max_idx_from 0 v 1 vs) (available -ℤ total (v ∷ vs)) (v ∷ vs)
    else v ∷ vs

unfoldable pub clamp_amounts : List ℤ → ℤ → List ℤ
clamp_amounts amounts available =
    if leb_ℤ (total amounts) available || eqb_ℤ (total amounts) (pos 0)
    then amounts
    else with_dust available (scale_all available (total amounts) amounts)

abbrev pub clamp_to_available : List ℤ → List ℤ → ℤ → ℤ → List ℤ × List ℤ
clamp_to_available amounts_a amounts_b available_a available_b =
    (clamp_amounts amounts_a available_a, clamp_amounts amounts_b available_b)
