-- ===== src/Decision/AgeStopLoss.antt =====
-- src/decision/ageStopLoss.ts: what is to be done with a lot that has been held for long and has
-- lost value. Bin ids are integers; the relaxed floor is computed with fractions and stays a number.
pub mod Aging
use Prim.Native.String.{◌++◌ as cat}
use lp_agent.Prelude.{
  ℕ, ◌+◌, ◌-◌, String, Bool, true, false, not, ◌&&◌, ◌||◌, Option, none, some, List, [], ◌∷◌, ltb,
  leb, if◌then◌else◌,
}
use lp_agent.Prelude.Floats.{Floats}
use lp_agent.Prelude.Int.{ℤ, pos, ◌+ℤ◌, ◌-ℤ◌, ltb_ℤ}

pub record LotRecord (F : Type 0) : Type 0 where
  pub bin_id : ℤ
  pub acquired_at_ms : ℕ
  pub cost_basis : F
  pub amount : ℤ

-- The direction, where it is given, is +1 for true and -1 for false.
pub record PriceContext (F : Type 0) : Type 0 where
  pub active_bin : ℤ
  pub current_mid_price : F
  pub bin_step : F
  pub direction : Option Bool

pub data AgeStopLossDecision (F : Type 0) : Type 0 where
  hold : (bin_id : ℤ) → (lot_idx : ℕ) → AgeStopLossDecision F
  relax_ask_floor :
      (bin_id : ℤ)
      → (lot_idx : ℕ) → (relaxed_ask_bin_id : F) → (reason : String) → AgeStopLossDecision F
  force_liquidate :
      (bin_id : ℤ)
      → (lot_idx : ℕ) → (forced_ask_bin_id : ℤ) → (reason : String) → AgeStopLossDecision F

abbrev pub age_4h_ms : ℕ
age_4h_ms = 14_400_000

abbrev pub age_12h_ms : ℕ
age_12h_ms = 43_200_000

-- `priceCtx.direction ?? 1`
abbrev pub rises : Option Bool → Bool
rises none = true
rises (some rising) = rising

abbrev pub towards : Bool → ℤ → ℤ
towards true k = k
towards false k = pos 0 -ℤ k

-- `Math.sign(binId - activeBin) * dir === -1`
abbrev pub is_bid : Bool → ℤ → ℤ → Bool
is_bid true bin_id active_bin = ltb_ℤ bin_id active_bin
is_bid false bin_id active_bin = ltb_ℤ active_bin bin_id

abbrev pub is_hold : {F : Type 0} → AgeStopLossDecision F → Bool
is_hold (hold _ _) = true
is_hold (relax_ask_floor _ _ _ _) = false
is_hold (force_liquidate _ _ _ _) = false

abbrev pub is_forced : {F : Type 0} → AgeStopLossDecision F → Bool
is_forced (hold _ _) = false
is_forced (relax_ask_floor _ _ _ _) = false
is_forced (force_liquidate _ _ _ _) = true

unfoldable pub should_trigger_stop_loss : {F : Type 0} → List (AgeStopLossDecision F) → Bool
should_trigger_stop_loss [] = false
should_trigger_stop_loss (d ∷ ds) = not (is_hold d) || should_trigger_stop_loss ds

unfoldable pub get_force_liquidations :
    {F : Type 0} → List (AgeStopLossDecision F) → List (AgeStopLossDecision F)
get_force_liquidations [] = []
get_force_liquidations (d ∷ ds) =
    let rest = get_force_liquidations ds in if is_forced d then d ∷ rest else rest

module _ {F : Type 0} (num : Floats F) where
  abbrev pub nought : F
  nought = num.decimal 0 0

  abbrev pub one : F
  one = num.decimal 1 0

  abbrev pub loss_3_pct : F
  loss_3_pct = num.decimal 3 2

  abbrev pub loss_5_pct : F
  loss_5_pct = num.decimal 5 2

  abbrev pub relax_ask_factor : F
  relax_ask_factor = num.decimal 1005 3

  abbrev pub growth : PriceContext F → F
  growth ctx = num.add one (num.div ctx.bin_step (num.decimal 10_000 0))

  unfoldable pub estimate_bin_price : ℤ → PriceContext F → F
  estimate_bin_price bin_id ctx =
      num.mul ctx.current_mid_price (
        num.pow (growth ctx)
          (num.of_int (towards (rises ctx.direction) (bin_id -ℤ ctx.active_bin))))

  unfoldable pub bid_lot_loss : LotRecord F → PriceContext F → F
  bid_lot_loss lot ctx =
      if num.ge nought lot.cost_basis
      then nought
      else num.max nought
          (num.div (num.sub lot.cost_basis (estimate_bin_price lot.bin_id ctx)) lot.cost_basis)

  unfoldable pub ask_lot_loss : LotRecord F → PriceContext F → F
  ask_lot_loss lot ctx =
      if num.ge nought lot.cost_basis
      then nought
      else num.max nought
          (num.div (num.sub (estimate_bin_price lot.bin_id ctx) lot.cost_basis) lot.cost_basis)

  -- `activeBin + dir * k`
  abbrev pub beside : PriceContext F → F → F
  beside ctx k =
      num.add (num.of_int ctx.active_bin)
        (num.mul (num.of_int (towards (rises ctx.direction) (pos 1))) k)

  unfoldable pub relaxed_ask_bin_id : F → PriceContext F → F
  relaxed_ask_bin_id cost_basis ctx =
      let ratio = num.div (num.mul cost_basis relax_ask_factor) ctx.current_mid_price in
      if num.ge nought ctx.current_mid_price || not (num.is_finite ctx.current_mid_price)
      then beside ctx one
      else if num.ge one ratio
      then beside ctx one
      else beside ctx (num.max one (num.ceil (num.div (num.log ratio) (num.log (growth ctx)))))

  unfoldable pub lot_loss : LotRecord F → PriceContext F → F
  lot_loss lot ctx =
      if is_bid (rises ctx.direction) lot.bin_id ctx.active_bin
      then bid_lot_loss lot ctx
      else ask_lot_loss lot ctx

  -- `age=..h loss=..% > ..`, and what follows.
  abbrev pub aging_text : ℕ → F → String → String
  aging_text age_ms loss rest = cat "age=" (
      cat (num.print (num.round (num.div (num.of_int (pos age_ms)) (num.decimal 3_600_000 0))))
        (cat "h loss=" (cat (num.to_fixed (num.mul loss (num.decimal 100 0)) 1) (cat "% > " rest))))

  -- The two tests, of a lot that is not from the future.
  abbrev pub decision_at : ℕ → F → LotRecord F → ℕ → PriceContext F → AgeStopLossDecision F
  decision_at age_ms loss lot lot_idx ctx =
      if leb age_12h_ms age_ms && num.gt loss loss_5_pct
      then force_liquidate lot.bin_id lot_idx
          (ctx.active_bin +ℤ towards (rises ctx.direction) (pos 1))
          (aging_text age_ms loss "5% — forced liquidation at active+1")
      else if leb age_4h_ms age_ms && num.gt loss loss_3_pct
      then relax_ask_floor lot.bin_id lot_idx (relaxed_ask_bin_id lot.cost_basis ctx) (
          aging_text age_ms loss (
            cat "3% — relaxed ask floor at bin "
              (num.print (relaxed_ask_bin_id lot.cost_basis ctx))))
      else hold lot.bin_id lot_idx

  unfoldable pub evaluate_lot : LotRecord F → ℕ → PriceContext F → ℕ → AgeStopLossDecision F
  evaluate_lot lot lot_idx ctx now_ms =
      if ltb now_ms lot.acquired_at_ms
      then hold lot.bin_id lot_idx
      else decision_at (now_ms - lot.acquired_at_ms) (lot_loss lot ctx) lot lot_idx ctx

  -- `map`, from an index on.
  unfoldable pub evaluate_from :
      ℕ → List (LotRecord F) → PriceContext F → ℕ → List (AgeStopLossDecision F)
  evaluate_from idx [] ctx now_ms = []
  evaluate_from idx (lot ∷ lots) ctx now_ms =
      evaluate_lot lot idx ctx now_ms ∷ evaluate_from (idx + 1) lots ctx now_ms

  abbrev pub evaluate_all_lots :
      List (LotRecord F) → PriceContext F → ℕ → List (AgeStopLossDecision F)
  evaluate_all_lots lots ctx now_ms = evaluate_from 0 lots ctx now_ms
