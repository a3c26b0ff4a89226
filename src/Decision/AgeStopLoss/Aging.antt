-- ===== src/Decision/AgeStopLoss/Aging.antt =====
-- The age stop-loss of src/decision/ageStopLoss.ts as a lot grows older, and when it fires.
use lp_agent.Prelude.{
  ℕ, ◌+◌, ◌≤◌, ◌≡◌, refl, ap, ◌↔◌, ◌⊎◌, inl, inr, Bool, Bool-cases, true, false, not, ◌&&◌, Option,
  none, some, ◌||◌, List, [], ◌∷◌, ltb, leb, arith, if◌then◌else◌,
}
use lp_agent.Prelude.Floats.{Floats}
use lp_agent.Prelude.Int.{ℤ, pos, ◌-ℤ◌, ◌<ℤ◌, ◌≤ℤ◌, -ℤ_parts, eq_of_parts}
use lp_agent.Decision.AgeStopLoss.{
  LotRecord, PriceContext, AgeStopLossDecision, hold, relax_ask_floor, force_liquidate, is_hold,
  should_trigger_stop_loss, loss_3_pct, loss_5_pct, lot_loss, bid_lot_loss, ask_lot_loss,
  estimate_bin_price, is_bid, rises, towards, evaluate_lot, evaluate_from, evaluate_all_lots,
}

both_iff : {A B C D : Type 0} → A ↔ (B × C) → C ↔ D → A ↔ (B × D)
both_iff f g = (λ a. ((f.0 a).0, g.0 (f.0 a).1), λ x. f.1 (x.0, g.1 x.1))

abbrev pub severity : {F : Type 0} → AgeStopLossDecision F → ℕ
severity (hold _ _) = 0
severity (relax_ask_floor _ _ _ _) = 1
severity (force_liquidate _ _ _ _) = 2

-- How severe the decision is, by the times and the two tests of the loss.
abbrev level : ℕ → ℕ → Bool → Bool → ℕ
level acquired now above_5 above_3 =
    if leb (acquired + 43_200_000) now && above_5
    then 2
    else if leb (acquired + 14_400_000) now && above_3
    then 1
    else 0

level_mono :
    (acquired now later : ℕ) (above_5 above_3 : Bool)
    → (above_5 ≡ true → above_3 ≡ true)
    → now ≤ later
    → level acquired now above_5 above_3 ≤ level acquired later above_5 above_3
level_mono acquired now later true true h k = ground arith
level_mono acquired now later true false h k = absurd (ground (arith, h refl))
level_mono acquired now later false true h k = ground arith
level_mono acquired now later false false h k = ground arith

-- How many bins the lot lies away from the active one, in the direction of rising prices.
abbrev steps_away : Option Bool → ℤ → ℤ → ℤ
steps_away none bin_id active_bin = bin_id -ℤ active_bin
steps_away (some true) bin_id active_bin = bin_id -ℤ active_bin
steps_away (some false) bin_id active_bin = active_bin -ℤ bin_id

-- The lot lies below the price now, or not.
abbrev pub IsBid : Option Bool → ℤ → ℤ → Type 0
IsBid none bin_id active_bin = bin_id <ℤ active_bin
IsBid (some true) bin_id active_bin = bin_id <ℤ active_bin
IsBid (some false) bin_id active_bin = active_bin <ℤ bin_id

abbrev pub IsAsk : Option Bool → ℤ → ℤ → Type 0
IsAsk none bin_id active_bin = active_bin ≤ℤ bin_id
IsAsk (some true) bin_id active_bin = active_bin ≤ℤ bin_id
IsAsk (some false) bin_id active_bin = bin_id ≤ℤ active_bin

negated : (a b : ℤ) → pos 0 -ℤ (a -ℤ b) ≡ b -ℤ a
negated a b = eq_of_parts _ _ (omega (arith, -ℤ_parts (pos 0) (a -ℤ b), -ℤ_parts a b, -ℤ_parts b a))

steps_away_lem : (d : Option Bool) (b a : ℤ) → towards (rises d) (b -ℤ a) ≡ steps_away d b a
steps_away_lem none b a = refl
steps_away_lem (some true) b a = refl
steps_away_lem (some false) b a = negated b a

is_bid-IsBid : (d : Option Bool) (b a : ℤ) → (is_bid (rises d) b a ≡ true) ↔ IsBid d b a
is_bid-IsBid none b a = ground arith
is_bid-IsBid (some true) b a = ground arith
is_bid-IsBid (some false) b a = ground arith

is_bid-IsAsk : (d : Option Bool) (b a : ℤ) → (is_bid (rises d) b a ≡ false) ↔ IsAsk d b a
is_bid-IsAsk none b a = ground arith
is_bid-IsAsk (some true) b a = ground arith
is_bid-IsAsk (some false) b a = ground arith

module _ {F : Type 0} (num : Floats F) where
  evaluate_lot-severity :
      (lot : LotRecord F) (idx : ℕ) (ctx : PriceContext F) (now : ℕ)
      → severity (evaluate_lot num lot idx ctx now)
        ≡ level lot.acquired_at_ms now
            (num.gt (lot_loss num lot ctx) (loss_5_pct num))
            (num.gt (lot_loss num lot ctx) (loss_3_pct num))
  unfolding evaluate_lot
  evaluate_lot-severity lot idx ctx now = ground arith

  -- A lot that grows older, at the same prices, is never treated more mildly, where what exceeds 5%
  -- exceeds 3%.
  pub older_never_milder :
      (lot : LotRecord F) (idx : ℕ) (ctx : PriceContext F) (now later : ℕ)
      → ((x : F) → num.gt x (loss_5_pct num) ≡ true → num.gt x (loss_3_pct num) ≡ true)
      → now ≤ later
      → severity (evaluate_lot num lot idx ctx now) ≤ severity (evaluate_lot num lot idx ctx later)
  older_never_milder lot idx ctx now later h k =
      rw (evaluate_lot-severity lot idx ctx now, evaluate_lot-severity lot idx ctx later)
        (level_mono lot.acquired_at_ms now later _ _ (h (lot_loss num lot ctx)) k)

  module _ (ctx : PriceContext F) (now : ℕ) where
    -- The price at the lot's bin, from the price now.
    abbrev price_at : LotRecord F → F
    price_at lot = num.mul ctx.current_mid_price (
        num.pow (num.add (num.decimal 1 0) (num.div ctx.bin_step (num.decimal 10_000 0)))
          (num.of_int (steps_away ctx.direction lot.bin_id ctx.active_bin)))

    -- A fraction of the cost, counted from nothing on, is more than 3%.
    abbrev IsOver3 : F → F → Type 0
    IsOver3 cost change =
        num.gt (num.max (num.decimal 0 0) (num.div change cost)) (num.decimal 3 2) ≡ true

    -- A lot of positive cost has lost more than 3% of it: on the bid side by a price below the
    -- cost, on the ask side by a price above it.
    abbrev pub HasLost : LotRecord F → Type 0
    HasLost lot =
        (num.ge (num.decimal 0 0) lot.cost_basis ≡ false)
        × ((IsBid ctx.direction lot.bin_id ctx.active_bin
              × IsOver3 lot.cost_basis (num.sub lot.cost_basis (price_at lot)))
            ⊎ (IsAsk ctx.direction lot.bin_id ctx.active_bin
                × IsOver3 lot.cost_basis (num.sub (price_at lot) lot.cost_basis)))

    estimate_bin_price_lem :
        (lot : LotRecord F) → estimate_bin_price num lot.bin_id ctx ≡ price_at lot
    unfolding estimate_bin_price
    estimate_bin_price_lem lot =
        ap
          (λ (k : ℤ). num.mul ctx.current_mid_price (
            num.pow (num.add (num.decimal 1 0) (num.div ctx.bin_step (num.decimal 10_000 0)))
              (num.of_int k)))
          (steps_away_lem ctx.direction lot.bin_id ctx.active_bin)

    lot_loss-HasLost :
        (lot : LotRecord F)
        → num.gt (num.decimal 0 0) (num.decimal 3 2) ≡ false
        → (num.gt (lot_loss num lot ctx) (loss_3_pct num) ≡ true) ↔ HasLost lot
    unfolding lot_loss bid_lot_loss ask_lot_loss
    lot_loss-HasLost lot none_lost =
        let price = estimate_bin_price_lem lot in
        let bid = is_bid-IsBid ctx.direction lot.bin_id ctx.active_bin in
        let ask = is_bid-IsAsk ctx.direction lot.bin_id ctx.active_bin in
        elim (Bool-cases (is_bid (rises ctx.direction) lot.bin_id ctx.active_bin)) [
          | inl b ↦ elim (Bool-cases (num.ge (num.decimal 0 0) lot.cost_basis)) [
            | inl free ↦
                rw (b, free)
                  (λ e. absurd (ground (arith, e, none_lost)), λ h. absurd (ground (arith, h.0)))
            | inr paid ↦
                rw (b, paid, price)
                  (
                    λ e. (refl, inl (bid.0 b, e)),
                    λ h. elim h.1 [ inl x ↦ x.1 | inr x ↦ absurd (ground (arith, b, ask.1 x.0)) ],
                  )
          ]
          | inr b ↦ elim (Bool-cases (num.ge (num.decimal 0 0) lot.cost_basis)) [
            | inl free ↦
                rw (b, free)
                  (λ e. absurd (ground (arith, e, none_lost)), λ h. absurd (ground (arith, h.0)))
            | inr paid ↦
                rw (b, paid, price)
                  (
                    λ e. (refl, inr (ask.0 b, e)),
                    λ h. elim h.1 [ inl x ↦ absurd (ground (arith, b, bid.1 x.0)) | inr x ↦ x.1 ],
                  )
          ]
        ]

    -- Four hours old or more, with a loss of more than 3%.
    abbrev pub IsStale : LotRecord F → Type 0
    IsStale lot = (lot.acquired_at_ms + 14_400_000 ≤ now) × HasLost lot

    abbrev pub HasStale : List (LotRecord F) → Type 0
    HasStale [] = ⊥
    HasStale (lot ∷ lots) = IsStale lot ⊎ HasStale lots

    level-test :
        (acquired : ℕ) (above_5 above_3 : Bool)
        → (above_5 ≡ true → above_3 ≡ true)
        → (ltb 0 (level acquired now above_5 above_3) ≡ true)
          ↔ ((acquired + 14_400_000 ≤ now) × (above_3 ≡ true))
    level-test acquired true true h = ground arith
    level-test acquired true false h = absurd (ground (arith, h refl))
    level-test acquired false true h = ground arith
    level-test acquired false false h = ground arith

    not_hold : (d : AgeStopLossDecision F) → not (is_hold d) ≡ ltb 0 (severity d)
    not_hold (hold _ _) = refl
    not_hold (relax_ask_floor _ _ _ _) = refl
    not_hold (force_liquidate _ _ _ _) = refl

    either :
        (x y : Bool) (A B : Type 0) → (x ≡ true) ↔ A → (y ≡ true) ↔ B → (x || y ≡ true) ↔ (A ⊎ B)
    either true y A B f g = (λ e. inl (f.0 refl), λ e. refl)
    either false y A B f g = (
      λ e. inr (g.0 e),
      λ e. elim e [ inl a ↦ (let c = f.1 a in absurd (ground (arith, c))) | inr b ↦ g.1 b ],
    )

    module _ (h : (x : F) → num.gt x (loss_5_pct num) ≡ true → num.gt x (loss_3_pct num) ≡ true)
        (none_lost : num.gt (num.decimal 0 0) (num.decimal 3 2) ≡ false) where
      evaluate_lot-IsStale :
          (lot : LotRecord F) (idx : ℕ)
          → (not (is_hold (evaluate_lot num lot idx ctx now)) ≡ true) ↔ IsStale lot
      evaluate_lot-IsStale lot idx =
          rw (not_hold (evaluate_lot num lot idx ctx now), evaluate_lot-severity lot idx ctx now)
            (both_iff (level-test lot.acquired_at_ms _ _ (h (lot_loss num lot ctx)))
              (lot_loss-HasLost lot none_lost))

      evaluate_from-HasStale :
          (idx : ℕ) (lots : List (LotRecord F))
          → (should_trigger_stop_loss (evaluate_from num idx lots ctx now) ≡ true) ↔ HasStale lots
      unfolding should_trigger_stop_loss evaluate_from
      evaluate_from-HasStale idx [] = (λ e. absurd cc, λ e. absurd e)
      evaluate_from-HasStale idx (lot ∷ lots) =
          either _ _ _ _ (evaluate_lot-IsStale lot idx) (evaluate_from-HasStale (idx + 1) lots)

      -- The stop-loss fires for the lots exactly where one of them, of positive cost, is four hours
      -- old or more and has lost more than 3% of its cost: on the bid side where the price at its
      -- bin is below the cost by that much, on the ask side where it is above the cost by that much;
      -- here what exceeds 5% exceeds 3%, and 0 does not.
      pub stop_loss_triggers_iff :
          (lots : List (LotRecord F))
          → (should_trigger_stop_loss (evaluate_all_lots num lots ctx now) ≡ true) ↔ HasStale lots
      stop_loss_triggers_iff lots = evaluate_from-HasStale 0 lots
