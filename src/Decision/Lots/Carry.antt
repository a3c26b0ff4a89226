-- ===== src/Decision/Lots/Carry.antt =====
-- A rebalance of src/decision/lotStore.ts carries the lots over: the book holds what the plan
-- re-adds, and an old lot keeps its age.
use lp_agent.Prelude.{
  ℕ, ◌<◌, String, ◌≡◌, refl, Bool, true, false, ◌&&◌, ◌||◌, none, some, List, [], ◌∷◌, ◌===◌,
  if◌then◌else◌, arith, ◌∙◌, eq_refl,
}
use lp_agent.Prelude.Int.{ℤ, pos, ◌+ℤ◌, ◌-ℤ◌}
use lp_agent.Decision.{RebalancePlan}
use lp_agent.Prelude.{inl, inr, sym, length, leb, Option-cases}
use lp_agent.Decision.Lots.Passes.{
  fold, when, add_amount, dates_from, no_older, fold-read_lots, add_swap, total-aggregate_side,
  earliest-aggregate_side,
}
use lp_agent.Decision.Lots.Additions.{added, sum_of, total-plan_side, rep_bin-plan_side}
use lp_agent.Decision.Lots.{
  Side, side_a, side_b, side_eqb, Lot, Numbers, SideTotals, PlanSide, is_open, load_open_lots,
  aggregate_side, plan_side, close_all, insert_side, sync_lots_after_rebalance,
}

module _ {Number : Type 0} (pm_id : String) (side : Side) where
  abbrev counts : Lot Number → Bool
  counts l = is_open pm_id l && side_eqb l.side side

  -- The amount of the manager's open lots on a side.
  unfoldable pub open_amount : List (Lot Number) → ℤ
  open_amount [] = pos 0
  open_amount (l ∷ ls) = if counts l then l.amount +ℤ open_amount ls else open_amount ls

  -- An open lot on the side, acquired at the time.
  unfoldable pub has_lot_since : ℕ → List (Lot Number) → Bool
  has_lot_since ms [] = false
  has_lot_since ms (l ∷ ls) = (counts l && (l.acquired_at_ms === ms)) || has_lot_since ms ls

  -- No open lot on the side was acquired before the time.
  unfoldable pub none_before : ℕ → List (Lot Number) → Bool
  none_before ms [] = true
  none_before ms (l ∷ ls) =
      (if counts l then leb ms l.acquired_at_ms else true) && none_before ms ls

  open_amount-fold :
      (ls : List (Lot Number))
      → open_amount ls
        ≡ fold (when (is_open pm_id) (when (λ l. side_eqb l.side side) add_amount)) (pos 0) ls
  unfolding open_amount
  open_amount-fold [] = refl
  open_amount-fold (l ∷ ls) = rw (open_amount-fold ls) (ground arith)

  has_lot_since-fold :
      (ms : ℕ) (ls : List (Lot Number))
      → has_lot_since ms ls
        ≡ fold (when (is_open pm_id) (when (λ l. side_eqb l.side side) (dates_from ms))) false ls
  unfolding has_lot_since
  has_lot_since-fold ms [] = refl
  has_lot_since-fold ms (l ∷ ls) = rw (has_lot_since-fold ms ls) (ground arith)

  none_before-fold :
      (ms : ℕ) (ls : List (Lot Number))
      → none_before ms ls
        ≡ fold (when (is_open pm_id) (when (λ l. side_eqb l.side side) (no_older ms))) true ls
  unfolding none_before
  none_before-fold ms [] = refl
  none_before-fold ms (l ∷ ls) = rw (none_before-fold ms ls) (ground arith)

  closed_amount :
      (now_ms : ℕ) (ls : List (Lot Number)) → open_amount (close_all pm_id now_ms ls) ≡ pos 0
  unfolding open_amount close_all
  closed_amount now_ms [] = refl
  closed_amount now_ms (l ∷ ls) = ground (arith, closed_amount now_ms ls)

  module _ (prev : SideTotals Number) (now : PlanSide) (spot : Number) (now_ms : ℕ)
      (lots : List (Lot Number)) where
    other_side :
        (other : Side)
        → side_eqb other side ≡ false
        → (open_amount (insert_side pm_id other prev now spot now_ms lots) ≡ open_amount lots)
          × ((ms : ℕ)
              → has_lot_since ms (insert_side pm_id other prev now spot now_ms lots)
                ≡ has_lot_since ms lots)
    unfolding insert_side open_amount has_lot_since
    other_side other e = (ground (arith, eq_refl pm_id), λ ms. ground (arith, eq_refl pm_id))

    own_side :
        (p n : ℕ) (bin : ℤ)
        → prev.total ≡ pos p
        → now.total ≡ pos n
        → (prev.earliest_ms ≡ none → p ≡ 0)
        → now.rep_bin ≡ some bin
        → open_amount lots ≡ pos 0
        → open_amount (insert_side pm_id side prev now spot now_ms lots) ≡ now.total
    unfolding insert_side open_amount ◌+ℤ◌ ◌-ℤ◌
    own_side p n bin ep en empty er closed = ground (arith, eq_refl pm_id)

    own_age :
        (p n : ℕ) (bin : ℤ) (e : ℕ)
        → prev.total ≡ pos p
        → now.total ≡ pos n
        → prev.earliest_ms ≡ some e
        → now.rep_bin ≡ some bin
        → 0 < p
        → 0 < n
        → has_lot_since e (insert_side pm_id side prev now spot now_ms lots) ≡ true
    unfolding insert_side has_lot_since ◌-ℤ◌
    own_age p n bin e ep en ee er some_p some_n = ground (arith, eq_refl pm_id)

module _ {Number : Type 0} (numbers : Numbers Number) (pm_id : String) (plan : RebalancePlan)
    (spot : Number) (now_ms : ℕ) (lots : List (Lot Number)) where
  abbrev before : Side → SideTotals Number
  before side = aggregate_side numbers (load_open_lots pm_id lots) side

  abbrev after : List (Lot Number)
  after = sync_lots_after_rebalance numbers pm_id plan spot now_ms lots

  abbrev with_a : List (Lot Number)
  with_a =
      insert_side pm_id side_a (before side_a) (plan_side plan side_a) spot now_ms
        (close_all pm_id now_ms lots)

  -- By the totals, the time and the bin that the code computes.
  side_carried :
      (side : Side) (p n : ℕ) (bin : ℤ) (e : ℕ)
      → (before side).total ≡ pos p
      → (plan_side plan side).total ≡ pos n
      → (before side).earliest_ms ≡ some e
      → (plan_side plan side).rep_bin ≡ some bin
      → 0 < p
      → 0 < n
      → (open_amount pm_id side after ≡ (plan_side plan side).total)
        × (has_lot_since pm_id side e after ≡ true)
  unfolding sync_lots_after_rebalance
  side_carried side_a p n bin e ep en ee er some_p some_n =
      let other =
        other_side pm_id side_a (before side_b) (plan_side plan side_b) spot now_ms with_a side_b
          refl in
      (
        other.0
            ∙ own_side pm_id side_a (before side_a) (plan_side plan side_a) spot now_ms
                (close_all pm_id now_ms lots) p n bin ep en (λ h. cc) er
                (closed_amount pm_id side_a now_ms lots),
        other.1 e
            ∙ own_age pm_id side_a (before side_a) (plan_side plan side_a) spot now_ms
                (close_all pm_id now_ms lots) p n bin e ep en ee er some_p some_n,
      )
  side_carried side_b p n bin e ep en ee er some_p some_n = (
    own_side pm_id side_b (before side_b) (plan_side plan side_b) spot now_ms with_a p n bin ep en
        (λ h. cc) er
        ((other_side pm_id side_b (before side_a) (plan_side plan side_a) spot now_ms
            (close_all pm_id now_ms lots) side_a refl).0
          ∙ closed_amount pm_id side_b now_ms lots),
    own_age pm_id side_b (before side_b) (plan_side plan side_b) spot now_ms with_a p n bin e ep en
        ee er some_p some_n,
  )

  before_total : (side : Side) → (before side).total ≡ open_amount pm_id side lots
  before_total side =
      total-aggregate_side numbers (load_open_lots pm_id lots) side
      ∙ fold-read_lots pm_id side add_amount (pos 0) lots (λ x y b. add_swap x.amount y.amount b)
      ∙ sym (open_amount-fold pm_id side lots)

  before_age :
      (side : Side) (e : ℕ)
      → has_lot_since pm_id side e lots ≡ true
      → none_before pm_id side e lots ≡ true
      → (before side).earliest_ms ≡ some e
  before_age side e h k =
      earliest-aggregate_side numbers e (load_open_lots pm_id lots) side
        (fold-read_lots pm_id side (dates_from e) false lots (λ x y b. ground arith)
          ∙ sym (has_lot_since-fold pm_id side e lots)
          ∙ h)
        (fold-read_lots pm_id side (no_older e) true lots (λ x y b. ground arith)
          ∙ sym (none_before-fold pm_id side e lots)
          ∙ k)

  -- A side on which the manager holds open lots of a positive total, the oldest of them acquired at
  -- a time, and to which the plan, with an amount for each of its bins, adds a positive total again.
  -- After the rebalance the side's open lots hold exactly the sum of the plan's amounts, whatever
  -- was open before, and one of them still dates from that oldest time.
  pub lots_keep_age :
      (side : Side) (p n e : ℕ)
      → open_amount pm_id side lots ≡ pos p
      → 0 < p
      → has_lot_since pm_id side e lots ≡ true
      → none_before pm_id side e lots ≡ true
      → length (added plan side) ≡ length plan.add_bins
      → sum_of (added plan side) ≡ pos n
      → 0 < n
      → (open_amount pm_id side after ≡ sum_of (added plan side))
        × (has_lot_since pm_id side e after ≡ true)
  lots_keep_age side p n e held some_p oldest none_older sized adds some_n =
      let total = total-plan_side plan side sized in
      elim (Option-cases (plan_side plan side).rep_bin) [
        | inl absent ↦
            absurd (rep_bin-plan_side plan side sized (rw adds (omega (arith, some_n))) absent)
        | inr (bin, found) ↦
            let (x, y) =
              side_carried side p n bin e (before_total side ∙ held) (total ∙ adds)
                (before_age side e oldest none_older) found some_p some_n in
            (x ∙ total, y)
      ]
