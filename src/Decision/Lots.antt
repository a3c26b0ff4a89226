-- ===== src/Decision/Lots.antt =====
-- src/decision/lotStore.ts: the book of open lots over a rebalance. Costs are JavaScript numbers,
-- whose arithmetic is the parameter `Numbers`; the table `position_lots` is kept newest row first.
pub mod Passes
pub mod Additions
pub mod Carry
use lp_agent.Prelude.{
  ℕ, suc, String, Bool, true, false, not, ◌&&◌, Option, none, some, List, [], ◌∷◌, ◌==◌, ltb, leb,
  if◌then◌else◌, map,
}
use lp_agent.Prelude.Int.{ℤ, pos, negsuc, ◌+ℤ◌, ◌-ℤ◌, ltb_ℤ, eqb_ℤ}
use lp_agent.Table.Filter.{filter}
use lp_agent.Decision.{RebalancePlan}
use lp_agent.Decision.Rescale.{first}

pub data Side : Type 0 where
  side_a side_b : Side

abbrev pub side_eqb : Side → Side → Bool
side_eqb side_a side_a = true
side_eqb side_b side_b = true
side_eqb _ _ = false

-- A row of `position_lots`; `closed_at_ms` is set when the status is 'closed'.
pub record Lot (Number : Type 0) : Type 0 where
  pub pm_id : String
  pub side : Side
  pub bin_id : ℤ
  pub acquired_at_ms : ℕ
  pub cost_basis : Number
  pub amount : ℤ
  pub closed_at_ms : Option ℕ
  pub created_at_ms : ℕ

-- IEEE arithmetic, and `Number(amount)`.
pub record Numbers (Number : Type 0) : Type 0 where
  pub zero : Number
  pub add : Number → Number → Number
  pub mul : Number → Number → Number
  pub div : Number → Number → Number
  pub of_bigint : ℤ → Number

pub record SideTotals (Number : Type 0) : Type 0 where
  pub total : ℤ
  pub earliest_ms : Option ℕ
  pub weighted_cost : Number

pub record PlanSide : Type 0 where
  pub total : ℤ
  pub rep_bin : Option ℤ

abbrev pub earlier : Option ℕ → ℕ → Option ℕ
earlier none ms = some ms
earlier (some e) ms = if ltb ms e then some ms else some e

-- The loop of `planSide`; `amounts[i] ?? 0n` where the array is too short.
unfoldable pub plan_side_from : ℤ → Option ℤ → ℤ → List ℤ → List ℤ → PlanSide
plan_side_from total rep_bin rep_amount [] vs = record {
  total = total;
  rep_bin = if ltb_ℤ (pos 0) rep_amount then rep_bin else none;
}
plan_side_from total rep_bin rep_amount (b ∷ bs) vs =
    let (v, rest) = first vs in
    let larger = ltb_ℤ rep_amount v in
    plan_side_from (total +ℤ v) (if larger then some b else rep_bin)
      (if larger then v else rep_amount) bs rest

unfoldable pub plan_side : RebalancePlan → Side → PlanSide
plan_side plan side =
    plan_side_from (pos 0) none (negsuc 0) plan.add_bins
      (elim side [ side_a ↦ plan.add_amounts_a | side_b ↦ plan.add_amounts_b ])

module _ {Number : Type 0} where
  abbrev pub is_open : String → Lot Number → Bool
  is_open pm_id l = (l.pm_id == pm_id) && elim l.closed_at_ms [ none ↦ true | some _ ↦ false ]

  -- ORDER BY acquired_at_ms ASC
  unfoldable pub insert_oldest : Lot Number → List (Lot Number) → List (Lot Number)
  insert_oldest l [] = l ∷ []
  insert_oldest l (x ∷ xs) =
      if leb l.acquired_at_ms x.acquired_at_ms then l ∷ x ∷ xs else x ∷ insert_oldest l xs

  unfoldable pub oldest_first : List (Lot Number) → List (Lot Number)
  oldest_first [] = []
  oldest_first (l ∷ ls) = insert_oldest l (oldest_first ls)

  unfoldable pub load_open_lots : String → List (Lot Number) → List (Lot Number)
  load_open_lots pm_id lots = oldest_first (filter (is_open pm_id) lots)

  module _ (numbers : Numbers Number) where
    -- The loop, with `total`, `earliestMs` and `costNum`.
    unfoldable pub aggregate_from : ℤ → Option ℕ → Number → List (Lot Number) → SideTotals Number
    aggregate_from total earliest cost [] = record {
      total = total;
      earliest_ms = earliest;
      weighted_cost =
          if ltb_ℤ (pos 0) total then numbers.div cost (numbers.of_bigint total) else numbers.zero;
    }
    aggregate_from total earliest cost (l ∷ ls) =
        aggregate_from (total +ℤ l.amount) (earlier earliest l.acquired_at_ms)
          (numbers.add cost (numbers.mul l.cost_basis (numbers.of_bigint l.amount))) ls

    unfoldable pub aggregate_side : List (Lot Number) → Side → SideTotals Number
    aggregate_side lots side =
        aggregate_from (pos 0) none numbers.zero (filter (λ l. side_eqb l.side side) lots)

  -- UPDATE position_lots SET status = 'closed', closed_at_ms = ?
  unfoldable pub close_all : String → ℕ → List (Lot Number) → List (Lot Number)
  close_all pm_id now_ms lots =
      map
        (λ (l : Lot Number). if is_open pm_id l then record l { closed_at_ms = some now_ms } else l)
        lots

  abbrev pub new_lot : String → Side → ℤ → ℕ → Number → ℤ → ℕ → Lot Number
  new_lot pm_id side bin acquired cost amount now_ms = record {
    pm_id = pm_id;
    side = side;
    bin_id = bin;
    acquired_at_ms = acquired;
    cost_basis = cost;
    amount = amount;
    closed_at_ms = none;
    created_at_ms = now_ms;
  }

  -- The INSERTs of one side: the carried lot and the new one.
  unfoldable pub insert_side :
      String
      → Side
      → SideTotals Number
      → PlanSide
      → Number
      → ℕ
      → List (Lot Number)
      → List (Lot Number)
  insert_side pm_id side prev now spot now_ms lots = elim now.rep_bin [
    | none ↦ lots
    | some bin ↦
        if eqb_ℤ now.total (pos 0)
        then lots
        else (let carried = (if ltb_ℤ prev.total now.total then prev.total else now.total) in
            let fresh = now.total -ℤ carried in
            let lots' : List (Lot Number) = elim prev.earliest_ms [
              | none ↦ lots
              | some earliest ↦
                  if ltb_ℤ (pos 0) carried
                  then new_lot pm_id side bin earliest prev.weighted_cost carried now_ms ∷ lots
                  else lots
            ] in
            if ltb_ℤ (pos 0) fresh
            then new_lot pm_id side bin now_ms spot fresh now_ms ∷ lots'
            else lots')
  ]

  unfoldable pub sync_lots_after_rebalance :
      Numbers Number → String → RebalancePlan → Number → ℕ → List (Lot Number) → List (Lot Number)
  sync_lots_after_rebalance numbers pm_id plan spot now_ms lots =
      let open_lots = load_open_lots pm_id lots in
      let closed = close_all pm_id now_ms lots in
      let with_a =
        insert_side pm_id side_a (aggregate_side numbers open_lots side_a) (plan_side plan side_a)
          spot now_ms closed in
      insert_side pm_id side_b (aggregate_side numbers open_lots side_b) (plan_side plan side_b)
        spot now_ms with_a
