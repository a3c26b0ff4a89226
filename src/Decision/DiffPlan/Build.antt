-- ===== src/Decision/DiffPlan/Build.antt =====
-- The parts of `diffPlan`, src/decision/diffPlanner.ts, that compute with integers, with the count of
-- a plan's operations and the emergency withdrawal.
use lp_agent.Prelude.{
  ℕ, ◌+◌, ◌/◌, String, Bool, true, false, not, ◌&&◌, ◌||◌, Option, none, some, List, [], ◌∷◌,
  if◌then◌else◌,
}
use lp_agent.Prelude.Int.{ℤ, pos, negsuc, sub_ℕ, ◌+ℤ◌, ◌-ℤ◌, ◌/ℤ◌, ltb_ℤ, leb_ℤ, eqb_ℤ}
use lp_agent.Decision.{RebalancePlan, emergency}
use lp_agent.Decision.DiffPlan.{PositionBin, PmState, StopLoss, min_ℤ, max_ℤ}

abbrev pub one_if : Bool → ℕ
one_if b = if b then 1 else 0

abbrev pub is_pos : ℤ → Bool
is_pos z = ltb_ℤ (pos 0) z

abbrev pub non_empty : {A : Type 0} → List A → Bool
non_empty [] = false
non_empty (x ∷ xs) = true

abbrev pub has_fees : PmState → Bool
has_fees pm = is_pos pm.fee_a || is_pos pm.fee_b

abbrev pub compute_fixed_ops : PmState → Bool → List (ℤ × ℤ) → ℕ
compute_fixed_ops pm collect_fees remove_shares =
    one_if (collect_fees || has_fees pm)
    + one_if (non_empty remove_shares)
    + one_if (is_pos pm.fee_a)
    + one_if (is_pos pm.fee_b)

unfoldable pub count_plan_ops : RebalancePlan → PmState → ℕ
count_plan_ops plan pm =
    compute_fixed_ops pm plan.collect_fees plan.remove_shares
    + one_if (non_empty plan.add_bins && (is_pos plan.add_amount_a || is_pos plan.add_amount_b))

abbrev pub ptb_max_ops : ℕ
ptb_max_ops = 6

-- `Map.set`: a bin that is set again keeps its place.
unfoldable pub set_entry : {A : Type 0} → ℤ → A → List (ℤ × A) → List (ℤ × A)
set_entry bin v [] = (bin, v) ∷ []
set_entry bin v ((b, w) ∷ rest) =
    let others = set_entry bin v rest in if eqb_ℤ b bin then (b, v) ∷ rest else (b, w) ∷ others

unfoldable pub shares_from : List (ℤ × ℤ) → List PositionBin → List (ℤ × ℤ)
shares_from shares [] = shares
shares_from shares (b ∷ bs) =
    shares_from
      (if is_pos b.liquidity_share then set_entry b.bin_id b.liquidity_share shares else shares) bs

abbrev pub all_shares : PmState → List (ℤ × ℤ)
all_shares pm = shares_from [] pm.position_bins

abbrev pub withdrawal : PmState → String → RebalancePlan
withdrawal pm reason = record {
  pm_id = pm.pm_id;
  remove_shares = all_shares pm;
  add_amount_a = pos 0;
  add_amount_b = pos 0;
  add_bins = [];
  add_amounts_a = [];
  add_amounts_b = [];
  collect_fees = has_fees pm;
  reason = reason;
  planned_active_bin_id = none;
  priority = some emergency;
}

unfoldable pub build_extreme_withdraw_plan : PmState → String → Option RebalancePlan
build_extreme_withdraw_plan pm reason =
    if not (non_empty pm.position_bins) && not (has_fees pm)
    then none
    else some (withdrawal pm reason)

-- ---- the range of the position

unfoldable pub min_bin : ℤ → List PositionBin → ℤ
min_bin m [] = m
min_bin m (b ∷ bs) = min_bin (min_ℤ m b.bin_id) bs

unfoldable pub max_bin : ℤ → List PositionBin → ℤ
max_bin m [] = m
max_bin m (b ∷ bs) = max_bin (max_ℤ m b.bin_id) bs

unfoldable pub pm_range : List PositionBin → ℤ → ℤ → ℤ × ℤ
pm_range [] active_bin half_width = (active_bin -ℤ half_width, active_bin +ℤ half_width)
pm_range (b ∷ bs) active_bin half_width = (
  min_ℤ (min_bin b.bin_id (b ∷ bs)) (active_bin -ℤ half_width),
  max_ℤ (max_bin b.bin_id (b ∷ bs)) (active_bin +ℤ half_width),
)

-- `Math.round(s / 2)`, which rounds a half up.
abbrev pub half_up : ℤ → ℤ
half_up (pos n) = pos ((n + 1) / 2)
half_up (negsuc n) = sub_ℕ 0 ((n + 1) / 2)

abbrev pub position_center : List PositionBin → Option ℤ
position_center [] = none
position_center (b ∷ bs) = some (half_up (min_bin b.bin_id (b ∷ bs) +ℤ max_bin b.bin_id (b ∷ bs)))

-- ---- capital

-- The two scales there are: all of the principal, or `principal / 4n` in a strong trend.
abbrev pub scale_principal : ℤ → Bool → ℤ
scale_principal principal quarter = if quarter then principal /ℤ pos 4 else principal

abbrev pub value_a : Option (ℤ × ℤ) → ℤ
value_a none = pos 0
value_a (some (a, b)) = a

abbrev pub value_b : Option (ℤ × ℤ) → ℤ
value_b none = pos 0
value_b (some (a, b)) = b

abbrev pub available_a : PmState → Bool → ℤ
available_a pm quarter =
    scale_principal (pm.balance_a +ℤ value_a pm.position_value) quarter +ℤ pm.fee_a

abbrev pub available_b : PmState → Bool → ℤ
available_b pm quarter =
    scale_principal (pm.balance_b +ℤ value_b pm.position_value) quarter +ℤ pm.fee_b

-- ---- the bins

unfoldable pub includes : ℤ → List ℤ → Bool
includes k [] = false
includes k (b ∷ bs) = eqb_ℤ b k || includes k bs

abbrev pub beyond_floor : Bool → ℤ → Option ℤ → Bool
beyond_floor rising k none = false
beyond_floor rising k (some floor) = if rising then leb_ℤ floor k else leb_ℤ k floor

abbrev pub stop_loss_exempt : Bool → Option StopLoss → ℤ → Bool
stop_loss_exempt rising none k = false
stop_loss_exempt rising (some s) k =
    includes k s.force_liquidation_bins || beyond_floor rising k s.relaxed_ask_floor_bin

abbrev pub forced_bins : Option StopLoss → List ℤ
forced_bins none = []
forced_bins (some s) = s.force_liquidation_bins

-- A bin with its amounts of the two coins, the element of the three parallel arrays.
abbrev pub Row : Type 0
Row = ℤ × ℤ × ℤ

unfoldable pub rows_of : List ℤ → List ℤ → List ℤ → List Row
rows_of (k ∷ ks) (a ∷ xs) (b ∷ ys) = (k, a, b) ∷ rows_of ks xs ys
rows_of _ _ _ = []

abbrev pub min_bin_amount : ℤ
min_bin_amount = pos 100

abbrev pub above_dust : ℤ → ℤ
above_dust v = if leb_ℤ min_bin_amount v then v else pos 0

-- The rows that hold more than dust, sorted by bin, the earlier row first among equals.
unfoldable pub insert_by_bin : Row → List Row → List Row
insert_by_bin row [] = row ∷ []
insert_by_bin row (r ∷ rows) =
    let rest = insert_by_bin row rows in if leb_ℤ row.0 r.0 then row ∷ r ∷ rows else r ∷ rest

unfoldable pub kept_rows : List Row → List Row
kept_rows [] = []
kept_rows (row ∷ rows) =
    let rest = kept_rows rows in
    if leb_ℤ min_bin_amount row.1 || leb_ℤ min_bin_amount row.2
    then insert_by_bin (row.0, above_dust row.1, above_dust row.2) rest
    else rest
