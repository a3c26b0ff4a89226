-- ===== src/Decision/Rescale.antt =====
-- src/decision/planMath.ts: a plan's amounts scaled to the balances that are there.
pub mod Side
pub mod Valid
use Prim.Native.String.{◌++◌ as cat}
use lp_agent.Prelude.{
  ℕ, zero, suc, ◌+◌, String, Bool, true, false, ◌&&◌, ◌||◌, Option, none, some, List, [], ◌∷◌, map,
  if◌then◌else◌,
}
use lp_agent.Prelude.Int.{ℤ, pos, ◌+ℤ◌, ◌-ℤ◌, ◌*ℤ◌, ◌/ℤ◌, ltb_ℤ, eqb_ℤ}
use lp_agent.Decision.{RebalancePlan, total}

-- The loop that finds the first largest amount: `best` at index `max_idx`, the next at `i`.
unfoldable pub max_idx_from : ℕ → ℤ → ℕ → List ℤ → ℕ
max_idx_from max_idx best i [] = max_idx
max_idx_from max_idx best i (v ∷ vs) =
    let larger = ltb_ℤ best v in
    max_idx_from (if larger then i else max_idx) (if larger then v else best) (suc i) vs

-- `scaled[i] = scaled[i] + extra`
unfoldable pub add_at : ℕ → ℤ → List ℤ → List ℤ
add_at i extra [] = []
add_at zero extra (v ∷ vs) = (v +ℤ extra) ∷ vs
add_at (suc i) extra (v ∷ vs) = v ∷ add_at i extra vs

unfoldable pub scale_all : ℤ → ℤ → List ℤ → List ℤ
scale_all target old_total [] = []
scale_all target old_total (v ∷ vs) = (v *ℤ target /ℤ old_total) ∷ scale_all target old_total vs

unfoldable pub scale_side : List ℤ → ℤ → ℤ → List ℤ
scale_side [] old_total target = []
scale_side (a ∷ xs) old_total target =
    if eqb_ℤ old_total (pos 0)
    then map (λ _. pos 0) (a ∷ xs)
    else if eqb_ℤ old_total target
    then a ∷ xs
    else (let scaled = scale_all target old_total (a ∷ xs) in
        if ltb_ℤ (total scaled) target
        then add_at (max_idx_from 0 a 1 xs) (target -ℤ total scaled) scaled
        else scaled)

abbrev pub first : List ℤ → ℤ × List ℤ
first [] = (pos 0, [])
first (v ∷ vs) = (v, vs)

-- The bins that are kept, with their amounts; `scaledA[i] ?? 0n` where an array is too short.
unfoldable pub keep_bins : ℤ → List ℤ → List ℤ → List ℤ → List (ℤ × ℤ × ℤ)
keep_bins min [] xs ys = []
keep_bins min (bin ∷ bins) xs ys =
    let (a, xs') = first xs in
    let (b, ys') = first ys in
    let rest = keep_bins min bins xs' ys' in
    if ltb_ℤ a min && ltb_ℤ b min then rest else (bin, a, b) ∷ rest

abbrev pub bin_of : ℤ × ℤ × ℤ → ℤ
bin_of (bin, _, _) = bin

abbrev pub a_of : ℤ × ℤ × ℤ → ℤ
a_of (_, a, _) = a

abbrev pub b_of : ℤ × ℤ × ℤ → ℤ
b_of (_, _, b) = b

-- `MIN_BIN_AMOUNT_RESCALE`, the default of `min_bin_amount`.
abbrev pub min_bin_amount_rescale : ℤ
min_bin_amount_rescale = pos 100

abbrev pub rescaled : RebalancePlan → List (ℤ × ℤ × ℤ) → RebalancePlan
rescaled plan kept = record plan {
  add_bins = map bin_of kept;
  add_amounts_a = map a_of kept;
  add_amounts_b = map b_of kept;
  add_amount_a = total (map a_of kept);
  add_amount_b = total (map b_of kept);
  reason = cat plan.reason " [rescaled]";
}

-- Nothing where it throws the RangeError.
unfoldable pub rescale_plan_to_available : RebalancePlan → ℤ → ℤ → ℤ → Option RebalancePlan
rescale_plan_to_available plan available_a available_b min_bin_amount =
    let total_a = total plan.add_amounts_a in
    let total_b = total plan.add_amounts_b in
    if ltb_ℤ available_a (pos 0) || ltb_ℤ available_b (pos 0)
    then none
    else if eqb_ℤ total_a available_a && eqb_ℤ total_b available_b
    then some plan
    else some (
        rescaled plan (
          keep_bins min_bin_amount plan.add_bins (scale_side plan.add_amounts_a total_a available_a)
            (scale_side plan.add_amounts_b total_b available_b)))
