-- ===== src/Decision/Invariants/Sound.antt =====
-- `validatePlan` reports nothing exactly for the plans that are physically valid.
use lp_agent.Prelude.{◌≡◌, refl, ◌↔◌, ◌⊎◌, true, List, [], ◌∷◌, ◌++◌, length, arith}
use lp_agent.Prelude.Int.{ℤ, ◌<ℤ◌, pos, negsuc, ◌+ℤ◌, eqb_ℤ, eq_of_parts}
use lp_agent.Decision.{RebalancePlan, sum_from, total}
use lp_agent.Decision.Invariants.{check_bin, check_bins, check_totals, validate_plan}

-- A bin above the active one holds an amount of coin A alone, a bin below it one of coin B alone,
-- and no bin is the active one.
abbrev pub IsPlaced : ℤ → ℤ → ℤ → ℤ → Type 0
IsPlaced active bin (pos a) (pos b) = ((active <ℤ bin) × (b ≡ 0)) ⊎ ((bin <ℤ active) × (a ≡ 0))
IsPlaced active bin _ _ = ⊥

abbrev pub AllPlaced : ℤ → List ℤ → List ℤ → List ℤ → Type 0
AllPlaced active [] [] [] = Unit
AllPlaced active (bin ∷ bins) (a ∷ xs) (b ∷ ys) =
    IsPlaced active bin a b × AllPlaced active bins xs ys
AllPlaced active _ _ _ = ⊥

-- The plan can be executed as written: the three arrays run in parallel, each bin is on its side,
-- and the totals are the sums.
pub record IsPhysical (active : ℤ) (plan : RebalancePlan) : Type 0 where
  pub placed : AllPlaced active plan.add_bins plan.add_amounts_a plan.add_amounts_b
  pub total_a : total plan.add_amounts_a ≡ plan.add_amount_a
  pub total_b : total plan.add_amounts_b ≡ plan.add_amount_b

append_empty : {A : Type 0} (xs ys : List A) → xs ++ ys ≡ [] → (xs ≡ []) × (ys ≡ [])
append_empty [] ys h = (refl, h)
append_empty (x ∷ xs) ys h = cc

check_bin_sound :
    (active bin : ℤ) (a b : ℤ) → check_bin active bin a b ≡ [] → IsPlaced active bin a b
unfolding check_bin
check_bin_sound active bin (pos a) (pos b) h = ground arith
check_bin_sound active bin (pos a) (negsuc b) h = ground arith
check_bin_sound active bin (negsuc a) b h = ground arith

check_bin_complete :
    (active bin : ℤ) (a b : ℤ) → IsPlaced active bin a b → check_bin active bin a b ≡ []
unfolding check_bin
check_bin_complete active bin (pos a) (pos b) h = ground arith
check_bin_complete active bin (pos a) (negsuc b) h = absurd h
check_bin_complete active bin (negsuc a) b h = absurd h

eqb_ℤ_lem : (a b : ℤ) → (eqb_ℤ a b ≡ true) ↔ (a ≡ b)
eqb_ℤ_lem a b = (λ h. eq_of_parts a b (ground arith), λ e. rw e (ground arith))

check_totals_sound :
    (a b : ℤ) (plan : RebalancePlan)
    → check_totals a b plan ≡ []
    → (a ≡ plan.add_amount_a) × (b ≡ plan.add_amount_b)
check_totals_sound a b plan h =
    ground (arith, eqb_ℤ_lem a plan.add_amount_a, eqb_ℤ_lem b plan.add_amount_b)

check_totals_complete :
    (a b : ℤ) (plan : RebalancePlan)
    → a ≡ plan.add_amount_a
    → b ≡ plan.add_amount_b
    → check_totals a b plan ≡ []
check_totals_complete a b plan e f =
    ground (arith, eqb_ℤ_lem a plan.add_amount_a, eqb_ℤ_lem b plan.add_amount_b)

module _ (active : ℤ) (plan : RebalancePlan) where
  check_bins_sound :
      (bins : List ℤ) (xs ys : List ℤ) (a b : ℤ)
      → length bins ≡ length xs
      → length bins ≡ length ys
      → check_bins active plan a b bins xs ys ≡ []
      → AllPlaced active bins xs ys
        × (sum_from a xs ≡ plan.add_amount_a)
        × (sum_from b ys ≡ plan.add_amount_b)
  unfolding check_bins sum_from
  check_bins_sound [] [] [] a b p q h = let (e, f) = check_totals_sound a b plan h in (tt, e, f)
  check_bins_sound [] (x ∷ xs) ys a b p q h = absurd (ground arith)
  check_bins_sound [] [] (y ∷ ys) a b p q h = absurd (ground arith)
  check_bins_sound (n ∷ ns) [] ys a b p q h = absurd (ground arith)
  check_bins_sound (n ∷ ns) (x ∷ xs) [] a b p q h = absurd (ground arith)
  check_bins_sound (n ∷ ns) (x ∷ xs) (y ∷ ys) a b p q h =
      let (here, there) = append_empty (check_bin active n x y) _ h in
      let ih = check_bins_sound ns xs ys (a +ℤ x) (b +ℤ y) (ground arith) (ground arith) there in
      ((check_bin_sound active n x y here, ih.0), ih.1, ih.2)

  check_bins_complete :
      (bins : List ℤ) (xs ys : List ℤ) (a b : ℤ)
      → AllPlaced active bins xs ys
      → sum_from a xs ≡ plan.add_amount_a
      → sum_from b ys ≡ plan.add_amount_b
      → (check_bins active plan a b bins xs ys ≡ [])
        × (length bins ≡ length xs)
        × (length bins ≡ length ys)
  unfolding check_bins sum_from
  check_bins_complete [] [] [] a b p e f = (check_totals_complete a b plan e f, refl, refl)
  check_bins_complete [] (x ∷ xs) ys a b p e f = absurd p
  check_bins_complete [] [] (y ∷ ys) a b p e f = absurd p
  check_bins_complete (n ∷ ns) [] ys a b p e f = absurd p
  check_bins_complete (n ∷ ns) (x ∷ xs) [] a b p e f = absurd p
  check_bins_complete (n ∷ ns) (x ∷ xs) (y ∷ ys) a b p e f =
      let ih = check_bins_complete ns xs ys (a +ℤ x) (b +ℤ y) p.1 e f in
      (rw (check_bin_complete active n x y p.0) ih.0, ground (arith, ih.1), ground (arith, ih.2))

sound :
    (active : ℤ) (plan : RebalancePlan) → validate_plan plan active ≡ [] → IsPhysical active plan
unfolding validate_plan
sound active plan h =
    let (placed, a, b) =
      check_bins_sound active plan plan.add_bins plan.add_amounts_a plan.add_amounts_b (pos 0)
        (pos 0) (ground arith) (ground arith) (ground arith) in
    record { placed = placed; total_a = a; total_b = b }

complete :
    (active : ℤ) (plan : RebalancePlan) → IsPhysical active plan → validate_plan plan active ≡ []
unfolding validate_plan
complete active plan v =
    let (ok_bins, len_a, len_b) =
      check_bins_complete active plan plan.add_bins plan.add_amounts_a plan.add_amounts_b (pos 0)
        (pos 0) v.placed v.total_a v.total_b in
    ground arith

-- The check reports nothing exactly for the plans that are physically valid: parallel arrays, coin A
-- alone above the active bin and coin B alone below it, nothing on the active bin, no negative
-- amount, and totals that are the sums of the amounts.
pub validate_plan_lem :
    (active : ℤ) (plan : RebalancePlan) → (validate_plan plan active ≡ []) ↔ IsPhysical active plan
validate_plan_lem active plan = (sound active plan, complete active plan)
