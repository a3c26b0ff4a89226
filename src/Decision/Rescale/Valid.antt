-- ===== src/Decision/Rescale/Valid.antt =====
-- `rescalePlanToAvailable` of src/decision/planMath.ts keeps a plan executable and within the
-- balances it is given.
use lp_agent.Prelude.{
  ℕ, ◌+◌, ◌≤◌, ◌≡◌, refl, Bool, true, false, ◌&&◌, ◌||◌, Option, some, none, List, [], ◌∷◌, map,
  arith, if◌then◌else◌,
}
use lp_agent.Prelude.Int.{ℤ, pos, negsuc, ltb_ℤ, eqb_ℤ, ◌≤ℤ◌, eq_of_parts}
use lp_agent.Decision.{RebalancePlan, total}
use lp_agent.Decision.Invariants.{validate_plan}
use lp_agent.Decision.Invariants.Sound.{IsPlaced, AllPlaced, IsPhysical, validate_plan_lem}
use lp_agent.Decision.Rescale.{
  scale_side, keep_bins, bin_of, a_of, b_of, rescaled, rescale_plan_to_available,
}
use lp_agent.Decision.Rescale.Side.{sum, total-pos, IsScaled, scale_side-Scaled}

-- Amounts that are in place are naturals.
naturals :
    (active : ℤ) (bins : List ℤ) (xs ys : List ℤ)
    → AllPlaced active bins xs ys
    → (ns ms : List ℕ) × (xs ≡ map pos ns) × (ys ≡ map pos ms)
naturals active [] [] [] p = ([], [], refl, refl)
naturals active [] (x ∷ xs) ys p = absurd p
naturals active [] [] (y ∷ ys) p = absurd p
naturals active (n ∷ ns) [] ys p = absurd p
naturals active (n ∷ ns) (x ∷ xs) [] p = absurd p
naturals active (n ∷ ns) (pos x ∷ xs) (pos y ∷ ys) p =
    let (ks, ls, e, f) = naturals active ns xs ys p.1 in (x ∷ ks, y ∷ ls, rw e refl, rw f refl)
naturals active (n ∷ ns) (pos x ∷ xs) (negsuc y ∷ ys) p = absurd p.0
naturals active (n ∷ ns) (negsuc x ∷ xs) (y ∷ ys) p = absurd p.0

-- Bins that are kept are in place, with no more than they had.
unfoldable pub Kept : ℤ → List (ℤ × ℤ × ℤ) → ℕ → ℕ → Type 0
Kept active kept a b =
    AllPlaced active (map bin_of kept) (map a_of kept) (map b_of kept)
    × ((ks : List ℕ) × (map a_of kept ≡ map pos ks) × (sum ks ≤ a))
    × ((ls : List ℕ) × (map b_of kept ≡ map pos ls) × (sum ls ≤ b))

module _ (active : ℤ) (min : ℤ) where
  keep_one :
      (c : Bool) (bin : ℤ) (n m n' m' a b : ℕ) (rest : List (ℤ × ℤ × ℤ))
      → IsPlaced active bin (pos n) (pos m)
      → (n ≡ 0 → n' ≡ 0)
      → (m ≡ 0 → m' ≡ 0)
      → Kept active rest a b
      → Kept active (if c then rest else (bin, pos n', pos m') ∷ rest) (n' + a) (m' + b)
  unfolding Kept
  keep_one true bin n m n' m' a b rest p s t (placed, (ks, e, le), (ls, f, lf)) =
      (placed, (ks, e, ground arith), (ls, f, ground arith))
  keep_one false bin n m n' m' a b rest p s t (placed, (ks, e, le), (ls, f, lf)) = (
    (ground arith, placed),
    (n' ∷ ks, rw e refl, ground arith),
    (m' ∷ ls, rw f refl, ground arith),
  )

  keep_bins-Kept :
      (bins : List ℤ) (ns ms ns' ms' : List ℕ)
      → AllPlaced active bins (map pos ns) (map pos ms)
      → IsScaled ns ns'
      → IsScaled ms ms'
      → Kept active (keep_bins min bins (map pos ns') (map pos ms')) (sum ns') (sum ms')
  unfolding keep_bins
  keep_bins-Kept [] [] [] [] [] p s t =
      unfold Kept in (tt, ([], refl, omega arith), ([], refl, omega arith))
  keep_bins-Kept [] [] [] [] (m' ∷ ms') p s t = absurd t
  keep_bins-Kept [] [] [] (n' ∷ ns') ms' p s t = absurd s
  keep_bins-Kept [] [] (m ∷ ms) ns' ms' p s t = absurd p
  keep_bins-Kept [] (n ∷ ns) ms ns' ms' p s t = absurd p
  keep_bins-Kept (bin ∷ bins) [] ms ns' ms' p s t = absurd p
  keep_bins-Kept (bin ∷ bins) (n ∷ ns) [] ns' ms' p s t = absurd p
  keep_bins-Kept (bin ∷ bins) (n ∷ ns) (m ∷ ms) [] ms' p s t = absurd s
  keep_bins-Kept (bin ∷ bins) (n ∷ ns) (m ∷ ms) (n' ∷ ns') [] p s t = absurd t
  keep_bins-Kept (bin ∷ bins) (n ∷ ns) (m ∷ ms) (n' ∷ ns') (m' ∷ ms') p s t =
      keep_one (ltb_ℤ (pos n') min && ltb_ℤ (pos m') min) bin n m n' m' (sum ns') (sum ms')
        (keep_bins min bins (map pos ns') (map pos ms')) p.0 s.0 t.0
        (keep_bins-Kept bins ns ms ns' ms' p.1 s.1 t.1)

-- What the plan comes to.
abbrev Fits : ℤ → ℕ → ℕ → Option RebalancePlan → Type 0
Fits active a b r =
    (after : RebalancePlan) × (r ≡ some after)
    × (validate_plan after active ≡ [])
    × (after.add_amount_a ≤ℤ pos a)
    × (after.add_amount_b ≤ℤ pos b)

module _ (active : ℤ) (plan : RebalancePlan) (a b : ℕ) (min : ℤ)
    (valid : validate_plan plan active ≡ []) where
  abbrev physical : IsPhysical active plan
  physical = (validate_plan_lem active plan).0 valid

  same-Fits :
      total plan.add_amounts_a ≡ pos a
      → total plan.add_amounts_b ≡ pos b
      → Fits active a b (some plan)
  same-Fits e f =
      (plan, refl, valid, ground (arith, physical.total_a), ground (arith, physical.total_b))

  rescaled-Fits :
      (kept : List (ℤ × ℤ × ℤ)) (a' b' : ℕ)
      → Kept active kept a' b'
      → a' ≤ a
      → b' ≤ b
      → Fits active a b (some (rescaled plan kept))
  unfolding Kept
  rescaled-Fits kept a' b' (placed, (ks, e, le), (ls, f, lf)) la lb = (
    rescaled plan kept,
    refl,
    (validate_plan_lem active (rescaled plan kept)).1
        (record { placed = placed; total_a = refl; total_b = refl }),
    ground (arith, total-pos ks),
    ground (arith, total-pos ls),
  )

  scaled-Kept :
      (ka kb : ℕ) × (ka ≤ a)
      × (kb ≤ b)
      × Kept active
          (keep_bins min plan.add_bins
            (scale_side plan.add_amounts_a (total plan.add_amounts_a) (pos a))
            (scale_side plan.add_amounts_b (total plan.add_amounts_b) (pos b)))
          ka
          kb
  scaled-Kept =
      let (ns, ms, e, f) =
        naturals active plan.add_bins plan.add_amounts_a plan.add_amounts_b physical.placed in
      let (ns', ea, sa, la) = scale_side-Scaled ns a in
      let (ms', eb, sb, lb) = scale_side-Scaled ms b in
      (
        sum ns',
        sum ms',
        ground arith,
        ground arith,
        rw (e, f, ea, eb)
            (keep_bins-Kept active min plan.add_bins ns ms ns' ms' (rw (e, f) at physical.placed) sa
              sb),
      )

  -- A physically valid plan, rescaled to balances that are not negative, is physically valid again
  -- at the same active bin, and funds no more of either coin than is there; the call does not throw.
  pub rescale_valid : Fits active a b (rescale_plan_to_available plan (pos a) (pos b) min)
  unfolding rescale_plan_to_available
  rescale_valid = go _ _ refl refl
    where
      go :
          (c d : Bool)
          → ltb_ℤ (pos a) (pos 0) || ltb_ℤ (pos b) (pos 0) ≡ c
          → eqb_ℤ (total plan.add_amounts_a) (pos a) && eqb_ℤ (total plan.add_amounts_b) (pos b) ≡ d
          → Fits active a b (
              if c
              then none
              else if d
              then some plan
              else some (
                  rescaled plan (
                    keep_bins min plan.add_bins
                      (scale_side plan.add_amounts_a (total plan.add_amounts_a) (pos a))
                      (scale_side plan.add_amounts_b (total plan.add_amounts_b) (pos b)))))
      go true d e f = absurd (ground arith)
      go false true e f =
          same-Fits (ground (arith, eq_of_parts (total plan.add_amounts_a) (pos a)))
            (ground (arith, eq_of_parts (total plan.add_amounts_b) (pos b)))
      go false false e f =
          let (ka, kb, la, lb, kept) = scaled-Kept in rescaled-Fits _ ka kb kept la lb
