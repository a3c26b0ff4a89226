-- ===== src/Strategies/SingleBin/Straddle.antt =====
-- When singleBin, src/strategies/singleBin.ts, plans, and what it plans.
use lp_agent.Prelude.{
  ℕ, ◌≡◌, refl, sym, ap, ◌∙◌, ◌⊎◌, Bool-cases, inl, inr, Bool, true, false, ◌||◌, ◌&&◌, String,
  none, List, [], ◌∷◌, arith,
}
use lp_agent.Prelude.Int.{ℤ, pos, ◌+ℤ◌, ◌-ℤ◌, ◌<ℤ◌, leb_ℤ, +ℤ_parts, -ℤ_parts, eq_of_parts}
use lp_agent.Decision.{RebalancePlan, total, sum_from}
use lp_agent.Decision.Invariants.{validate_plan}
use lp_agent.Decision.Invariants.Sound.{validate_plan_lem, AllPlaced}
use lp_agent.Decision.DiffPlan.{PositionBin, PmState}
use lp_agent.Decision.DiffPlan.Plan.Extreme.{ids, IsDistinct, held_shares, all_shares-held}
use lp_agent.Decision.DiffPlan.Build.{is_pos, min_bin, max_bin}
use lp_agent.Strategies.{plan_and_reconcile}
use lp_agent.Strategies.SingleBin.{
  is_empty, in_range, gross_a, gross_b, pushed, straddle, plan_single_bin,
}

-- Some bin is at most, or at least, the active one.
abbrev pub reaches_down : ℤ → List PositionBin → Bool
reaches_down active [] = false
reaches_down active (b ∷ bs) = leb_ℤ b.bin_id active || reaches_down active bs

abbrev pub reaches_up : ℤ → List PositionBin → Bool
reaches_up active [] = false
reaches_up active (b ∷ bs) = leb_ℤ active b.bin_id || reaches_up active bs

min_bin-down :
    (m active : ℤ) (bs : List PositionBin)
    → leb_ℤ (min_bin m bs) active ≡ (leb_ℤ m active || reaches_down active bs)
unfolding min_bin
min_bin-down m active [] = ground arith
min_bin-down m active (b ∷ bs) =
    ground (arith, min_bin-down m active bs, min_bin-down b.bin_id active bs)

max_bin-up :
    (m active : ℤ) (bs : List PositionBin)
    → leb_ℤ active (max_bin m bs) ≡ (leb_ℤ active m || reaches_up active bs)
unfolding max_bin
max_bin-up m active [] = ground arith
max_bin-up m active (b ∷ bs) = ground (arith, max_bin-up m active bs, max_bin-up b.bin_id active bs)

below_active : (z : ℤ) → (z -ℤ pos 1) <ℤ z
below_active z = omega (arith, -ℤ_parts z (pos 1))

above_active : (z : ℤ) → z <ℤ (z +ℤ pos 1)
above_active z = omega (arith, +ℤ_parts z (pos 1))

zero_add : (z : ℤ) → pos 0 +ℤ z ≡ z
zero_add z = eq_of_parts _ _ (omega (arith, +ℤ_parts (pos 0) z))

add_zero : (z : ℤ) → z +ℤ pos 0 ≡ z
add_zero z = eq_of_parts _ _ (omega (arith, +ℤ_parts z (pos 0)))

-- An amount that is not negative is positive or zero.
amount_cases : (a : ℕ) → (is_pos (pos a) ≡ true) ⊎ ((is_pos (pos a) ≡ false) × (a ≡ 0))
amount_cases a = elim (Bool-cases (is_pos (pos a))) [
  | inl e ↦ inl e
  | inr e ↦ inr (e, ground (arith, e))
]

module _ (active : ℤ) where
  abbrev IsFit : ℤ → ℤ → Type 0
  IsFit a b =
      AllPlaced active (pushed a b (active -ℤ pos 1) (active +ℤ pos 1)) (pushed a b (pos 0) a)
        (pushed a b b (pos 0))
      × (total (pushed a b (pos 0) a) ≡ a)
      × (total (pushed a b b (pos 0)) ≡ b)

  pushed-IsFit : (a b : ℕ) → IsFit (pos a) (pos b)
  unfolding sum_from
  pushed-IsFit a b = elim (amount_cases a) [
    | inl e ↦ elim (amount_cases b) [
      | inl f ↦
          rw (e, f)
            (
              (inr (below_active active, refl), (inl (above_active active, refl), tt)),
              ap (λ z. z +ℤ pos a) (zero_add (pos 0)) ∙ zero_add (pos a),
              add_zero (pos 0 +ℤ pos b) ∙ zero_add (pos b),
            )
      | inr (f, y) ↦
          rw (e, f)
            (
              (inl (above_active active, refl), tt),
              zero_add (pos a),
              zero_add (pos 0) ∙ ap pos (sym y),
            )
    ]
    | inr (e, x) ↦ elim (amount_cases b) [
      | inl f ↦
          rw (e, f)
            (
              (inr (below_active active, refl), tt),
              zero_add (pos 0) ∙ ap pos (sym x),
              zero_add (pos b),
            )
      | inr (f, y) ↦ rw (e, f) (tt, ap pos (sym x), ap pos (sym y))
    ]
  ]

-- The position has bins on both sides of the active bin, or in it.
abbrev pub is_straddling : ℤ → List PositionBin → Bool
is_straddling active bs = reaches_down active bs && reaches_up active bs

in_range-straddling :
    (active : ℤ) (bs : List PositionBin) → in_range active bs ≡ is_straddling active bs
unfolding in_range
in_range-straddling active [] = refl
in_range-straddling active (b ∷ bs) =
    rw (min_bin-down b.bin_id active (b ∷ bs), max_bin-up b.bin_id active (b ∷ bs)) (ground arith)

module _ (print : ℤ → String) {C : Type 0} where
  -- A PM that is not empty, with no bin listed twice, whose bins do not lie on both sides of the
  -- active bin or in it, and whose capital is not negative, gets a plan that passes the plan check,
  -- adds all of the capital, and removes the whole share of every bin that has one.
  pub straddle_deploys_all :
      (pm : PmState) (active : ℤ) (a b : ℕ)
      → is_empty pm ≡ false
      → is_straddling active pm.position_bins ≡ false
      → gross_a pm ≡ pos a
      → gross_b pm ≡ pos b
      → IsDistinct (ids pm.position_bins)
      → (plan : RebalancePlan) × (plan_single_bin print {C = C} pm active
          ≡ plan_and_reconcile plan none none)
        × (validate_plan plan active ≡ [])
        × (plan.add_amount_a ≡ pos a)
        × (plan.add_amount_b ≡ pos b)
        × (plan.remove_shares ≡ held_shares pm.position_bins)
  unfolding plan_single_bin straddle
  straddle_deploys_all pm active a b h k e f d =
      let (placed, ta, tb) = pushed-IsFit active a b in
      (
        straddle print pm active,
        rw (h, in_range-straddling active pm.position_bins, k) refl,
        (validate_plan_lem active (straddle print pm active)).1
            (record { placed = rw (e, f) placed; total_a = rw (e, f) ta; total_b = rw (e, f) tb }),
        e,
        f,
        all_shares-held pm d,
      )
