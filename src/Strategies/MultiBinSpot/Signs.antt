-- ===== src/Strategies/MultiBinSpot/Signs.antt =====
-- The weights of the bins, src/forecast/binWeights.ts, are not negative.
use lp_agent.Prelude.{
  Bool, true, false, Bool-cases, List, [], ◌∷◌, length, inl, inr, All, if◌then◌else◌,
}
use lp_agent.Prelude.Floats.{Floats}
use lp_agent.Prelude.Int.{ℤ, pos, ltb_ℤ}
use lp_agent.Decision.DiffPlan.{sum_f}
use lp_agent.Forecast.BinWeights.{
  BinWeightInput, or_nought, mass_in_log_range, distance, fee_derate, raw_masses, each_weight,
  mass_list, compute_bin_weights,
}
use lp_agent.Strategies.MultiBinSpot.Rows.{weights_above, weights_below}
use lp_agent.Strategies.MultiBinSpot.Shares.{SignLaws, IsUnsigned}

module _ {F : Type 0} (num : Floats F) (laws : SignLaws num) where
  -- ---- the weights are not negative

  or_nought-IsUnsigned : (p : F) → IsUnsigned num (or_nought num p)
  or_nought-IsUnsigned p = elim (Bool-cases (num.gt p (num.decimal 0 0))) [
    | inl e ↦ rw e (laws.positive p e)
    | inr e ↦ rw e (laws.literal 0 0)
  ]

  if_IsUnsigned :
      (c : Bool) (x y : F)
      → IsUnsigned num x
      → IsUnsigned num y
      → IsUnsigned num (if c then x else y)
  if_IsUnsigned true x y h k = h
  if_IsUnsigned false x y h k = k

  mass-IsUnsigned : (l h mu sigma : F) → IsUnsigned num (mass_in_log_range num l h mu sigma)
  unfolding mass_in_log_range
  mass-IsUnsigned l h mu sigma =
      if_IsUnsigned _ _ _ (if_IsUnsigned _ _ _ (laws.literal 1 0) (laws.literal 0 0))
        (or_nought-IsUnsigned _)

  derate-IsUnsigned :
      (k active : ℤ) (step fee : F) → IsUnsigned num (fee_derate num k active step fee)
  unfolding fee_derate
  derate-IsUnsigned k active step fee = if_IsUnsigned _ _ _ (laws.literal 1 0) (
      if_IsUnsigned _ _ _ (laws.literal 1 0)
        (laws.quotient _ _ (laws.natural (distance num k active)) (laws.at_least_one _)))

  abbrev pub AreUnsigned : List (ℤ × F) → Type 0
  AreUnsigned es = All (λ e. IsUnsigned num e.1) es

  masses-AreUnsigned :
      (input : BinWeightInput F) (ks : List ℤ) → AreUnsigned (raw_masses num input ks)
  unfolding raw_masses
  masses-AreUnsigned input [] = tt
  masses-AreUnsigned input (k ∷ ks) = (
    laws.product _ _ (mass-IsUnsigned _ _ _ _) (derate-IsUnsigned _ _ _ _),
    masses-AreUnsigned input ks,
  )

  each_weight-AreUnsigned :
      (f : F → F) (es : List (ℤ × F))
      → ((x : F) → IsUnsigned num x → IsUnsigned num (f x))
      → AreUnsigned es
      → AreUnsigned (each_weight num f es)
  unfolding each_weight
  each_weight-AreUnsigned f [] h k = tt
  each_weight-AreUnsigned f ((b, w) ∷ es) h (k, ks) = (h w k, each_weight-AreUnsigned f es h ks)

  uniform-AreUnsigned :
      (es : List (ℤ × F))
      → AreUnsigned es
      → AreUnsigned
          (each_weight num (λ _. num.div (num.decimal 1 0) (num.of_int (pos (length es)))) es)
  uniform-AreUnsigned [] k = unfold each_weight in tt
  uniform-AreUnsigned (e ∷ es) k =
      each_weight-AreUnsigned _ (e ∷ es)
        (λ x h. laws.quotient _ _ (laws.literal 1 0) (laws.counting (length es))) k

  pub weights-AreUnsigned : (input : BinWeightInput F) → AreUnsigned (compute_bin_weights num input)
  unfolding compute_bin_weights
  weights-AreUnsigned input =
      let raw = raw_masses num input input.bins in
      elim (Bool-cases (num.ge (num.decimal 0 0) (sum_f num (mass_list num raw)))) [
        | inl e ↦ rw e (uniform-AreUnsigned raw (masses-AreUnsigned input input.bins))
        | inr e ↦ rw e (
            each_weight-AreUnsigned _ raw (λ x h. laws.quotient x _ h e)
              (masses-AreUnsigned input input.bins))
      ]

  pub above-IsUnsigned :
      (active : ℤ) (es : List (ℤ × F))
      → AreUnsigned es
      → All (IsUnsigned num) (weights_above active es)
  unfolding weights_above
  above-IsUnsigned active [] k = tt
  above-IsUnsigned active ((b, w) ∷ es) (k, ks) = elim (Bool-cases (ltb_ℤ active b)) [
    | inl e ↦ rw e (k, above-IsUnsigned active es ks)
    | inr e ↦ rw e (above-IsUnsigned active es ks)
  ]

  pub below-IsUnsigned :
      (active : ℤ) (es : List (ℤ × F))
      → AreUnsigned es
      → All (IsUnsigned num) (weights_below active es)
  unfolding weights_below
  below-IsUnsigned active [] k = tt
  below-IsUnsigned active ((b, w) ∷ es) (k, ks) = elim (Bool-cases (ltb_ℤ active b)) [
    | inl e ↦ rw e (below-IsUnsigned active es ks)
    | inr e ↦ elim (Bool-cases (ltb_ℤ b active)) [
      | inl f ↦ rw (e, f) (k, below-IsUnsigned active es ks)
      | inr f ↦ rw (e, f) (below-IsUnsigned active es ks)
    ]
  ]
