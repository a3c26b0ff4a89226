-- ===== src/Decision/DiffPlan/Rows/Placed.antt =====
-- The corrected amounts of `diffPlan`, src/decision/diffPlanner.ts, are on their sides of the active
-- bin: whatever the weights are, no amount is negative, and the other coin's is zero.
use lp_agent.Prelude.{
  ℕ, ◌≡◌, refl, ◌⊎◌, inl, inr, Bool-cases, List, [], ◌∷◌, ◌++◌, map, length, All, arith,
}
use lp_agent.Prelude.Floats.{Floats}
use lp_agent.Prelude.Int.{ℤ, pos, negsuc, ◌<ℤ◌, ltb_ℤ, eqb_ℤ, ◌*ℤ◌, ◌/ℤ◌}
use lp_agent.Decision.Inventory.{adjust_a, adjust_b, adjust_all, not_below_zero}
use lp_agent.Decision.DiffPlan.{bins_of}
use lp_agent.Decision.DiffPlan.Rows.{zeros, above, below}

-- Amounts `ns` of coin A and `ms` of coin B, each bin on one side with the other coin's at zero.
abbrev pub IsSided : ℤ → List ℤ → List ℕ → List ℕ → Type 0
IsSided active [] [] [] = Unit
IsSided active (k ∷ ks) (n ∷ ns) (m ∷ ms) =
    (((active <ℤ k) × (m ≡ 0)) ⊎ ((k <ℤ active) × (n ≡ 0))) × IsSided active ks ns ms
IsSided active _ _ _ = ⊥

abbrev pub Sided : ℤ → List ℤ → List ℤ → List ℤ → Type 0
Sided active bins xs ys =
    (ns ms : List ℕ) × (xs ≡ map pos ns) × (ys ≡ map pos ms) × IsSided active bins ns ms

natural : (z : ℤ) → (n : ℕ) × (not_below_zero z ≡ pos n)
natural (pos n) = (n, ground arith)
natural (negsuc n) = (0, ground arith)

module _ (active scale k : ℤ) where
  adjust_a-above : (a : ℤ) → active <ℤ k → (n : ℕ) × (adjust_a active scale k a ≡ pos n)
  unfolding adjust_a
  adjust_a-above a h = elim (Bool-cases (eqb_ℤ a (pos 0))) [
    | inl e ↦ (0, rw e refl)
    | inr e ↦ let (n, en) = natural (a *ℤ scale /ℤ pos 1_000_000) in (n, ground (arith, e, h, en))
  ]

  adjust_b-below : (b : ℤ) → k <ℤ active → (n : ℕ) × (adjust_b active scale k b ≡ pos n)
  unfolding adjust_b
  adjust_b-below b h = elim (Bool-cases (eqb_ℤ b (pos 0))) [
    | inl e ↦ (0, rw e refl)
    | inr e ↦ let (n, en) = natural (b *ℤ scale /ℤ pos 1_000_000) in (n, ground (arith, e, h, en))
  ]

  adjust_a_zero : adjust_a active scale k (pos 0) ≡ pos 0
  unfolding adjust_a
  adjust_a_zero = refl

  adjust_b_zero : adjust_b active scale k (pos 0) ≡ pos 0
  unfolding adjust_b
  adjust_b_zero = refl

module _ {F : Type 0} (num : Floats F) (active bid ask : ℤ) where
  abbrev fix_a : List ℤ → List ℤ → List ℤ
  fix_a = adjust_all (adjust_a active bid)

  abbrev fix_b : List ℤ → List ℤ → List ℤ
  fix_b = adjust_all (adjust_b active ask)

  pub downs-Sided :
      (es : List (ℤ × F)) (ys : List ℤ)
      → All (λ e. e.0 <ℤ active) es
      → length es ≡ length ys
      → Sided active
          (bins_of num es)
          (fix_a (bins_of num es) (zeros es))
          (fix_b (bins_of num es) ys)
  unfolding adjust_all
  downs-Sided [] ys h e = ([], [], refl, refl, tt)
  downs-Sided (x ∷ es) [] h e = absurd (ground (arith, e))
  downs-Sided (x ∷ es) (y ∷ ys) h e =
      let (ns, ms, ea, eb, s) = downs-Sided es ys h.1 (omega (arith, e)) in
      let (m, em) = adjust_b-below active ask x.0 y h.0 in
      (
        0 ∷ ns,
        m ∷ ms,
        rw (adjust_a_zero active bid x.0, ea) refl,
        rw (em, eb) refl,
        (inr (h.0, refl), s),
      )

  pub ups-Sided :
      (es : List (ℤ × F)) (xs : List ℤ) (ls ya yb : List ℤ)
      → All (λ e. active <ℤ e.0) es
      → length es ≡ length xs
      → Sided active ls (fix_a ls ya) (fix_b ls yb)
      → Sided active
          (bins_of num es ++ ls)
          (fix_a (bins_of num es ++ ls) (xs ++ ya))
          (fix_b (bins_of num es ++ ls) (zeros es ++ yb))
  unfolding adjust_all
  ups-Sided [] [] ls ya yb h e rest = rest
  ups-Sided [] (x ∷ xs) ls ya yb h e rest = absurd (ground (arith, e))
  ups-Sided (x ∷ es) [] ls ya yb h e rest = absurd (ground (arith, e))
  ups-Sided (x ∷ es) (y ∷ xs) ls ya yb h e rest =
      let (ns, ms, ea, eb, s) = ups-Sided es xs ls ya yb h.1 (omega (arith, e)) rest in
      let (n, en) = adjust_a-above active bid x.0 y h.0 in
      (
        n ∷ ns,
        0 ∷ ms,
        rw (en, ea) refl,
        rw (adjust_b_zero active ask x.0, eb) refl,
        (inl (h.0, refl), s),
      )

module _ {F : Type 0} (num : Floats F) (active : ℤ) where
  pub above-All : (es : List (ℤ × F)) → All (λ e. active <ℤ e.0) (above num active es)
  unfolding above
  above-All [] = tt
  above-All ((k, w) ∷ es) = elim (Bool-cases (ltb_ℤ active k)) [
    | inl e ↦ rw e (ground (arith, e), above-All es)
    | inr e ↦ rw e (above-All es)
  ]

  pub below-All : (es : List (ℤ × F)) → All (λ e. e.0 <ℤ active) (below num active es)
  unfolding below
  below-All [] = tt
  below-All ((k, w) ∷ es) = elim (Bool-cases (ltb_ℤ k active)) [
    | inl e ↦ rw e (ground (arith, e), below-All es)
    | inr e ↦ rw e (below-All es)
  ]
