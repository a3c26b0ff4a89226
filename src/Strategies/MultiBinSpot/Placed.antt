-- ===== src/Strategies/MultiBinSpot/Placed.antt =====
-- The rows of multiBinSpot, src/strategies/multiBinSpot.ts, are on their sides of the active bin and
-- hold no more than what was split.
use lp_agent.Prelude.{ℕ, ◌+◌, ◌≤◌, refl, inl, inr, Bool-cases, ◌&&◌, List, [], ◌∷◌, map, arith}
use lp_agent.Prelude.Int.{ℤ, pos, ◌<ℤ◌, ltb_ℤ, eqb_ℤ}
use lp_agent.Decision.Invariants.Sound.{IsPlaced}
use lp_agent.Decision.Rescale.Side.{sum}
use lp_agent.Decision.DiffPlan.Build.{Row}
use lp_agent.Decision.DiffPlan.Rows.Kept.{Fit, more-Fit}
use lp_agent.Strategies.MultiBinSpot.Rows.{next, after, placed_amounts, kept_bins}

module _ (active : ℤ) where
  -- A row in front of rows that fit, dropped where it is empty.
  keep-Fit :
      (k : ℤ) (a b x y u v : ℕ) (rows : List Row)
      → IsPlaced active k (pos a) (pos b)
      → Fit active (kept_bins rows) x y
      → a + x ≤ u
      → b + y ≤ v
      → Fit active (kept_bins ((k, pos a, pos b) ∷ rows)) u v
  unfolding kept_bins
  keep-Fit k a b x y u v rows p f g h =
      elim (Bool-cases (eqb_ℤ (pos a) (pos 0) && eqb_ℤ (pos b) (pos 0))) [
        | inl e ↦
            rw e (more-Fit active (kept_bins rows) x y u v (omega (arith, g)) (omega (arith, h)) f)
        | inr e ↦ rw e (p, (x, y, f, g, h))
      ]

  drop-Fit :
      (k : ℤ) (x y : ℕ) (rows : List Row)
      → Fit active (kept_bins rows) x y
      → Fit active (kept_bins ((k, pos 0, pos 0) ∷ rows)) x y
  unfolding kept_bins
  drop-Fit k x y rows f = f

  -- A bin above the active one takes the next amount of coin A, a bin below it one of coin B.
  up-Fit :
      (k : ℤ) (y : ℕ) (rest : List ℤ → List Row)
      → active <ℤ k
      → ((zs : List ℕ) → Fit active (kept_bins (rest (map pos zs))) (sum zs) y)
      → (xs : List ℕ)
      → Fit active
          (kept_bins ((k, next (map pos xs), pos 0) ∷ rest (after (map pos xs))))
          (sum xs)
          y
  up-Fit k y rest h ih [] = drop-Fit k 0 y (rest []) (ih [])
  up-Fit k y rest h ih (x ∷ xs) =
      keep-Fit k x 0 (sum xs) y (x + sum xs) y (rest (map pos xs)) (inl (h, refl)) (ih xs)
        (omega arith) (omega arith)

  down-Fit :
      (k : ℤ) (x : ℕ) (rest : List ℤ → List Row)
      → k <ℤ active
      → ((zs : List ℕ) → Fit active (kept_bins (rest (map pos zs))) x (sum zs))
      → (ys : List ℕ)
      → Fit active
          (kept_bins ((k, pos 0, next (map pos ys)) ∷ rest (after (map pos ys))))
          x
          (sum ys)
  down-Fit k x rest h ih [] = drop-Fit k x 0 (rest []) (ih [])
  down-Fit k x rest h ih (y ∷ ys) =
      keep-Fit k 0 y x (sum ys) x (y + sum ys) (rest (map pos ys)) (inr (h, refl)) (ih ys)
        (omega arith) (omega arith)

  module _ {F : Type 0} where
    pub placed-Fit :
        (es : List (ℤ × F)) (xs ys : List ℕ)
        → Fit active
            (kept_bins (placed_amounts active es (map pos xs) (map pos ys)))
            (sum xs)
            (sum ys)
    unfolding placed_amounts
    placed-Fit [] xs ys = unfold kept_bins in tt
    placed-Fit ((k, w) ∷ es) xs ys = elim (Bool-cases (ltb_ℤ active k)) [
      | inl e ↦ rw e (
          up-Fit k (sum ys) (λ zs. placed_amounts active es zs (map pos ys)) (ground (arith, e))
            (λ zs. placed-Fit es zs ys) xs)
      | inr e ↦ elim (Bool-cases (ltb_ℤ k active)) [
        | inl f ↦
            rw (e, f)
              (down-Fit k (sum xs) (λ zs. placed_amounts active es (map pos xs) zs)
                (ground (arith, f)) (λ zs. placed-Fit es xs zs) ys)
        | inr f ↦ rw (e, f) (drop-Fit k (sum xs) (sum ys) _ (placed-Fit es xs ys))
      ]
    ]
