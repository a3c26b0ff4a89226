-- ===== src/Decision/DiffPlan/Rows/Kept.antt =====
-- The rows that `diffPlan`, src/decision/diffPlanner.ts, keeps are on their sides and hold no more
-- than the amounts: the dust that the clamp may put on the other side is filtered out.
use lp_agent.Prelude.{
  ℕ, ◌+◌, ◌≤◌, ◌<◌, ◌≡◌, refl, ◌⊎◌, inl, inr, Bool-cases, List, [], ◌∷◌, map, arith, ◌||◌,
}
use lp_agent.Prelude.Int.{ℤ, pos, negsuc, ◌<ℤ◌, leb_ℤ}
use lp_agent.Decision.Invariants.Sound.{IsPlaced}
use lp_agent.Decision.Rescale.Side.{sum}
use lp_agent.Decision.Rescale.Valid.{Kept}
use lp_agent.Decision.Inventory.Clamp.{IsDust}
use lp_agent.Decision.DiffPlan.Build.{
  Row, rows_of, insert_by_bin, kept_rows, above_dust, min_bin_amount,
}
use lp_agent.Decision.DiffPlan.Rows.Placed.{IsSided}

module _ (active : ℤ) where
  cons-Kept :
      (k : ℤ) (a b x y : ℕ) (rows : List Row)
      → IsPlaced active k (pos a) (pos b)
      → Kept active rows x y
      → Kept active ((k, pos a, pos b) ∷ rows) (a + x) (b + y)
  unfolding Kept
  cons-Kept k a b x y rows p (placed, (ks, e, le), (ls, f, lf)) =
      ((p, placed), (a ∷ ks, rw e refl, omega (arith, le)), (b ∷ ls, rw f refl, omega (arith, lf)))

  -- Rows on their sides that hold at most `x` of coin A and `y` of coin B.
  abbrev pub Fit : List Row → ℕ → ℕ → Type 0
  Fit [] x y = Unit
  Fit ((k, pos a, pos b) ∷ rows) x y =
      IsPlaced active k (pos a) (pos b)
      × ((x' y' : ℕ) × Fit rows x' y' × (a + x' ≤ x) × (b + y' ≤ y))
  Fit _ x y = ⊥

  pub Fit-Kept : (rows : List Row) (x y : ℕ) → Fit rows x y → Kept active rows x y
  unfolding Kept
  Fit-Kept [] x y f = (tt, ([], refl, omega arith), ([], refl, omega arith))
  Fit-Kept ((k, pos a, pos b) ∷ rows) x y (p, (x', y', f, le, lf)) =
      let (placed, (ks, e, lk), (ls, g, ll)) = Fit-Kept rows x' y' f in
      (
        (p, placed),
        (a ∷ ks, rw e refl, omega (arith, lk, le)),
        (b ∷ ls, rw g refl, omega (arith, ll, lf)),
      )
  Fit-Kept ((k, negsuc a, b) ∷ rows) x y f = absurd f
  Fit-Kept ((k, pos a, negsuc b) ∷ rows) x y f = absurd f

  pub more-Fit : (rows : List Row) (x y x' y' : ℕ) → x ≤ x' → y ≤ y' → Fit rows x y → Fit rows x' y'
  more-Fit [] x y x' y' le lf f = tt
  more-Fit ((k, pos a, pos b) ∷ rows) x y x' y' le lf (p, (u, v, f, lu, lv)) =
      (p, (u, v, f, omega (arith, le, lu), omega (arith, lf, lv)))
  more-Fit ((k, negsuc a, b) ∷ rows) x y x' y' le lf f = absurd f
  more-Fit ((k, pos a, negsuc b) ∷ rows) x y x' y' le lf f = absurd f

  insert-Fit :
      (k : ℤ) (a b : ℕ) (rows : List Row) (x y : ℕ)
      → IsPlaced active k (pos a) (pos b)
      → Fit rows x y
      → Fit (insert_by_bin (k, pos a, pos b) rows) (a + x) (b + y)
  unfolding insert_by_bin
  insert-Fit k a b [] x y p f = (p, (0, 0, tt, omega arith, omega arith))
  insert-Fit k a b ((j, pos c, pos d) ∷ rows) x y p (q, (u, v, f, lu, lv)) =
      elim (Bool-cases (leb_ℤ k j)) [
        | inl e ↦ rw e (p, (x, y, (q, (u, v, f, lu, lv)), omega arith, omega arith))
        | inr e ↦
            rw e (
              q,
              (a + u, b + v, insert-Fit k a b rows u v p f, omega (arith, lu), omega (arith, lv)),
            )
      ]
  insert-Fit k a b ((j, negsuc c, d) ∷ rows) x y p f = absurd f
  insert-Fit k a b ((j, pos c, negsuc d) ∷ rows) x y p f = absurd f

  -- What is left of an amount is none of it or all of it.
  kept_part : (n : ℕ) → (m : ℕ) × (above_dust (pos n) ≡ pos m) × (m ≤ n) × ((n < 100) → m ≡ 0)
  kept_part n = elim (Bool-cases (leb_ℤ min_bin_amount (pos n))) [
    | inl e ↦ rw e (n, refl, omega arith, λ h. ground (arith, e, h))
    | inr e ↦ rw e (0, refl, omega arith, λ h. refl)
  ]

  part-IsPlaced :
      (dust : ℕ) (k : ℤ) (n m n' m' a b : ℕ)
      → dust < 100
      → ((active <ℤ k) × (m ≡ 0)) ⊎ ((k <ℤ active) × (n ≡ 0))
      → (n ≡ 0 → n' ≤ dust)
      → (m ≡ 0 → m' ≤ dust)
      → (n' < 100 → a ≡ 0)
      → (m' < 100 → b ≡ 0)
      → IsPlaced active k (pos a) (pos b)
  part-IsPlaced dust k n m n' m' a b small (inl (lt, e)) d d' za zb =
      inl (lt, zb (omega (arith, d' e, small)))
  part-IsPlaced dust k n m n' m' a b small (inr (lt, e)) d d' za zb =
      inr (lt, za (omega (arith, d e, small)))

  pub kept_rows-Fit :
      (dust : ℕ) (ks : List ℤ) (ns ms ns' ms' : List ℕ)
      → dust < 100
      → IsSided active ks ns ms
      → IsDust dust ns ns'
      → IsDust dust ms ms'
      → Fit (kept_rows (rows_of ks (map pos ns') (map pos ms'))) (sum ns') (sum ms')
  unfolding kept_rows rows_of
  kept_rows-Fit dust [] [] [] [] [] small s d d' = tt
  kept_rows-Fit dust [] [] [] [] (m' ∷ ms') small s d d' = absurd d'
  kept_rows-Fit dust [] [] [] (n' ∷ ns') ms' small s d d' = absurd d
  kept_rows-Fit dust [] [] (m ∷ ms) ns' ms' small s d d' = absurd s
  kept_rows-Fit dust [] (n ∷ ns) ms ns' ms' small s d d' = absurd s
  kept_rows-Fit dust (k ∷ ks) [] ms ns' ms' small s d d' = absurd s
  kept_rows-Fit dust (k ∷ ks) (n ∷ ns) [] ns' ms' small s d d' = absurd s
  kept_rows-Fit dust (k ∷ ks) (n ∷ ns) (m ∷ ms) [] ms' small s d d' = absurd d
  kept_rows-Fit dust (k ∷ ks) (n ∷ ns) (m ∷ ms) (n' ∷ ns') [] small s d d' = absurd d'
  kept_rows-Fit dust (k ∷ ks) (n ∷ ns) (m ∷ ms) (n' ∷ ns') (m' ∷ ms') small s d d' =
      let rest = kept_rows-Fit dust ks ns ms ns' ms' small s.1 d.1 d'.1 in
      let (a, ea, la, za) = kept_part n' in
      let (b, eb, lb, zb) = kept_part m' in
      let p = part-IsPlaced dust k n m n' m' a b small s.0 d.0 d'.0 za zb in
      elim (Bool-cases (leb_ℤ min_bin_amount (pos n') || leb_ℤ min_bin_amount (pos m'))) [
        | inl e ↦
            rw (e, ea, eb)
              (more-Fit _ (a + sum ns') (b + sum ms') (sum (n' ∷ ns')) (sum (m' ∷ ms'))
                (omega (arith, la)) (omega (arith, lb))
                (insert-Fit k a b _ (sum ns') (sum ms') p rest))
        | inr e ↦ rw e (
            more-Fit _ (sum ns') (sum ms') (sum (n' ∷ ns')) (sum (m' ∷ ms')) (omega arith)
              (omega arith) rest)
      ]
