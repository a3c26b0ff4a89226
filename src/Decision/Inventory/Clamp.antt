-- ===== src/Decision/Inventory/Clamp.antt =====
-- `clampToAvailable` of src/decision/inventory.ts on amounts that are not negative: the sum is within
-- what is available, and a bin that had nothing gets no more than rounding dust.
use native.Mathlib.Nat.{mul-le-mul_right, le_of_mul-le-mul_right}
use lp_agent.Prelude.{
  ℕ, zero, suc, ◌+◌, ◌-◌, ◌*◌, ◌≤◌, ◌<◌, ◌≡◌, refl, ap, ◌∙◌, inl, inr, true, false, Bool-cases,
  below_or, List, [], ◌∷◌, map, length, arith, ◌||◌,
}
use lp_agent.Prelude.Int.{ℤ, pos, ◌-ℤ◌, ltb_ℤ, eqb_ℤ, leb_ℤ}
use lp_agent.Prelude.Division.{div_floor}
use lp_agent.Decision.Rescale.{max_idx_from, add_at}
use lp_agent.Decision.Rescale.Side.{
  sum, total-pos, IsScaled, nth, add_nat_at, share, add_at-pos, add_nat_at-IsScaled, scale_all-pos,
  share-IsScaled, sum-share, max_idx_positive,
}
use lp_agent.Decision.Inventory.{with_dust, clamp_amounts}

-- The new amounts `ms` of the bins that had `ns`: as many, and at most `dust` where there was zero.
abbrev pub IsDust : ℕ → List ℕ → List ℕ → Type 0
IsDust dust [] [] = Unit
IsDust dust (n ∷ ns) (m ∷ ms) = (n ≡ 0 → m ≤ dust) × IsDust dust ns ms
IsDust dust _ _ = ⊥

same-IsDust : (dust : ℕ) (ns : List ℕ) → IsDust dust ns ns
same-IsDust dust [] = tt
same-IsDust dust (n ∷ ns) = ((λ e. omega (arith, e)), same-IsDust dust ns)

scaled-IsDust : (dust : ℕ) (ns ms : List ℕ) → IsScaled ns ms → IsDust dust ns ms
scaled-IsDust dust [] [] s = tt
scaled-IsDust dust [] (m ∷ ms) s = absurd s
scaled-IsDust dust (n ∷ ns) [] s = absurd s
scaled-IsDust dust (n ∷ ns) (m ∷ ms) s = ((λ e. omega (arith, s.0 e)), scaled-IsDust dust ns ms s.1)

-- Dust may go anywhere.
added-IsDust :
    (dust i d : ℕ) (ns ms : List ℕ) → d ≤ dust → IsScaled ns ms → IsDust dust ns (add_nat_at i d ms)
unfolding add_nat_at
added-IsDust dust i d [] [] le s = tt
added-IsDust dust i d [] (m ∷ ms) le s = absurd s
added-IsDust dust i d (n ∷ ns) [] le s = absurd s
added-IsDust dust zero d (n ∷ ns) (m ∷ ms) le s =
    ((λ e. omega (arith, s.0 e, le)), scaled-IsDust dust ns ms s.1)
added-IsDust dust (suc i) d (n ∷ ns) (m ∷ ms) le s =
    ((λ e. omega (arith, s.0 e)), added-IsDust dust i d ns ms le s.1)

sum-add_nat_at : (i d : ℕ) (ms : List ℕ) → sum (add_nat_at i d ms) ≤ sum ms + d
unfolding add_nat_at
sum-add_nat_at i d [] = omega arith
sum-add_nat_at zero d (m ∷ ms) = omega arith
sum-add_nat_at (suc i) d (m ∷ ms) = omega (arith, sum-add_nat_at i d ms)

scaled-nth : (i : ℕ) (ns ms : List ℕ) → IsScaled ns ms → 0 < nth i ms → 0 < nth i ns
unfolding nth
scaled-nth i [] [] s h = h
scaled-nth i [] (m ∷ ms) s h = absurd s
scaled-nth i (n ∷ ns) [] s h = absurd s
scaled-nth zero (n ∷ ns) (m ∷ ms) s h = elim (below_or 0 n) [
  | inl p ↦ p
  | inr z ↦ absurd (omega (arith, h, s.0 (omega (arith, z))))
]
scaled-nth (suc i) (n ∷ ns) (m ∷ ms) s h = scaled-nth i ns ms s.1 h

-- The shares fall short of the whole by less than one for each bin.
sum-share_upper :
    (t o : ℕ) (ns : List ℕ) → 0 < o → sum ns * t ≤ (sum (map (share t o) ns) + length ns) * o
unfolding share
sum-share_upper t o [] h = omega arith
sum-share_upper t o (n ∷ ns) h = omega (arith, div_floor (n * t) o h, sum-share_upper t o ns h)

abbrev pub Clamped : ℕ → List ℕ → ℕ → List ℤ → Type 0
Clamped dust ns av zs = (ms : List ℕ) × (zs ≡ map pos ms) × IsDust dust ns ms × (sum ms ≤ av)

pos_lt : (a b : ℕ) → ltb_ℤ (pos a) (pos b) ≡ true → a < b
pos_lt a b h = ground (arith, h)

-- The test that keeps the amounts, on a sum `s`.
fits_test : (s t : ℕ) → s ≤ t → leb_ℤ (pos s) (pos t) || eqb_ℤ (pos s) (pos 0) ≡ true
fits_test s t h = ground (arith, h)

over_test : (s t : ℕ) → t < s → leb_ℤ (pos s) (pos t) || eqb_ℤ (pos s) (pos 0) ≡ false
over_test s t h = ground (arith, h)

module _ (t n : ℕ) (ns : List ℕ) (over : t < sum (n ∷ ns)) where
  abbrev old : ℕ
  old = sum (n ∷ ns)

  abbrev shares : List ℕ
  shares = map (share t old) (n ∷ ns)

  scaled : IsScaled (n ∷ ns) shares
  scaled = share-IsScaled t old (n ∷ ns) (omega (arith, over))

  short : t ≤ sum shares + length (n ∷ ns)
  short =
      le_of_mul-le-mul_right {k = old}
        (omega (arith, sum-share_upper t old (n ∷ ns) (omega (arith, over)))) (omega (arith, over))

  shares_le : sum shares ≤ t
  shares_le =
      le_of_mul-le-mul_right {k = old}
        (omega (
          arith,
          div_floor (old * t) old (omega (arith, over)),
          mul-le-mul_right old (sum-share t old (n ∷ ns) (omega (arith, over))),
        ))
        (omega (arith, over))

  abbrev largest : ℕ
  largest = max_idx_from 0 (pos (share t old n)) 1 (map pos (map (share t old) ns))

  topped :
      (dust : ℕ)
      → length (n ∷ ns) ≤ dust
      → IsDust dust (n ∷ ns) (add_nat_at largest (t - sum shares) shares)
  topped dust le = elim (below_or 0 (sum shares)) [
    | inl p ↦
        scaled-IsDust dust (n ∷ ns) _
          (add_nat_at-IsScaled largest (t - sum shares) (n ∷ ns) shares scaled (
            scaled-nth largest (n ∷ ns) shares scaled
              (max_idx_positive (share t old n) (map (share t old) ns) p))).0
    | inr z ↦
        added-IsDust dust largest (t - sum shares) (n ∷ ns) shares (omega (arith, z, short, le))
          scaled
  ]

  dusted :
      (dust : ℕ)
      → length (n ∷ ns) ≤ dust
      → Clamped dust (n ∷ ns) t (with_dust (pos t) (map pos shares))
  unfolding with_dust ◌-ℤ◌
  dusted dust le = rw (total-pos shares) (elim (Bool-cases (ltb_ℤ (pos (sum shares)) (pos t))) [
    | inl b ↦ rw b (
      add_nat_at largest (t - sum shares) shares,
      ap (λ d. add_at largest d (map pos shares)) {x = pos t -ℤ pos (sum shares)}
            {y = pos (t - sum shares)} (ground (arith, b))
          ∙ add_at-pos largest (t - sum shares) shares,
      topped dust le,
      omega (arith, sum-add_nat_at largest (t - sum shares) shares, pos_lt (sum shares) t b),
    )
    | inr b ↦ rw b (shares, refl, scaled-IsDust dust (n ∷ ns) shares scaled, shares_le)
  ])

cons-Clamped :
    (t dust n : ℕ) (ns : List ℕ)
    → length (n ∷ ns) ≤ dust
    → Clamped dust (n ∷ ns) t (clamp_amounts (map pos (n ∷ ns)) (pos t))
unfolding clamp_amounts
cons-Clamped t dust n ns le = elim (below_or t (sum (n ∷ ns))) [
  | inl over ↦ rw (total-pos (n ∷ ns)) (
      rw (over_test (sum (n ∷ ns)) t over, scale_all-pos t (sum (n ∷ ns)) (n ∷ ns))
        (dusted t n ns over dust le))
  | inr fits ↦
      rw (total-pos (n ∷ ns))
        (rw (fits_test (sum (n ∷ ns)) t fits) (n ∷ ns, refl, same-IsDust dust (n ∷ ns), fits))
]

-- Clamped to what is available, amounts that are not negative stay so and sum up to no more than it,
-- and a bin that had nothing gets at most one unit for each bin.
pub clamp_amounts-Clamped :
    (t dust : ℕ) (ns : List ℕ)
    → length ns ≤ dust
    → Clamped dust ns t (clamp_amounts (map pos ns) (pos t))
unfolding clamp_amounts
clamp_amounts-Clamped t dust [] le =
    rw (total-pos []) (rw (fits_test 0 t (omega arith)) ([], refl, tt, omega arith))
clamp_amounts-Clamped t dust (n ∷ ns) le = cons-Clamped t dust n ns le
