-- ===== src/Decision/Rescale/Side.antt =====
-- `scaleSide` of src/decision/planMath.ts on amounts that are not negative: it hands out the target
-- exactly, and nothing to a bin that had nothing.
use native.Mathlib.Nat.{mul-div_cancel}
use lp_agent.Prelude.{
  ℕ, zero, suc, ◌+◌, ◌-◌, ◌*◌, ◌/◌, ◌≤◌, ◌<◌, ◌≡◌, refl, ap, ◌∙◌, ◌⊎◌, inl, inr, Bool, true, false,
  List, [], ◌∷◌, map, sum_by, arith, ◌===◌, if◌then◌else◌,
}
use lp_agent.Prelude.Int.{ℤ, pos, ◌+ℤ◌, ◌-ℤ◌, ◌*ℤ◌, ◌/ℤ◌, ltb_ℤ, eqb_ℤ}
use lp_agent.Prelude.Division.{add-div-le}
use lp_agent.Decision.{sum_from, total}
use lp_agent.Decision.Rescale.{max_idx_from, add_at, scale_all, scale_side}

abbrev pub sum : List ℕ → ℕ
sum = sum_by (λ n. n)

pub sum_from-pos : (s : ℕ) (ns : List ℕ) → sum_from (pos s) (map pos ns) ≡ pos (s + sum ns)
unfolding sum_from ◌+ℤ◌
sum_from-pos s [] = ground arith
sum_from-pos s (n ∷ ns) = ground (arith, sum_from-pos (s + n) ns)

pub total-pos : (ns : List ℕ) → total (map pos ns) ≡ pos (sum ns)
total-pos ns = ground (arith, sum_from-pos 0 ns)

-- The new amounts `ms` of the bins that had `ns`: as many, and zero where there was zero.
abbrev pub IsScaled : List ℕ → List ℕ → Type 0
IsScaled [] [] = Unit
IsScaled (n ∷ ns) (m ∷ ms) = (n ≡ 0 → m ≡ 0) × IsScaled ns ms
IsScaled _ _ = ⊥

unfoldable pub nth : ℕ → List ℕ → ℕ
nth i [] = 0
nth zero (n ∷ ns) = n
nth (suc i) (n ∷ ns) = nth i ns

unfoldable pub add_nat_at : ℕ → ℕ → List ℕ → List ℕ
add_nat_at i d [] = []
add_nat_at zero d (n ∷ ns) = (n + d) ∷ ns
add_nat_at (suc i) d (n ∷ ns) = n ∷ add_nat_at i d ns

pub add_at-pos :
    (i d : ℕ) (ns : List ℕ) → add_at i (pos d) (map pos ns) ≡ map pos (add_nat_at i d ns)
unfolding add_at add_nat_at ◌+ℤ◌
add_at-pos i d [] = refl
add_at-pos zero d (n ∷ ns) = ground arith
add_at-pos (suc i) d (n ∷ ns) = ground (arith, add_at-pos i d ns)

pub add_nat_at-IsScaled :
    (i d : ℕ) (ns ms : List ℕ)
    → IsScaled ns ms
    → 0 < nth i ns
    → IsScaled ns (add_nat_at i d ms) × (sum (add_nat_at i d ms) ≡ sum ms + d)
unfolding nth add_nat_at
add_nat_at-IsScaled i d [] [] s h = absurd (ground arith)
add_nat_at-IsScaled i d [] (m ∷ ms) s h = absurd s
add_nat_at-IsScaled i d (n ∷ ns) [] s h = absurd s
add_nat_at-IsScaled zero d (n ∷ ns) (m ∷ ms) s h = (((λ e. ground arith), s.1), ground arith)
add_nat_at-IsScaled (suc i) d (n ∷ ns) (m ∷ ms) s h =
    let ih = add_nat_at-IsScaled i d ns ms s.1 h in ((s.0, ih.0), ground (arith, ih.1))

unfoldable pub share : ℕ → ℕ → ℕ → ℕ
share t o n = n * t / o

pub scale_all-pos :
    (t o : ℕ) (ns : List ℕ) → scale_all (pos t) (pos o) (map pos ns) ≡ map pos (map (share t o) ns)
unfolding scale_all share ◌*ℤ◌ ◌/ℤ◌
scale_all-pos t o [] = refl
scale_all-pos t o (n ∷ ns) = ground (arith, scale_all-pos t o ns)

pub share-IsScaled : (t o : ℕ) (ns : List ℕ) → 0 < o → IsScaled ns (map (share t o) ns)
unfolding share
share-IsScaled t o [] h = tt
share-IsScaled t o (n ∷ ns) h = ((λ e. grind arith), share-IsScaled t o ns h)

pub sum-share : (t o : ℕ) (ns : List ℕ) → 0 < o → sum (map (share t o) ns) ≤ sum ns * t / o
unfolding share
sum-share t o [] h = omega arith
sum-share t o (n ∷ ns) h =
    let apart : (n + sum ns) * t ≡ n * t + sum ns * t = grind arith in
    rw apart (omega (arith, sum-share t o ns h, add-div-le (n * t) (sum ns * t) o h))

-- What the search for the largest amount finds.
max_idx_lem :
    (m best i : ℕ) (vs : List ℕ)
    → let r = max_idx_from m (pos best) i (map pos vs) in
      ((r ≡ m) × (best ≡ 0 → sum vs ≡ 0)) ⊎ ((i ≤ r) × (best < nth (r - i) vs))
unfolding max_idx_from nth
max_idx_lem m best i [] = inl (refl, λ e. refl)
max_idx_lem m best i (v ∷ vs) =
    ground (arith, max_idx_lem i v (suc i) vs, max_idx_lem m best (suc i) vs)

pub max_idx_positive :
    (n : ℕ) (ns : List ℕ)
    → 0 < sum (n ∷ ns)
    → 0 < nth (max_idx_from 0 (pos n) 1 (map pos ns)) (n ∷ ns)
unfolding nth
max_idx_positive n ns h = go (max_idx_from 0 (pos n) 1 (map pos ns)) (max_idx_lem 0 n 1 ns)
  where
    go :
        (r : ℕ)
        → ((r ≡ 0) × (n ≡ 0 → sum ns ≡ 0)) ⊎ ((1 ≤ r) × (n < nth (r - 1) ns))
        → 0 < nth r (n ∷ ns)
    go zero (inl (e, z)) = ground arith
    go zero (inr (le, lt)) = absurd (ground arith)
    go (suc r) (inl (e, z)) = absurd (ground arith)
    go (suc r) (inr (le, lt)) = ground arith

-- What a side comes to: the amounts, and their sum.
abbrev pub Scaled : List ℕ → ℕ → List ℤ → Type 0
Scaled ns t zs =
    (ms : List ℕ) × (zs ≡ map pos ms) × IsScaled ns ms × (sum ms ≡ (if sum ns === 0 then 0 else t))

zeros-Scaled : (t : ℕ) (ns : List ℕ) → sum ns ≡ 0 → Scaled ns t (map (λ _. pos 0) (map pos ns))
zeros-Scaled t ns h = (map (λ _. 0) ns, shape ns, fits ns, ground (arith, none_of ns))
  where
    shape : (xs : List ℕ) → map (λ (_ : ℤ). pos 0) (map pos xs) ≡ map pos (map (λ _. 0) xs)
    shape [] = refl
    shape (x ∷ xs) = ground (arith, shape xs)

    fits : (xs : List ℕ) → IsScaled xs (map (λ _. 0) xs)
    fits [] = tt
    fits (x ∷ xs) = ((λ e. refl), fits xs)

    none_of : (xs : List ℕ) → sum (map (λ _. 0) xs) ≡ 0
    none_of [] = refl
    none_of (x ∷ xs) = omega (arith, none_of xs)

same-IsScaled : (ns : List ℕ) → IsScaled ns ns
same-IsScaled [] = tt
same-IsScaled (n ∷ ns) = ((λ e. e), same-IsScaled ns)

module _ (t n : ℕ) (ns : List ℕ) (some_total : 0 < sum (n ∷ ns)) where
  abbrev old : ℕ
  old = sum (n ∷ ns)

  abbrev shares : List ℕ
  shares = map (share t old) (n ∷ ns)

  shares-le : sum shares ≤ t
  shares-le =
      let cancel : old * t / old ≡ t =
        (let swap : old * t ≡ t * old = grind arith in rw swap (mul-div_cancel t some_total)) in
      omega (arith, sum-share t old (n ∷ ns) some_total, cancel)

  abbrev largest : ℕ
  largest = max_idx_from 0 (pos n) 1 (map pos ns)

  topped-Scaled :
      sum shares < t
      → Scaled (n ∷ ns) t (add_at largest (pos t -ℤ pos (sum shares)) (map pos shares))
  unfolding ◌-ℤ◌
  topped-Scaled h =
      let top =
        add_nat_at-IsScaled largest (t - sum shares) (n ∷ ns) shares
          (share-IsScaled t old (n ∷ ns) some_total) (max_idx_positive n ns some_total) in
      (
        add_nat_at largest (t - sum shares) shares,
        ap (λ d. add_at largest d (map pos shares)) {x = pos t -ℤ pos (sum shares)}
              {y = pos (t - sum shares)} (ground arith)
            ∙ add_at-pos largest (t - sum shares) shares,
        top.0,
        ground (arith, top.1),
      )

  scaled_total : total (scale_all (pos t) (pos old) (map pos (n ∷ ns))) ≡ pos (sum shares)
  scaled_total = rw (scale_all-pos t old (n ∷ ns)) (total-pos shares)

  spread-Scaled : Scaled (n ∷ ns) t (
      let scaled = scale_all (pos t) (pos old) (map pos (n ∷ ns)) in
      if ltb_ℤ (total scaled) (pos t)
      then add_at largest (pos t -ℤ total scaled) scaled
      else scaled)
  spread-Scaled =
      rw (scaled_total, scale_all-pos t old (n ∷ ns)) (go (ltb_ℤ (pos (sum shares)) (pos t)) refl)
    where
      go :
          (b : Bool)
          → ltb_ℤ (pos (sum shares)) (pos t) ≡ b
          → Scaled (n ∷ ns) t (
              if b
              then add_at largest (pos t -ℤ pos (sum shares)) (map pos shares)
              else map pos shares)
      go true e = topped-Scaled (ground arith)
      go false e =
          (shares, refl, share-IsScaled t old (n ∷ ns) some_total, ground (arith, shares-le))

side_of : ℕ → ℕ → List ℕ → List ℤ
side_of t n ns =
    let scaled = scale_all (pos t) (pos (sum (n ∷ ns))) (map pos (n ∷ ns)) in
    if ltb_ℤ (total scaled) (pos t)
    then add_at (max_idx_from 0 (pos n) 1 (map pos ns)) (pos t -ℤ total scaled) scaled
    else scaled

scale_side-cases :
    (t n : ℕ) (ns : List ℕ) (b c : Bool)
    → eqb_ℤ (pos (sum (n ∷ ns))) (pos 0) ≡ b
    → eqb_ℤ (pos (sum (n ∷ ns))) (pos t) ≡ c
    → Scaled (n ∷ ns) t (
        if b
        then map (λ _. pos 0) (map pos (n ∷ ns))
        else if c
        then map pos (n ∷ ns)
        else side_of t n ns)
unfolding side_of
scale_side-cases t n ns true c e f = zeros-Scaled t (n ∷ ns) (ground arith)
scale_side-cases t n ns false true e f = (n ∷ ns, refl, same-IsScaled (n ∷ ns), ground arith)
scale_side-cases t n ns false false e f = spread-Scaled t n ns (ground arith)

scale_side_cons :
    (t n : ℕ) (ns : List ℕ)
    → Scaled (n ∷ ns) t (scale_side (map pos (n ∷ ns)) (pos (sum (n ∷ ns))) (pos t))
unfolding scale_side side_of
scale_side_cons t n ns = scale_side-cases t n ns _ _ refl refl

scale_side_nil : (t : ℕ) → Scaled [] t (scale_side [] (pos 0) (pos t))
unfolding scale_side
scale_side_nil t = ([], refl, tt, refl)

-- Scaled to a target, the amounts of a side that are not all zero sum up to the target exactly, and
-- a side that is all zero stays so; a bin that had nothing gets nothing.
pub scale_side-Scaled :
    (ns : List ℕ) (t : ℕ) → Scaled ns t (scale_side (map pos ns) (total (map pos ns)) (pos t))
scale_side-Scaled [] t = rw (total-pos []) (scale_side_nil t)
scale_side-Scaled (n ∷ ns) t = rw (total-pos (n ∷ ns)) (scale_side_cons t n ns)
