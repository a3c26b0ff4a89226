-- ===== src/Strategies/MultiBinSpot/Shares.antt =====
-- What `splitProportional` of src/strategies/multiBinSpot.ts gives out: amounts that are not
-- negative and sum up to no more than the total, for weights that are not negative.
use lp_agent.Prelude.{
  ℕ, zero, suc, ◌+◌, ◌-◌, ◌*◌, ◌/◌, ◌≤◌, ◌<◌, ◌≡◌, ◌≢◌, refl, inl, inr, true, false, Bool-cases,
  Option, none, some, List, [], ◌∷◌, map, length, arith, All,
}
use lp_agent.Prelude.Floats.{Floats}
use lp_agent.Prelude.Int.{
  ℤ, pos, negsuc, ◌+ℤ◌, ◌-ℤ◌, ◌*ℤ◌, ◌/ℤ◌, ltb_ℤ, eqb_ℤ, +ℤ_parts, -ℤ_parts, eq_of_parts,
}
use lp_agent.Decision.{total}
use lp_agent.Decision.Rescale.Side.{sum, total-pos, share, sum-share}
use lp_agent.Decision.DiffPlan.{sum_f}
use lp_agent.Decision.DiffPlan.Split.{even_split}
use lp_agent.Strategies.MultiBinSpot.Split.{
  parts_by, both, floor_weights, split_scaled, add_dust, any_positive, with_dust_on, split_floored,
  split_by_weight,
}

-- Amounts that are not negative, within a bound.
abbrev pub IsWithin : ℕ → List ℤ → Type 0
IsWithin t parts = (ns : List ℕ) × (parts ≡ map pos ns) × (sum ns ≤ t)

abbrev pub IsWithinSome : ℕ → Option (List ℤ) → Type 0
IsWithinSome t none = Unit
IsWithinSome t (some parts) = IsWithin t parts

pos_add : (a b : ℕ) → pos a +ℤ pos b ≡ pos (a + b)
pos_add a b = eq_of_parts _ _ (omega (arith, +ℤ_parts (pos a) (pos b)))

-- A difference that is not negative.
pos_sub : (a b : ℕ) → b ≤ a → pos a -ℤ pos b ≡ pos (a - b)
pos_sub a b h = eq_of_parts _ _ (omega (arith, h, -ℤ_parts (pos a) (pos b)))

parts_by-share :
    (t o : ℕ) (ns : List ℕ) → parts_by (pos t) (pos o) (map pos ns) ≡ map pos (map (share t o) ns)
unfolding parts_by share ◌*ℤ◌ ◌/ℤ◌
parts_by-share t o [] = refl
parts_by-share t o (n ∷ ns) = grind (arith, parts_by-share t o ns)

-- The whole of `t` in shares of `o`.
shares_within : (t : ℕ) (ns : List ℕ) → 0 < sum ns → sum (map (share t (sum ns)) ns) ≤ t
shares_within t ns h = grind (arith, sum-share t (sum ns) ns h)

even_split-IsWithin : (p l n : ℕ) → IsWithin (p * n + l) (even_split (pos p) (pos l) (suc n))
unfolding even_split
even_split-IsWithin p l zero = (l ∷ [], refl, omega arith)
even_split-IsWithin p l (suc n) =
    let (ns, e, h) = even_split-IsWithin p l n in (p ∷ ns, rw e refl, grind (arith, h))

pred_pos : (n : ℕ) → pos (suc n) -ℤ pos 1 ≡ pos n
pred_pos n = eq_of_parts _ _ (omega (arith, -ℤ_parts (pos (suc n)) (pos 1)))

pos_mul : (a b : ℕ) → pos a *ℤ pos b ≡ pos (a * b)
unfolding ◌*ℤ◌
pos_mul a b = ground arith

quotient_fits : (t n : ℕ) → t / suc n * n ≤ t
quotient_fits t n = grind arith

even-IsWithin :
    (t n : ℕ)
    → IsWithin t (
        even_split
          (pos t /ℤ pos (suc n))
          (pos t -ℤ (pos t /ℤ pos (suc n)) *ℤ (pos (suc n) -ℤ pos 1))
          (suc n))
unfolding ◌/ℤ◌
even-IsWithin t n =
    let h = quotient_fits t n in
    let (ns, e, l) = even_split-IsWithin (t / suc n) (t - t / suc n * n) n in
    (ns, rw (pred_pos n, pos_mul (t / suc n) n, pos_sub t (t / suc n * n) h) e, omega (arith, l, h))

zeros-IsWithin : {A : Type 0} (t : ℕ) (ws : List A) → IsWithin t (map (λ _. pos 0) ws)
zeros-IsWithin t [] = ([], refl, omega arith)
zeros-IsWithin t (w ∷ ws) =
    let (ns, e, h) = zeros-IsWithin t ws in (0 ∷ ns, rw e refl, omega (arith, h))

-- How the signs of JavaScript's numbers behave; "not negative" includes NaN, as a comparison with it
-- is false.
pub record SignLaws {F : Type 0} (num : Floats F) : Type 0 where
  pub literal : (m k : ℕ) → num.gt (num.decimal 0 0) (num.decimal m k) ≡ false
  pub natural : (n : ℕ) → num.gt (num.decimal 0 0) (num.of_int (pos n)) ≡ false
  pub counting : (n : ℕ) → num.ge (num.decimal 0 0) (num.of_int (pos (suc n))) ≡ false
  pub positive : (x : F) → num.gt x (num.decimal 0 0) ≡ true → num.gt (num.decimal 0 0) x ≡ false
  pub product :
      (x y : F)
      → num.gt (num.decimal 0 0) x ≡ false
      → num.gt (num.decimal 0 0) y ≡ false
      → num.gt (num.decimal 0 0) (num.mul x y) ≡ false
  pub quotient :
      (x y : F)
      → num.gt (num.decimal 0 0) x ≡ false
      → num.ge (num.decimal 0 0) y ≡ false
      → num.gt (num.decimal 0 0) (num.div x y) ≡ false
  pub at_least_one : (x : F) → num.ge (num.decimal 0 0) (num.max x (num.decimal 1 0)) ≡ false
  pub rounded_down :
      (x : F) → num.gt (num.decimal 0 0) x ≡ false → num.gt (num.decimal 0 0) (num.floor x) ≡ false
  pub integral :
      (x : F) (n : ℕ) → num.gt (num.decimal 0 0) x ≡ false → num.to_bigint x ≢ some (negsuc n)

-- Natural numbers, where there are any.
abbrev IsNats : Option (List ℤ) → Type 0
IsNats none = Unit
IsNats (some zs) = (ns : List ℕ) × (zs ≡ map pos ns)

both-IsNats :
    (z : Option ℤ) (rest : Option (List ℤ))
    → ((n : ℕ) → z ≢ some (negsuc n))
    → IsNats rest
    → IsNats (both z rest)
both-IsNats none rest h k = tt
both-IsNats (some z) none h k = tt
both-IsNats (some (negsuc n)) (some zs) h k = absurd (h n refl)
both-IsNats (some (pos n)) (some zs) h (ns, e) = (n ∷ ns, rw e refl)

module _ {F : Type 0} (num : Floats F) where
  add_dust-pos :
      (d : ℕ) (ws : List F) (ns : List ℕ)
      → (ms : List ℕ) × (add_dust num (pos d) ws (map pos ns) ≡ map pos ms) × (sum ms ≤ sum ns + d)
  unfolding add_dust
  add_dust-pos d [] ns = (ns, refl, omega arith)
  add_dust-pos d (w ∷ ws) [] = ([], refl, omega arith)
  add_dust-pos d (w ∷ ws) (n ∷ ns) = elim (Bool-cases (any_positive num ws)) [
    | inl e ↦ let (ms, f, h) = add_dust-pos d ws ns in (n ∷ ms, rw (e, f) refl, omega (arith, h))
    | inr e ↦ elim (Bool-cases (num.gt w (num.decimal 0 0))) [
      | inl f ↦ ((n + d) ∷ ns, rw (e, f, pos_add n d) refl, omega arith)
      | inr f ↦ (n ∷ ns, rw (e, f) refl, omega arith)
    ]
  ]

  with_dust-IsWithin :
      (t : ℕ) (ws : List F) (ns : List ℕ)
      → sum ns ≤ t
      → IsWithin t (with_dust_on num (pos t) ws (map pos ns))
  with_dust-IsWithin t ws ns h =
      let (ms, e, l) = add_dust-pos (t - sum ns) ws ns in
      elim (Bool-cases (ltb_ℤ (total (map pos ns)) (pos t))) [
        | inl f ↦ rw f (ms, rw (total-pos ns, pos_sub t (sum ns) h) e, omega (arith, l, h))
        | inr f ↦ rw f (ns, refl, h)
      ]

  split_floored-IsWithin :
      (t : ℕ) (ws : List F) (ns : List ℕ)
      → IsWithinSome t (split_floored num (pos t) ws (map pos ns))
  split_floored-IsWithin t ws ns = elim (Bool-cases (eqb_ℤ (total (map pos ns)) (pos 0))) [
    | inl e ↦ rw e tt
    | inr e ↦
        let h : 0 < sum ns = ground (arith, rw (total-pos ns) at e) in
        rw e (
          rw (total-pos ns, parts_by-share t (sum ns) ns)
            (with_dust-IsWithin t ws (map (share t (sum ns)) ns) (shares_within t ns h)))
  ]

  -- Not negative, or NaN.
  abbrev pub IsUnsigned : F → Type 0
  IsUnsigned x = num.gt (num.decimal 0 0) x ≡ false

  module _ (laws : SignLaws num) where
    floor_weights-IsNats :
        (sum : F) (ws : List F)
        → num.ge (num.decimal 0 0) sum ≡ false
        → All IsUnsigned ws
        → IsNats (floor_weights num sum ws)
    unfolding floor_weights
    floor_weights-IsNats sum [] h k = ([], refl)
    floor_weights-IsNats sum (w ∷ ws) h (k, ks) =
        both-IsNats _ _
          (λ n. laws.integral _ n (
            laws.rounded_down _
              (laws.product _ _ (laws.quotient w sum k h) (laws.natural 1_000_000_000))))
          (floor_weights-IsNats sum ws h ks)

    floored-IsWithin :
        (t : ℕ) (ws : List F) (r : Option (List ℤ))
        → IsNats r
        → IsWithinSome t (split_scaled num (pos t) ws r)
    floored-IsWithin t ws none k = tt
    floored-IsWithin t ws (some zs) (ns, e) = rw e (split_floored-IsWithin t ws ns)

    pub split-IsWithin :
        (t : ℕ) (ws : List F) → All IsUnsigned ws → IsWithinSome t (split_by_weight num (pos t) ws)
    unfolding split_by_weight
    split-IsWithin t [] k = ([], refl, omega arith)
    split-IsWithin t (w ∷ ws) k = elim (Bool-cases (eqb_ℤ (pos t) (pos 0))) [
      | inl e ↦ rw e (zeros-IsWithin t (w ∷ ws))
      | inr e ↦ elim (Bool-cases (num.ge (num.decimal 0 0) (sum_f num (w ∷ ws)))) [
        | inl f ↦ rw (e, f) (even-IsWithin t (length ws))
        | inr f ↦
            rw (e, f)
              (floored-IsWithin t (w ∷ ws) (floor_weights num (sum_f num (w ∷ ws)) (w ∷ ws))
                (floor_weights-IsNats (sum_f num (w ∷ ws)) (w ∷ ws) f k))
      ]
    ]
