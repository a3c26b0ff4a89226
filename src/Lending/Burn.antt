-- ===== src/Lending/Burn.antt =====
-- The closed form of src/sui/lending/math.ts: the burn it answers and what that burn pays.
use lp_agent.Prelude.{
  below_or, ℕ, zero, suc, ◌+◌, ◌-◌, ◌*◌, ◌/◌, ◌≤◌, ◌<◌, ◌≡◌, ap, sym, inl, inr, ltb, arith,
  if◌then◌else◌, some,
}
use native.Mathlib.Nat.{
  mul-le-mul_left, mul-le-mul_right, mul-pos, le-div_iff_mul-le, le_of_mul-le-mul_right,
}
use lp_agent.Prelude.Division.{div_floor}
use lp_agent.Prelude.Int.{pos, sub_ℕ}
use lp_agent.Lending.{
  ok, fee_denominator, max_fee_rate, closed_form, divided, ceil_div, scallop_principal_portion,
}
use lp_agent.Lending.Fee.{fee_of, no_interest, net_of_fee, net_of_fee_upper}
use lp_agent.Lending.Target.{pays_at_least, pays_at_most, floors_le}

abbrev ceil : ℕ → ℕ → ℕ
ceil a b = (a + b - 1) / b

ceil_div-ok : (a b : ℕ) → 0 < b → ceil_div a b ≡ ok (ceil a b)
unfolding ceil_div
ceil_div-ok a b h = ground arith

divided_suc : (a t : ℕ) → 0 < t → divided a (pos t) ≡ ok (some (ceil a t))
unfolding divided
divided_suc a zero h = elim h [ ]
divided_suc a (suc t) h = ground (arith, ceil_div-ok a (suc t) h)

divided-ok : (a x y : ℕ) → y < x → divided a (sub_ℕ x y) ≡ ok (some (ceil a (x - y)))
divided-ok a x y h = ground (arith, divided_suc a (x - y) (omega arith))

le-ceil : (a b : ℕ) → 0 < b → a ≤ ceil a b * b
le-ceil a b h = omega (arith, div_floor (a + b - 1) b h)

lt-ceil : (a b m : ℕ) → 0 < b → m < ceil a b → m * b < a
lt-ceil a b m h lt = omega (arith, div_floor (a + b - 1) b h, mul-le-mul_right b lt)

portion_bounds :
    (P S n : ℕ)
    → 0 < S
    → n ≤ S
    → (scallop_principal_portion P S n * S ≤ n * P)
      × (n * P < (scallop_principal_portion P S n + 1) * S)
unfolding scallop_principal_portion
portion_bounds P S n h le = grind (arith, div_floor (P * n) S h)

module _ (d s S P r : ℕ) where
  abbrev pub net_at : ℕ → ℕ
  net_at n = (fee_of (n * d / s) (scallop_principal_portion P S n) r).to_balance

  -- (10,000 - r) d S + r s P
  abbrev term : ℕ
  term = fee_denominator * d * S + r * s * P - r * d * S

  abbrev pub answer : ℕ → ℕ
  answer K = if ltb (s * P) (d * S) then ceil (K * fee_denominator * s * S) term else ceil (K * s) d

  module _ (s_pos : 0 < s) (d_pos : 0 < d) (S_pos : 0 < S) (r_le : r ≤ max_fee_rate) where
    joined : fee_denominator - r + r ≡ fee_denominator
    joined = omega arith

    term_eq : term ≡ (fee_denominator - r) * d * S + r * s * P
    term_eq = omega (arith, ap (λ k. k * d * S) joined)

    weight_pos : 0 < (fee_denominator - r) * S
    weight_pos = mul-pos (omega arith) S_pos

    term_pos : 0 < term
    term_pos = omega (arith, term_eq, mul-pos weight_pos d_pos)

    pub closed_form-ok : (K : ℕ) → closed_form d s S P K r ≡ ok (some (answer K))
    unfolding closed_form
    closed_form-ok K = ground (
      arith,
      divided-ok (K * fee_denominator * s * S) (fee_denominator * d * S + r * s * P) (r * d * S)
          (omega (arith, term_pos)),
      ceil_div-ok (K * s) d d_pos,
    )

    -- The redeem's parts, for a burn within the vault.
    parts : (n : ℕ) → (n * d / s * s ≤ n * d) × (n * d < (n * d / s + 1) * s)
    parts n = div_floor (n * d) s s_pos

    abbrev portion : ℕ → ℕ
    portion = scallop_principal_portion P S

    profit : (n : ℕ) → n ≤ S → s * P < d * S → portion n ≤ n * d / s
    profit n le h =
        floors_le (portion n) S P (n * d / s) s d n S_pos (portion_bounds P S n S_pos le).0
          (parts n).1 (omega (arith, h))

    no_profit : (n : ℕ) → n ≤ S → d * S ≤ s * P → n * d / s ≤ portion n
    no_profit n le h =
        floors_le (n * d / s) s d (portion n) S P n s_pos (parts n).0
          (portion_bounds P S n S_pos le).1 h

    times : (x : ℕ) → (fee_denominator - r + r) * x ≡ fee_denominator * x
    times x = ap (λ k. k * x) joined

    wanted : (K : ℕ) → K * (fee_denominator - r + r) * s * S ≡ K * fee_denominator * s * S
    wanted K = ap (λ k. K * k * s * S) joined

    in_terms : (n : ℕ) → n * ((fee_denominator - r) * d * S + r * s * P) ≡ n * term
    in_terms n = ap (λ t. n * t) (sym term_eq)

    profit_pays :
        (K n : ℕ)
        → s * P < d * S
        → ceil (K * fee_denominator * s * S) term ≤ n
        → n ≤ S
        → K ≤ net_at n
    profit_pays K n h big le =
        pays_at_least (fee_denominator - r) r d s S P n (n * d / s) (portion n) K (net_at n)
          weight_pos (parts n).1 (portion_bounds P S n S_pos le).1
          (omega (
            arith,
            wanted K,
            in_terms n,
            le-ceil (K * fee_denominator * s * S) term term_pos,
            mul-le-mul_right term big,
          ))
          (omega (
            arith,
            times (net_at n),
            net_of_fee (n * d / s) (portion n) r r_le (profit n le h),
            joined,
            ap (λ k. k * (n * d / s)) joined,
          ))

    even_pays : (K n : ℕ) → d * S ≤ s * P → ceil (K * s) d ≤ n → n ≤ S → K ≤ net_at n
    even_pays K n h big le = omega (
      arith,
      no_interest (n * d / s) (portion n) r (no_profit n le h),
      (le-div_iff_mul-le {x = K} {y = n * d} s_pos).1
          (omega (arith, le-ceil (K * s) d d_pos, mul-le-mul_right d big)),
    )

    profit_tight :
        (K m : ℕ)
        → s * P < d * S
        → m < ceil (K * fee_denominator * s * S) term
        → m ≤ S
        → net_at m ≤ K
    profit_tight K m h small le =
        pays_at_most (fee_denominator - r) r d s S P m (m * d / s) (portion m) K (net_at m)
          (parts m).0 (portion_bounds P S m S_pos le).0
          (omega (
            arith,
            wanted K,
            in_terms m,
            lt-ceil (K * fee_denominator * s * S) term m term_pos small,
          ))
          (omega (
            arith,
            times (net_at m),
            net_of_fee_upper (m * d / s) (portion m) r r_le (profit m le h),
            joined,
            ap (λ k. k * (m * d / s)) joined,
          ))

    even_tight : (K m : ℕ) → d * S ≤ s * P → m < ceil (K * s) d → m ≤ S → net_at m ≤ K
    even_tight K m h small le = omega (
      arith,
      no_interest (m * d / s) (portion m) r (no_profit m le h),
      le_of_mul-le-mul_right {m = m * d / s} {n = K} {k = s}
          (omega (arith, lt-ceil (K * s) d m d_pos small, (parts m).0)) s_pos,
    )

    answer_profit : (K : ℕ) → s * P < d * S → answer K ≡ ceil (K * fee_denominator * s * S) term
    answer_profit K h = ground arith

    answer_even : (K : ℕ) → d * S ≤ s * P → answer K ≡ ceil (K * s) d
    answer_even K h = ground arith

    -- Every burn from the closed form's answer on pays the wanted amount.
    pub answer_pays : (K n : ℕ) → answer K ≤ n → n ≤ S → K ≤ net_at n
    answer_pays K n big le = elim (below_or (s * P) (d * S)) [
      | inl h ↦ profit_pays K n h (omega (arith, answer_profit K h, big)) le
      | inr h ↦ even_pays K n h (omega (arith, answer_even K h, big)) le
    ]

    -- A smaller one pays no more than it.
    pub less_is_tight : (K m : ℕ) → m < answer K → m ≤ S → net_at m ≤ K
    less_is_tight K m small le = elim (below_or (s * P) (d * S)) [
      | inl h ↦ profit_tight K m h (omega (arith, answer_profit K h, small)) le
      | inr h ↦ even_tight K m h (omega (arith, answer_even K h, small)) le
    ]

    pub answer_pos : (K : ℕ) → 0 < K → 0 < answer K
    answer_pos K h = elim (below_or 0 (answer K)) [
      | inl p ↦ p
      | inr p ↦ absurd (omega (arith, h, answer_pays K 0 p (omega arith), nothing))
    ]
      where
        nothing : net_at 0 ≤ 0
        nothing = omega (arith, (parts 0).0, s_pos, mul-le-mul_left (0 * d / s) s_pos)
