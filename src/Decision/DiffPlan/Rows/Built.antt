-- ===== src/Decision/DiffPlan/Rows/Built.antt =====
-- The rows that `diffPlan`, src/decision/diffPlanner.ts, builds are on their sides of the active bin
-- and hold no more than is available.
use lp_agent.Prelude.{
  ℕ, ◌+◌, ◌≤◌, ◌≡◌, refl, subst, Bool, true, false, not, ◌||◌, Option, none, some, List, [], ◌∷◌,
  ◌++◌, map, length, length-append, All, ◌===◌, arith, if◌then◌else◌,
}
use lp_agent.Prelude.Floats.{Floats}
use lp_agent.Prelude.Int.{ℤ, pos, ◌<ℤ◌}
use lp_agent.State.{◌>>=◌}
use lp_agent.Decision.Rescale.Side.{sum}
use lp_agent.Decision.Inventory.{
  InventoryAdjustment, apply_inventory_scales, adjust_all, adjust_a, adjust_b, scaled_by,
  clamp_amounts,
}
use lp_agent.Decision.Inventory.Clamp.{clamp_amounts-Clamped}
use lp_agent.Decision.DiffPlan.{DiffPlanInput, bins_of, weights_of}
use lp_agent.Decision.DiffPlan.Split.{split_proportional}
use lp_agent.Decision.DiffPlan.Build.{Row, rows_of, kept_rows, available_a, available_b}
use lp_agent.Decision.DiffPlan.Rows.{
  zeros, above, below, side_weights, is_strong_trend, adjustment_of, build_rows,
}
use lp_agent.Decision.DiffPlan.Rows.Placed.{
  IsSided, Sided, ups-Sided, downs-Sided, above-All, below-All,
}
use lp_agent.Decision.DiffPlan.Rows.Kept.{Fit, more-Fit, kept_rows-Fit}

sided-length :
    (active : ℤ) (ks : List ℤ) (ns ms : List ℕ)
    → IsSided active ks ns ms
    → (length ns ≡ length ks) × (length ms ≡ length ks)
sided-length active [] [] [] s = (refl, refl)
sided-length active [] [] (m ∷ ms) s = absurd s
sided-length active [] (n ∷ ns) ms s = absurd s
sided-length active (k ∷ ks) [] ms s = absurd s
sided-length active (k ∷ ks) (n ∷ ns) [] s = absurd s
sided-length active (k ∷ ks) (n ∷ ns) (m ∷ ms) s =
    let (e, f) = sided-length active ks ns ms s.1 in (omega (arith, e), omega (arith, f))

length-map : {A B : Type 0} (f : A → B) (xs : List A) → length (map f xs) ≡ length xs
length-map f [] = refl
length-map f (x ∷ xs) = omega (arith, length-map f xs)

-- Amounts on their sides, clamped and filtered, are on their sides within what is available.
clamped-Fit :
    (active : ℤ) (ks xs ys : List ℤ) (a b : ℕ)
    → length ks ≤ 99
    → Sided active ks xs ys
    → Fit active (kept_rows (rows_of ks (clamp_amounts xs (pos a)) (clamp_amounts ys (pos b)))) a b
clamped-Fit active ks xs ys a b le (ns, ms, ex, ey, s) =
    let (l, l') = sided-length active ks ns ms s in
    let (ns', en, d, la) = clamp_amounts-Clamped a 99 ns (omega (arith, l, le)) in
    let (ms', em, d', lb) = clamp_amounts-Clamped b 99 ms (omega (arith, l', le)) in
    rw (ex, ey)
      (rw (en, em)
        (more-Fit active _ (sum ns') (sum ms') a b la lb
          (kept_rows-Fit active 99 ks ns ms ns' ms' (omega arith) s d d')))

pub same_some : {A : Type 0} {x y : A} → some x ≡ some y → x ≡ y
same_some e = cc

clamped_to-Fit :
    (active : ℤ) (ks xs ys : List ℤ) (za zb : ℤ) (a b : ℕ) (rows : List Row)
    → za ≡ pos a
    → zb ≡ pos b
    → length ks ≤ 99
    → Sided active ks xs ys
    → some (kept_rows (rows_of ks (clamp_amounts xs za) (clamp_amounts ys zb))) ≡ some rows
    → Fit active rows a b
clamped_to-Fit active ks xs ys za zb a b rows ea eb le s e =
    subst (λ (z : List Row). Fit active z a b) (same_some e)
      (rw (ea, eb) (clamped-Fit active ks xs ys a b le s))

pub if_none :
    {A : Type 0} (c : Bool) (x : Option A) (v : A)
    → (if c then none else x) ≡ some v
    → (c ≡ false) × (x ≡ some v)
if_none true x v e = absurd cc
if_none false x v e = (refl, e)

scaled_by-some :
    (active : ℤ) (bins xs ys as' bs' : List ℤ) (bid ask : Option ℤ)
    → scaled_by active bins xs ys bid ask ≡ some (as', bs')
    → (i j : ℤ) × (as' ≡ adjust_all (adjust_a active i) bins xs)
      × (bs' ≡ adjust_all (adjust_b active j) bins ys)
scaled_by-some active bins xs ys as' bs' none ask e = absurd cc
scaled_by-some active bins xs ys as' bs' (some i) none e = absurd cc
scaled_by-some active bins xs ys as' bs' (some i) (some j) e = (i, j, cc, cc)

pub bound :
    {A B : Type 0} (m : Option A) (f : A → Option B) (v : B)
    → (m >>= f) ≡ some v
    → (x : A) × (m ≡ some x) × (f x ≡ some v)
bound none f v e = absurd cc
bound (some x) f v e = (x, refl, e)

same_lengths : (n m k : ℕ) → not (n === m) || not (n === k) ≡ false → (n ≡ m) × (n ≡ k)
same_lengths n m k e = (ground (arith, e), ground (arith, e))

module _ {F : Type 0} (num : Floats F) where
  scales-ok :
      (bins xs ys as' bs' : List ℤ) (active : ℤ) (adj : InventoryAdjustment F)
      → apply_inventory_scales num bins xs ys active adj ≡ some (as', bs')
      → (length bins ≡ length xs)
        × (length bins ≡ length ys)
        × ((bid ask : ℤ) × (as' ≡ adjust_all (adjust_a active bid) bins xs)
            × (bs' ≡ adjust_all (adjust_b active ask) bins ys))
  unfolding apply_inventory_scales
  scales-ok bins xs ys as' bs' active adj e =
      let (c, s) = if_none _ _ (as', bs') e in
      let (l, l') = same_lengths (length bins) (length xs) (length ys) c in
      (l, l', scaled_by-some active bins xs ys as' bs' _ _ s)

  module _ (active : ℤ) (ups downs : List (ℤ × F)) where
    abbrev bins : List ℤ
    bins = bins_of num ups ++ bins_of num downs

    scaled-Sided :
        (xs ys as' bs' : List ℤ) (adj : InventoryAdjustment F)
        → All (λ e. active <ℤ e.0) ups
        → All (λ e. e.0 <ℤ active) downs
        → apply_inventory_scales num bins (xs ++ zeros downs) (zeros ups ++ ys) active adj
          ≡ some (as', bs')
        → Sided active bins as' bs'
    scaled-Sided xs ys as' bs' adj hu hd e =
        let (l, l', (bid, ask, ea, eb)) =
          scales-ok bins (xs ++ zeros downs) (zeros ups ++ ys) as' bs' active adj e in
        let lb = length-append (bins_of num ups) (bins_of num downs) in
        let lx = length-append xs (zeros downs) in
        let ly = length-append (zeros ups) ys in
        let mu = length-map (λ (e : ℤ × F). e.0) ups in
        let md = length-map (λ (e : ℤ × F). e.0) downs in
        let zu = length-map (λ (e : ℤ × F). pos 0) ups in
        let zd = length-map (λ (e : ℤ × F). pos 0) downs in
        rw (ea, eb)
          (ups-Sided num active bid ask ups xs (bins_of num downs) (zeros downs) ys hu
            (omega (arith, l, lb, lx, mu, md, zd))
            (downs-Sided num active bid ask downs ys hd (omega (arith, l', lb, ly, mu, md, zu))))

  sides-length :
      (active : ℤ) (es : List (ℤ × F))
      → length (above num active es) + length (below num active es) ≤ length es
  unfolding above below
  sides-length active [] = omega arith
  sides-length active ((k, w) ∷ es) = ground (arith, sides-length active es)

  pub build_rows-Fit :
      (input : DiffPlanInput F) (final : List (ℤ × F)) (a b : ℕ) (rows : List Row)
      → available_a input.pm (is_strong_trend num input.ctx) ≡ pos a
      → available_b input.pm (is_strong_trend num input.ctx) ≡ pos b
      → length final ≤ 99
      → build_rows num input final ≡ some rows
      → Fit input.active_bin_id rows a b
  unfolding build_rows
  build_rows-Fit input final a b rows ea eb le e =
      let active = input.active_bin_id in
      let ups = above num active final in
      let downs = below num active final in
      let (xs, ex, e1) =
        bound
          (split_proportional num (available_a input.pm (is_strong_trend num input.ctx))
            (side_weights num (weights_of num ups)))
          _ rows e in
      let (ys, ey, e2) =
        bound
          (split_proportional num (available_b input.pm (is_strong_trend num input.ctx))
            (side_weights num (weights_of num downs)))
          _ rows e1 in
      let ((as', bs'), es, e3) =
        bound
          (apply_inventory_scales num (bins active ups downs) (xs ++ zeros downs) (zeros ups ++ ys)
            active (adjustment_of num input))
          _ rows e2 in
      let mu = length-map (λ (e : ℤ × F). e.0) ups in
      let md = length-map (λ (e : ℤ × F). e.0) downs in
      clamped_to-Fit active (bins active ups downs) as' bs' _ _ a b rows ea eb
        (omega (
          arith,
          le,
          sides-length active final,
          mu,
          md,
          length-append (bins_of num ups) (bins_of num downs),
        ))
        (scaled-Sided active ups downs xs ys as' bs' (adjustment_of num input)
          (above-All num active final) (below-All num active final) es)
        e3
