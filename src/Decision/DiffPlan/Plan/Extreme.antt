-- ===== src/Decision/DiffPlan/Plan/Extreme.antt =====
-- In EXTREME `diffPlan`, src/decision/diffPlanner.ts, takes everything out of the position.
use lp_agent.Prelude.{
  ◌≡◌, refl, sym, not, ◌&&◌, none, ap, ◌∙◌, inl, inr, Bool, true, false, Bool-cases, ◌||◌, some,
  List, [], ◌∷◌, ◌++◌, map, arith, if◌then◌else◌,
}
use mathlib.Core.List.{append_assoc}
use lp_agent.Prelude.Floats.{Floats}
use lp_agent.Prelude.Int.{ℤ, eqb_ℤ}
use lp_agent.State.{extreme}
use lp_agent.Decision.{RebalancePlan, emergency}
use lp_agent.Decision.DiffPlan.{PositionBin, PmState, DiffPlanInput}
use lp_agent.Decision.DiffPlan.Build.{
  is_pos, non_empty, has_fees, includes, set_entry, shares_from, all_shares, withdrawal,
  build_extreme_withdraw_plan,
}
use lp_agent.Decision.DiffPlan.Plan.{diff_plan}

abbrev pub ids : List PositionBin → List ℤ
ids bins = map (λ b. b.bin_id) bins

-- No bin is listed twice.
abbrev pub IsDistinct : List ℤ → Type 0
IsDistinct [] = Unit
IsDistinct (k ∷ ks) = (includes k ks ≡ false) × IsDistinct ks

-- The shares of the bins that hold any, in order.
abbrev pub held_shares : List PositionBin → List (ℤ × ℤ)
held_shares [] = []
held_shares (b ∷ bs) =
    if is_pos b.liquidity_share
    then (b.bin_id, b.liquidity_share) ∷ held_shares bs
    else held_shares bs

abbrev keys : List (ℤ × ℤ) → List ℤ
keys entries = map (λ e. e.0) entries

-- None of the bins has an entry.
abbrev IsApart : List ℤ → List (ℤ × ℤ) → Type 0
IsApart [] entries = Unit
IsApart (k ∷ ks) entries = (includes k (keys entries) ≡ false) × IsApart ks entries

set_entry-new :
    (k v : ℤ) (entries : List (ℤ × ℤ))
    → includes k (keys entries) ≡ false
    → set_entry k v entries ≡ entries ++ (k, v) ∷ []
unfolding set_entry includes
set_entry-new k v [] h = refl
set_entry-new k v ((j, w) ∷ entries) h = elim (Bool-cases (eqb_ℤ j k)) [
  | inl e ↦ absurd (ground (arith, e, h))
  | inr e ↦ rw e (ap (λ z. (j, w) ∷ z) (set_entry-new k v entries (ground (arith, e, h))))
]

includes-last :
    (k j v : ℤ) (entries : List (ℤ × ℤ))
    → includes k (keys entries) ≡ false
    → eqb_ℤ j k ≡ false
    → includes k (keys (entries ++ (j, v) ∷ [])) ≡ false
unfolding includes
includes-last k j v [] h e = ground (arith, h, e)
includes-last k j v ((i, w) ∷ entries) h e = ground (arith, h, e, includes-last k j v entries)

swapped : (k j : ℤ) → eqb_ℤ k j ≡ false → eqb_ℤ j k ≡ false
swapped k j h = ground (arith, h)

IsApart-last :
    (j v : ℤ) (ks : List ℤ) (entries : List (ℤ × ℤ))
    → includes j ks ≡ false
    → IsApart ks entries
    → IsApart ks (entries ++ (j, v) ∷ [])
unfolding includes
IsApart-last j v [] entries h a = tt
IsApart-last j v (k ∷ ks) entries h a = (
  includes-last k j v entries a.0 (swapped k j (ground (arith, h))),
  IsApart-last j v ks entries (ground (arith, h)) a.1,
)

append_none : (xs : List (ℤ × ℤ)) → xs ++ [] ≡ xs
append_none [] = refl
append_none (x ∷ xs) = ap (λ z. x ∷ z) (append_none xs)

shares_from-held :
    (acc : List (ℤ × ℤ)) (bs : List PositionBin)
    → IsDistinct (ids bs)
    → IsApart (ids bs) acc
    → shares_from acc bs ≡ acc ++ held_shares bs
unfolding shares_from
shares_from-held acc [] d a = sym (append_none acc)
shares_from-held acc (b ∷ bs) d a = elim (Bool-cases (is_pos b.liquidity_share)) [
  | inl e ↦
      rw (e, set_entry-new b.bin_id b.liquidity_share acc a.0)
        (shares_from-held (acc ++ (b.bin_id, b.liquidity_share) ∷ []) bs d.1
            (IsApart-last b.bin_id b.liquidity_share (ids bs) acc d.0 a.1)
          ∙ append_assoc acc ((b.bin_id, b.liquidity_share) ∷ []) (held_shares bs))
  | inr e ↦ rw e (shares_from-held acc bs d.1 a.1)
]

none-IsApart : (ks : List ℤ) → IsApart ks []
unfolding includes
none-IsApart [] = tt
none-IsApart (k ∷ ks) = (refl, none-IsApart ks)

-- Where no bin is listed twice, the map of the shares has each bin that holds any, in order.
pub all_shares-held :
    (pm : PmState)
    → IsDistinct (ids pm.position_bins)
    → all_shares pm ≡ held_shares pm.position_bins
all_shares-held pm d = shares_from-held [] pm.position_bins d (none-IsApart (ids pm.position_bins))

-- The two guards of the withdrawal let it pass.
passes_guards :
    {A : Type 0} (balance position fees : Bool) (v : A)
    → position || fees ≡ true
    → (if not balance && not position && not fees
        then some none
        else some (if not position && not fees then none else some v))
      ≡ some (some v)
passes_guards balance true fees v h = ground arith
passes_guards balance false true v h = ground arith
passes_guards balance false false v h = absurd cc

module _ {F : Type 0} (num : Floats F) where
  -- In EXTREME, a PM with bins, none of them listed twice, or with fees gets a plan that removes the
  -- whole share of every bin that has one, collects the fees if there are any, adds nothing and is
  -- marked as an emergency.
  pub extreme_withdraws_all :
      (input : DiffPlanInput F)
      → input.ctx.state ≡ extreme
      → non_empty input.pm.position_bins || has_fees input.pm ≡ true
      → IsDistinct (ids input.pm.position_bins)
      → (plan : RebalancePlan) × (diff_plan num input ≡ some (some plan))
        × (plan.remove_shares ≡ held_shares input.pm.position_bins)
        × (plan.collect_fees ≡ has_fees input.pm)
        × (plan.add_bins ≡ [])
        × (plan.priority ≡ some emergency)
  unfolding diff_plan build_extreme_withdraw_plan
  extreme_withdraws_all input e h d = (
    withdrawal input.pm "EXTREME: full withdrawal",
    rw e (passes_guards _ (non_empty input.pm.position_bins) (has_fees input.pm) _ h),
    all_shares-held input.pm d,
    refl,
    refl,
    refl,
  )
