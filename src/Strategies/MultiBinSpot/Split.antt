-- ===== src/Strategies/MultiBinSpot/Split.antt =====
-- `splitProportional` of src/strategies/multiBinSpot.ts, which rounds down and gives the dust to the
-- last bin that has a weight. Nothing where it throws.
use lp_agent.Prelude.{
  Bool, false, ◌||◌, Option, none, some, List, [], ◌∷◌, map, length, if◌then◌else◌,
}
use lp_agent.Prelude.Floats.{Floats}
use lp_agent.Prelude.Int.{ℤ, pos, ◌+ℤ◌, ◌-ℤ◌, ◌*ℤ◌, ◌/ℤ◌, ltb_ℤ, eqb_ℤ}
use lp_agent.Decision.{total}
use lp_agent.Decision.DiffPlan.{sum_f}
use lp_agent.Decision.DiffPlan.Split.{even_split}

unfoldable pub parts_by : ℤ → ℤ → List ℤ → List ℤ
parts_by amount scaled_sum [] = []
parts_by amount scaled_sum (s ∷ ss) = (amount *ℤ s /ℤ scaled_sum) ∷ parts_by amount scaled_sum ss

-- `BigInt(Math.floor(x))` that may throw, in front of a list.
abbrev pub both : Option ℤ → Option (List ℤ) → Option (List ℤ)
both (some z) (some zs) = some (z ∷ zs)
both (some z) none = none
both none rest = none

module _ {F : Type 0} (num : Floats F) where
  unfoldable pub floor_weights : F → List F → Option (List ℤ)
  floor_weights sum [] = some []
  floor_weights sum (w ∷ ws) =
      both (num.to_bigint (num.floor (num.mul (num.div w sum) (num.of_int (pos 1_000_000_000)))))
        (floor_weights sum ws)

  unfoldable pub any_positive : List F → Bool
  any_positive [] = false
  any_positive (w ∷ ws) = num.gt w (num.decimal 0 0) || any_positive ws

  -- The dust goes to the last part whose weight is positive.
  unfoldable pub add_dust : ℤ → List F → List ℤ → List ℤ
  add_dust dust (w ∷ ws) (p ∷ ps) =
      let rest = add_dust dust ws ps in
      if any_positive ws
      then p ∷ rest
      else if num.gt w (num.decimal 0 0)
      then (p +ℤ dust) ∷ ps
      else p ∷ ps
  add_dust dust _ ps = ps

  abbrev pub with_dust_on : ℤ → List F → List ℤ → List ℤ
  with_dust_on amount ws parts =
      if ltb_ℤ (total parts) amount then add_dust (amount -ℤ total parts) ws parts else parts

  abbrev pub split_floored : ℤ → List F → List ℤ → Option (List ℤ)
  split_floored amount ws scaled =
      if eqb_ℤ (total scaled) (pos 0)
      then none
      else some (with_dust_on amount ws (parts_by amount (total scaled) scaled))

  abbrev pub split_scaled : ℤ → List F → Option (List ℤ) → Option (List ℤ)
  split_scaled amount ws none = none
  split_scaled amount ws (some scaled) = split_floored amount ws scaled

  unfoldable pub split_by_weight : ℤ → List F → Option (List ℤ)
  split_by_weight amount [] = some []
  split_by_weight amount (w ∷ ws) =
      if eqb_ℤ amount (pos 0)
      then some (map (λ _. pos 0) (w ∷ ws))
      else if num.ge (num.decimal 0 0) (sum_f num (w ∷ ws))
      then (let n = pos (length (w ∷ ws)) in
          let per = amount /ℤ n in
          some (even_split per (amount -ℤ per *ℤ (n -ℤ pos 1)) (length (w ∷ ws))))
      else split_scaled amount (w ∷ ws) (floor_weights (sum_f num (w ∷ ws)) (w ∷ ws))
