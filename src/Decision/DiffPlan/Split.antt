-- ===== src/Decision/DiffPlan/Split.antt =====
-- `splitProportional` of src/decision/diffPlanner.ts.
use lp_agent.Prelude.{ℕ, zero, suc, Option, none, some, List, [], ◌∷◌, map, length, if◌then◌else◌}
use lp_agent.Prelude.Floats.{Floats}
use lp_agent.Prelude.Int.{ℤ, pos, ◌-ℤ◌, ◌*ℤ◌, ◌/ℤ◌, ltb_ℤ, eqb_ℤ}
use lp_agent.Decision.{total}
use lp_agent.Decision.Rescale.{add_at}
use lp_agent.Decision.DiffPlan.{whole, sum_f}

-- The amounts before the last one, and the last one.
unfoldable pub even_split : ℤ → ℤ → ℕ → List ℤ
even_split per last zero = []
even_split per last (suc zero) = last ∷ []
even_split per last (suc (suc n)) = per ∷ even_split per last (suc n)

unfoldable pub parts_of : ℤ → ℤ → List ℤ → List ℤ
parts_of amount scaled_sum [] = []
parts_of amount scaled_sum (s ∷ ss) =
    (if ltb_ℤ (pos 0) scaled_sum then amount *ℤ s /ℤ scaled_sum else pos 0)
    ∷ parts_of amount scaled_sum ss

module _ {F : Type 0} (num : Floats F) where
  -- `BigInt(Math.round((w / sum) * Number(SCALE)))` for each weight, which may throw.
  unfoldable pub scale_weights : F → List F → Option (List ℤ)
  scale_weights sum [] = some []
  scale_weights sum (w ∷ ws) =
      both (num.to_bigint (num.round (num.mul (num.div w sum) (whole num 1_000_000_000))))
        (scale_weights sum ws)
    where
      both : Option ℤ → Option (List ℤ) → Option (List ℤ)
      both (some z) (some zs) = some (z ∷ zs)
      both _ _ = none

  -- The index of the first largest weight: `best` at `mi`, the next at `i`.
  unfoldable pub max_weight_from : ℕ → F → ℕ → List F → ℕ
  max_weight_from mi best i [] = mi
  max_weight_from mi best i (w ∷ ws) =
      let larger = num.gt w best in
      max_weight_from (if larger then i else mi) (if larger then w else best) (suc i) ws

  abbrev pub split_scaled : ℤ → F → List F → List ℤ → List ℤ
  split_scaled amount w ws scaled =
      let parts = parts_of amount (total scaled) scaled in
      if ltb_ℤ (total parts) amount
      then add_at (max_weight_from 0 w 1 ws) (amount -ℤ total parts) parts
      else parts

  -- Nothing where it throws.
  unfoldable pub split_proportional : ℤ → List F → Option (List ℤ)
  split_proportional amount [] = some []
  split_proportional amount (w ∷ ws) =
      if eqb_ℤ amount (pos 0)
      then some (map (λ _. pos 0) (w ∷ ws))
      else if num.ge (whole num 0) (sum_f num (w ∷ ws))
      then (let n = pos (length (w ∷ ws)) in
          let per = amount /ℤ n in
          some (even_split per (amount -ℤ per *ℤ (n -ℤ pos 1)) (length (w ∷ ws))))
      else elim (scale_weights (sum_f num (w ∷ ws)) (w ∷ ws)) [
        | none ↦ none
        | some scaled ↦ some (split_scaled amount w ws scaled)
      ]
