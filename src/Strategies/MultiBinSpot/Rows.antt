-- ===== src/Strategies/MultiBinSpot/Rows.antt =====
-- The three arrays of a plan of multiBinSpot, src/strategies/multiBinSpot.ts, as a list of rows.
use lp_agent.Prelude.{◌&&◌, List, [], ◌∷◌, if◌then◌else◌}
use lp_agent.Prelude.Int.{ℤ, pos, ltb_ℤ, eqb_ℤ}
use lp_agent.Decision.DiffPlan.Build.{Row}

-- The weights of the bins above, and below, the active one.
unfoldable pub weights_above : {F : Type 0} → ℤ → List (ℤ × F) → List F
weights_above active [] = []
weights_above active ((k, w) ∷ entries) =
    let rest = weights_above active entries in if ltb_ℤ active k then w ∷ rest else rest

unfoldable pub weights_below : {F : Type 0} → ℤ → List (ℤ × F) → List F
weights_below active [] = []
weights_below active ((k, w) ∷ entries) =
    let rest = weights_below active entries in
    if ltb_ℤ active k then rest else if ltb_ℤ k active then w ∷ rest else rest

-- `amounts[j] ?? 0n`, for the next `j`.
abbrev pub next : List ℤ → ℤ
next [] = pos 0
next (v ∷ vs) = v

abbrev pub after : List ℤ → List ℤ
after [] = []
after (v ∷ vs) = vs

-- The amounts of the two sides, in the order of the bins.
unfoldable pub placed_amounts : {F : Type 0} → ℤ → List (ℤ × F) → List ℤ → List ℤ → List Row
placed_amounts active [] above below = []
placed_amounts active ((k, w) ∷ entries) above below =
    let up = ltb_ℤ active k in
    let down = ltb_ℤ k active in
    let rest =
      placed_amounts active entries (if up then after above else above)
        (if up then below else if down then after below else below) in
    (k, if up then next above else pos 0, if up then pos 0 else if down then next below else pos 0)
    ∷ rest

-- The bins that get something.
unfoldable pub kept_bins : List Row → List Row
kept_bins [] = []
kept_bins ((k, a, b) ∷ rows) =
    let rest = kept_bins rows in
    if eqb_ℤ a (pos 0) && eqb_ℤ b (pos 0) then rest else (k, a, b) ∷ rest
