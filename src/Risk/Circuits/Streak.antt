-- ===== src/Risk/Circuits/Streak.antt =====
-- `checkSpreadSustained` of src/risk/circuits.ts against its description: the spread has been above the
-- threshold in an unbroken run of the newest points that began long enough ago.
use lp_agent.Prelude.{
  ℕ, ◌+◌, ◌≤◌, ◌≡◌, ◌↔◌, ◌⊎◌, refl, inl, inr, Bool, true, not, Bool-cases, List, [], ◌∷◌, leb, All,
  arith,
}
use lp_agent.Prelude.Floats.{Floats}
use lp_agent.Risk.Circuits.{
  SpreadPoint, keep_if, sort_by_ts, insert_by_ts, from_newest, onto, streak_back, up_to_now,
  find_streak_start, sustained_in, check_spread_sustained,
}

module _ {F : Type 0} where
  -- Each point is at least as new as those behind it, or as old.
  abbrev pub IsFalling : List (SpreadPoint F) → Type 0
  IsFalling [] = Unit
  IsFalling (p ∷ ps) = All (λ q. q.ts ≤ p.ts) ps × IsFalling ps

  abbrev IsRising : List (SpreadPoint F) → Type 0
  IsRising [] = Unit
  IsRising (p ∷ ps) = All (λ q. p.ts ≤ q.ts) ps × IsRising ps

  abbrev by_ts : SpreadPoint F → ℕ
  by_ts p = p.ts

  -- ---- the sorted points

  module _ (P : SpreadPoint F → Type 0) where
    insert-All :
        (p : SpreadPoint F) (ps : List (SpreadPoint F))
        → P p
        → All P ps
        → All P (insert_by_ts by_ts p ps)
    unfolding insert_by_ts
    insert-All p [] h a = (h, tt)
    insert-All p (q ∷ ps) h a = elim (Bool-cases (leb p.ts q.ts)) [
      | inl e ↦ rw e (h, a)
      | inr e ↦ rw e (a.0, insert-All p ps h a.1)
    ]

    sort-All : (ps : List (SpreadPoint F)) → All P ps → All P (sort_by_ts by_ts ps)
    unfolding sort_by_ts
    sort-All [] a = tt
    sort-All (p ∷ ps) a = insert-All p (sort_by_ts by_ts ps) a.0 (sort-All ps a.1)

    onto-All : (out ps : List (SpreadPoint F)) → All P out → All P ps → All P (onto out ps)
    unfolding onto
    onto-All out [] a b = a
    onto-All out (p ∷ ps) a b = onto-All (p ∷ out) ps (b.0, a) b.1

    keep-All :
        (test : SpreadPoint F → Bool) (ps : List (SpreadPoint F))
        → All P ps
        → All P (keep_if test ps)
    unfolding keep_if
    keep-All test [] a = tt
    keep-All test (p ∷ ps) a = elim (Bool-cases (test p)) [
      | inl e ↦ rw e (a.0, keep-All test ps a.1)
      | inr e ↦ rw e (keep-All test ps a.1)
    ]

  kept_up_to :
      (now_ms : ℕ) (ps : List (SpreadPoint F))
      → All (λ q. q.ts ≤ now_ms) (keep_if (λ p. leb p.ts now_ms) ps)
  unfolding keep_if
  kept_up_to now_ms [] = tt
  kept_up_to now_ms (p ∷ ps) = elim (Bool-cases (leb p.ts now_ms)) [
    | inl e ↦ rw e (ground (arith, e), kept_up_to now_ms ps)
    | inr e ↦ rw e (kept_up_to now_ms ps)
  ]

  all_later :
      (t u : ℕ) (ps : List (SpreadPoint F))
      → u ≤ t
      → All (λ q. t ≤ q.ts) ps
      → All (λ q. u ≤ q.ts) ps
  all_later t u [] h a = tt
  all_later t u (p ∷ ps) h a = (omega (arith, h, a.0), all_later t u ps h a.1)

  insert-IsRising :
      (p : SpreadPoint F) (ps : List (SpreadPoint F))
      → IsRising ps
      → IsRising (insert_by_ts by_ts p ps)
  unfolding insert_by_ts
  insert-IsRising p [] r = (tt, tt)
  insert-IsRising p (q ∷ ps) r = elim (Bool-cases (leb p.ts q.ts)) [
    | inl e ↦ rw e ((ground (arith, e), all_later q.ts p.ts ps (ground (arith, e)) r.0), r)
    | inr e ↦
        rw e (insert-All (λ z. q.ts ≤ z.ts) p ps (ground (arith, e)) r.0, insert-IsRising p ps r.1)
  ]

  sort-IsRising : (ps : List (SpreadPoint F)) → IsRising (sort_by_ts by_ts ps)
  unfolding sort_by_ts
  sort-IsRising [] = tt
  sort-IsRising (p ∷ ps) = insert-IsRising p (sort_by_ts by_ts ps) (sort-IsRising ps)

  -- All of the first are as old as all of the second.
  abbrev AreOlder : List (SpreadPoint F) → List (SpreadPoint F) → Type 0
  AreOlder out [] = Unit
  AreOlder out (p ∷ ps) = All (λ q. q.ts ≤ p.ts) out × AreOlder out ps

  older_cons :
      (p : SpreadPoint F) (out ps : List (SpreadPoint F))
      → All (λ q. p.ts ≤ q.ts) ps
      → AreOlder out ps
      → AreOlder (p ∷ out) ps
  older_cons p out [] a o = tt
  older_cons p out (q ∷ ps) a o = ((a.0, o.0), older_cons p out ps a.1 o.1)

  onto-IsFalling :
      (out ps : List (SpreadPoint F))
      → IsFalling out
      → IsRising ps
      → AreOlder out ps
      → IsFalling (onto out ps)
  unfolding onto
  onto-IsFalling out [] f r o = f
  onto-IsFalling out (p ∷ ps) f r o =
      onto-IsFalling (p ∷ out) ps (o.0, f) r.1 (older_cons p out ps r.0 o.1)

  older_none : (ps : List (SpreadPoint F)) → AreOlder [] ps
  older_none [] = tt
  older_none (p ∷ ps) = (tt, older_none ps)

module _ {F : Type 0} (num : Floats F) (threshold : F) where
  -- The spread is a number, so its two comparisons with the threshold agree.
  abbrev pub IsComparable : SpreadPoint F → Type 0
  IsComparable p = num.ge threshold (num.abs p.spread) ≡ not (num.gt (num.abs p.spread) threshold)

  abbrev pub IsHigh : SpreadPoint F → Type 0
  IsHigh p = num.gt (num.abs p.spread) threshold ≡ true

  -- Of points, the newest first: all are high from the newest one down to some point that is old
  -- enough.
  abbrev pub HasRun : ℕ → ℕ → List (SpreadPoint F) → Type 0
  HasRun sustain_ms now_ms [] = ⊥
  HasRun sustain_ms now_ms (p ∷ ps) =
      IsHigh p × ((p.ts + sustain_ms ≤ now_ms) ⊎ HasRun sustain_ms now_ms ps)

  module _ (sustain_ms now_ms : ℕ) where
    streak_back-HasRun :
        (start : ℕ) (ps : List (SpreadPoint F))
        → All (λ q. q.ts ≤ start) ps
        → IsFalling ps
        → (streak_back num threshold start ps + sustain_ms ≤ now_ms)
          ↔ ((start + sustain_ms ≤ now_ms) ⊎ HasRun sustain_ms now_ms ps)
    unfolding streak_back
    streak_back-HasRun start [] a f = (λ h. inl h, λ h. elim h [ inl k ↦ k | inr k ↦ absurd k ])
    streak_back-HasRun start (p ∷ ps) a f =
        elim (Bool-cases (num.gt (num.abs p.spread) threshold)) [
          | inl e ↦
              let ih = streak_back-HasRun p.ts ps f.0 f.1 in
              rw e (
                λ h. inr (refl, ih.0 h),
                λ h. elim h [ inl k ↦ ih.1 (inl (omega (arith, k, a.0))) | inr k ↦ ih.1 k.1 ],
              )
          | inr e ↦
              rw e (λ h. inl h, λ h. elim h [ inl k ↦ k | inr k ↦ absurd (ground (arith, k)) ])
        ]

    -- No point is after now, so the scan starts at the newest.
    up_to_now_id :
        (ps : List (SpreadPoint F)) → All (λ q. q.ts ≤ now_ms) ps → up_to_now num now_ms ps ≡ ps
    unfolding up_to_now
    up_to_now_id [] a = refl
    up_to_now_id (p ∷ ps) a = ground (arith, a.0)

    sustained_in-HasRun :
        (ps : List (SpreadPoint F))
        → All (λ q. q.ts ≤ now_ms) ps
        → All IsComparable ps
        → IsFalling ps
        → ((sustained_in num ps threshold sustain_ms now_ms).fires ≡ true)
          ↔ HasRun sustain_ms now_ms ps
    unfolding sustained_in find_streak_start
    sustained_in-HasRun [] a k f = (λ h. absurd cc, λ h. absurd h)
    sustained_in-HasRun (p ∷ ps) a k f =
        let back = streak_back-HasRun p.ts ps f.0 f.1 in
        rw (up_to_now_id (p ∷ ps) a) (
          rw k.0 (elim (Bool-cases (num.gt (num.abs p.spread) threshold)) [
            | inl e ↦
                rw e (λ h. (refl, back.0 (ground (arith, h))), λ h. ground (arith, back.1 h.1))
            | inr e ↦ rw e (λ h. absurd cc, λ h. absurd (cc h.0))
          ]))

    -- The trigger fires exactly where the points up to now, the newest first, are all above the
    -- threshold in absolute value from the newest one down to some point that is at least
    -- `sustain_ms` old; for spreads that are numbers.
    pub spread_sustained_iff :
        (window : List (SpreadPoint F))
        → All IsComparable window
        → ((check_spread_sustained num window threshold sustain_ms now_ms).fires ≡ true)
          ↔ HasRun sustain_ms now_ms
              (from_newest (sort_by_ts (λ p. p.ts) (keep_if (λ p. leb p.ts now_ms) window)))
    unfolding check_spread_sustained
    spread_sustained_iff window k =
        let points = keep_if (λ (p : SpreadPoint F). leb p.ts now_ms) window in
        sustained_in-HasRun (from_newest (sort_by_ts by_ts points))
          (onto-All (λ q. q.ts ≤ now_ms) [] (sort_by_ts by_ts points) tt
            (sort-All (λ q. q.ts ≤ now_ms) points (kept_up_to now_ms window)))
          (onto-All IsComparable [] (sort_by_ts by_ts points) tt
            (sort-All IsComparable points (keep-All IsComparable (λ p. leb p.ts now_ms) window k)))
          (onto-IsFalling [] (sort_by_ts by_ts points) tt (sort-IsRising points)
            (older_none (sort_by_ts by_ts points)))
