-- ===== src/Table/Filter.antt =====
-- SELECT … WHERE of several rows.
use lp_agent.Prelude.{
  String, ◌≡◌, refl, Bool, true, none, some, List, [], ◌∷◌, eq_iff, arith, if◌then◌else◌, All, inl,
  inr, Bool-cases,
}
use lp_agent.Table.{select, Unique}

module _ {ℓ} {A : Type ℓ} where
  unfoldable pub filter : (A → Bool) → List A → List A
  filter p [] = []
  filter p (x ∷ xs) = if p x then x ∷ filter p xs else filter p xs

  pub All-map {κ μ} :
      {P : A → Type κ} {Q : A → Type μ} (xs : List A) → ((x : A) → P x → Q x) → All P xs → All Q xs
  All-map [] f h = tt
  All-map (x ∷ xs) f h = (f x h.0, All-map xs f h.1)

module _ {A : Type 0} (key : A → String) (p : A → Bool) where
  -- Where the keys are unique, each selected row is found again by its key.
  abbrev pub IsFound : List A → A → Type 0
  IsFound xs x = (select key (key x) xs ≡ some x) × (p x ≡ true)

  filter-select-none :
      (k : String) (xs : List A) → select key k xs ≡ none → select key k (filter p xs) ≡ none
  unfolding filter select
  filter-select-none k [] h = refl
  filter-select-none k (x ∷ xs) h = ground (arith, filter-select-none k xs)

  pub filter-Unique : (xs : List A) → Unique key xs → Unique key (filter p xs)
  unfolding filter
  filter-Unique [] u = tt
  filter-Unique (x ∷ xs) u = elim (Bool-cases (p x)) [
    | inl h ↦ rw h (filter-select-none (key x) xs u.0, filter-Unique xs u.1)
    | inr h ↦ rw h (filter-Unique xs u.1)
  ]

  IsFound-cons :
      (y : A) (xs : List A) (x : A)
      → select key (key y) xs ≡ none
      → IsFound xs x
      → IsFound (y ∷ xs) x
  unfolding select
  IsFound-cons y xs x new h = ground (arith, eq_iff (key y) (key x))

  pub filter-IsFound : (xs : List A) → Unique key xs → All (IsFound xs) (filter p xs)
  unfolding filter
  filter-IsFound [] u = tt
  filter-IsFound (x ∷ xs) u = elim (Bool-cases (p x)) [
    | inl h ↦ rw h (
      (unfold select in ground (arith, eq_iff (key x) (key x)), h),
      All-map (filter p xs) (λ y f. IsFound-cons x xs y u.0 f) (filter-IsFound xs u.1),
    )
    | inr h ↦
        rw h (All-map (filter p xs) (λ y f. IsFound-cons x xs y u.0 f) (filter-IsFound xs u.1))
  ]
