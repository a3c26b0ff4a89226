-- ===== src/Table/Laws.antt =====
-- SELECT after UPDATE, keys under UPDATE, and sums over a table under UPDATE.
use lp_agent.Prelude.{
  ℕ, ◌+◌, ◌≤◌, String, ◌≡◌, refl, ◌≢◌, inl, inr, Bool-cases, none, some, List, [], ◌∷◌, arith, ◌==◌,
  eq_iff, sum_by,
}
use lp_agent.Table.{select, update, Unique}

module _ {ℓ} {A : Type ℓ} (key : A → String) where
  -- The row that SELECT returns has the key.
  pub key-select : (k : String) (xs : List A) {x : A} → select key k xs ≡ some x → key x ≡ k
  unfolding select
  key-select k [] h = cc
  key-select k (y ∷ ys) {x} h = ground (arith, eq_iff (key y) k, key-select k ys {x = x})

  pub update-select-none :
      (k : String) (f : A → A) (xs : List A) → select key k xs ≡ none → update key k f xs ≡ xs
  unfolding select update
  update-select-none k f [] h = refl
  update-select-none k f (x ∷ xs) h = ground (arith, update-select-none k f xs)

  module _ (f : A → A) (keeps : (x : A) → key (f x) ≡ key x) where
    pub select-update_self :
        (k : String) (xs : List A) {x : A}
        → select key k xs ≡ some x
        → select key k (update key k f xs) ≡ some (f x)
    unfolding select update
    select-update_self k [] h = cc
    select-update_self k (y ∷ ys) {x} h =
        ground (arith, keeps y, eq_iff (key y) k, select-update_self k ys {x = x})

    pub select-update_ne :
        (k j : String) (xs : List A) → k ≢ j → select key j (update key k f xs) ≡ select key j xs
    unfolding select update
    select-update_ne k j [] h = refl
    select-update_ne k j (y ∷ ys) h =
        ground (arith, keeps y, eq_iff (key y) k, eq_iff (key y) j, select-update_ne k j ys h)

    pub select-update-none :
        (k j : String) (xs : List A)
        → select key j xs ≡ none
        → select key j (update key k f xs) ≡ none
    unfolding select update
    select-update-none k j [] h = refl
    select-update-none k j (y ∷ ys) h =
        ground (arith, keeps y, eq_iff (key y) j, select-update-none k j ys)

    -- An UPDATE removes no row.
    pub select-none-update :
        (k j : String) (xs : List A)
        → select key j (update key k f xs) ≡ none
        → select key j xs ≡ none
    unfolding select update
    select-none-update k j [] h = refl
    select-none-update k j (y ∷ ys) h =
        ground (arith, keeps y, eq_iff (key y) j, select-none-update k j ys)

    pub update-Unique : (k : String) (xs : List A) → Unique key xs → Unique key (update key k f xs)
    unfolding update
    update-Unique k [] u = u
    update-Unique k (y ∷ ys) u =
        ground (arith, keeps y, select-update-none k (key y) ys, update-Unique k ys u.1)

  -- One row changes in an UPDATE by key.
  pub sum_by-update :
      (w : A → ℕ) (k : String) (f : A → A) (xs : List A) {x : A}
      → Unique key xs
      → select key k xs ≡ some x
      → sum_by w (update key k f xs) + w x ≡ sum_by w xs + w (f x)
  unfolding select update
  sum_by-update w k f [] u h = cc
  sum_by-update w k f (y ∷ ys) {x} u h = elim (Bool-cases (key y == k)) [
    | inl here ↦ ground (arith, eq_iff (key y) k, update-select-none k f ys)
    | inr there ↦ ground (arith, sum_by-update w k f ys {x = x} u.1)
  ]

  -- An UPDATE that keeps the weight of each row keeps the sum.
  pub sum_by-update_same :
      (w : A → ℕ) (k : String) (f : A → A) (xs : List A)
      → ((x : A) → w (f x) ≡ w x)
      → sum_by w (update key k f xs) ≡ sum_by w xs
  unfolding update
  sum_by-update_same w k f [] h = refl
  sum_by-update_same w k f (y ∷ ys) h = ground (arith, h y, sum_by-update_same w k f ys h)

  -- A row's weight is part of the sum.
  pub le-sum_by :
      (w : A → ℕ) (k : String) (xs : List A) {x : A} → select key k xs ≡ some x → w x ≤ sum_by w xs
  unfolding select
  le-sum_by w k [] h = cc
  le-sum_by w k (y ∷ ys) {x} h = ground (arith, le-sum_by w k ys {x = x})
