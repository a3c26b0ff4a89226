-- ===== src/Table.antt =====
-- SQL tables with a text primary key, as lists of rows: SELECT by key, UPDATE by key, and the
-- uniqueness of keys that PRIMARY KEY enforces. INSERT puts the new row in front: the order of
-- rows is never read without an ORDER BY.
pub mod Laws
pub mod Filter
use lp_agent.Prelude.{String, ◌≡◌, Option, none, some, List, [], ◌∷◌, ◌==◌, if◌then◌else◌}

module _ {ℓ} {A : Type ℓ} (key : A → String) where
  -- SELECT * FROM t WHERE key = k, and the statement's `get()`
  unfoldable pub select : String → List A → Option A
  select k [] = none
  select k (x ∷ xs) = if key x == k then some x else select k xs

  -- UPDATE t SET f WHERE key = k
  unfoldable pub update : String → (A → A) → List A → List A
  update k f [] = []
  update k f (x ∷ xs) = (if key x == k then f x else x) ∷ update k f xs

  -- No two rows have the same key.
  abbrev pub Unique : List A → Type ℓ
  Unique [] = Unit
  Unique (x ∷ xs) = (select (key x) xs ≡ none) × Unique xs
