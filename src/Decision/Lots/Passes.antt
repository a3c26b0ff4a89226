-- ===== src/Decision/Lots/Passes.antt =====
-- What the passes of src/decision/lotStore.ts over the open lots compute, in whatever
-- order the lots are stored.
use lp_agent.Prelude.{
  ℕ, String, ◌≡◌, refl, sym, ap, ◌∙◌, inl, inr, Bool, Bool-cases, true, false, ◌&&◌, ◌||◌, Option,
  none, some, List, [], ◌∷◌, ◌===◌, leb, ltb, if◌then◌else◌, arith,
}
use lp_agent.Prelude.Int.{ℤ, pos, ◌+ℤ◌, +ℤ_parts, eq_of_parts}
use lp_agent.Table.Filter.{filter}
use lp_agent.Decision.Lots.{
  Side, side_eqb, Lot, Numbers, is_open, insert_oldest, oldest_first, load_open_lots, earlier,
  aggregate_from, aggregate_side,
}

abbrev pub fold : {A B : Type 0} → (A → B → B) → B → List A → B
fold step z [] = z
fold step z (x ∷ xs) = step x (fold step z xs)

-- A step that passes over what fails the test.
abbrev pub when : {A B : Type 0} → (A → Bool) → (A → B → B) → A → B → B
when p step x b = if p x then step x b else b

fold-filter :
    {A B : Type 0} (p : A → Bool) (step : A → B → B) (z : B) (xs : List A)
    → fold step z (filter p xs) ≡ fold (when p step) z xs
unfolding filter
fold-filter p step z [] = refl
fold-filter p step z (x ∷ xs) = elim (Bool-cases (p x)) [
  | inl h ↦ rw h (ap (step x) (fold-filter p step z xs))
  | inr h ↦ rw h (fold-filter p step z xs)
]

when_swap :
    {A B : Type 0} (p : A → Bool) (step : A → B → B)
    → ((x y : A) (b : B) → step x (step y b) ≡ step y (step x b))
    → (x y : A) (b : B) → when p step x (when p step y b) ≡ when p step y (when p step x b)
when_swap p step swap x y b = elim (Bool-cases (p x)) [
  | inl h ↦ elim (Bool-cases (p y)) [ inl k ↦ rw (h, k) (swap x y b) | inr k ↦ rw (h, k) refl ]
  | inr h ↦ rw h refl
]

module _ {Number B : Type 0} (step : Lot Number → B → B) (z : B)
    (swap : (x y : Lot Number) (b : B) → step x (step y b) ≡ step y (step x b)) where
  fold-insert_oldest :
      (l : Lot Number) (xs : List (Lot Number))
      → fold step z (insert_oldest l xs) ≡ step l (fold step z xs)
  unfolding insert_oldest
  fold-insert_oldest l [] = refl
  fold-insert_oldest l (x ∷ xs) = elim (Bool-cases (leb l.acquired_at_ms x.acquired_at_ms)) [
    | inl h ↦ rw h refl
    | inr h ↦ rw h (ap (step x) (fold-insert_oldest l xs) ∙ swap x l (fold step z xs))
  ]

  fold-oldest_first : (xs : List (Lot Number)) → fold step z (oldest_first xs) ≡ fold step z xs
  unfolding oldest_first
  fold-oldest_first [] = refl
  fold-oldest_first (x ∷ xs) =
      fold-insert_oldest x (oldest_first xs) ∙ ap (step x) (fold-oldest_first xs)

module _ {Number : Type 0} (pm_id : String) (side : Side) where
  abbrev on_side : Lot Number → Bool
  on_side l = side_eqb l.side side

  -- The lots that the code reads for the side.
  abbrev pub read_lots : List (Lot Number) → List (Lot Number)
  read_lots lots = filter on_side (load_open_lots pm_id lots)

  -- A pass over them does what a pass over the whole table does that takes the open ones of the side.
  pub fold-read_lots :
      {B : Type 0} (step : Lot Number → B → B) (z : B) (lots : List (Lot Number))
      → ((x y : Lot Number) (b : B) → step x (step y b) ≡ step y (step x b))
      → fold step z (read_lots lots) ≡ fold (when (is_open pm_id) (when on_side step)) z lots
  unfolding load_open_lots
  fold-read_lots step z lots swap =
      fold-filter on_side step z (oldest_first (filter (is_open pm_id) lots))
      ∙ fold-oldest_first (when on_side step) z (when_swap on_side step swap)
          (filter (is_open pm_id) lots)
      ∙ fold-filter (is_open pm_id) (when on_side step) z lots

pub add_swap : (a b c : ℤ) → a +ℤ (b +ℤ c) ≡ b +ℤ (a +ℤ c)
add_swap a b c =
    eq_of_parts _ _
      (omega (arith, +ℤ_parts a (b +ℤ c), +ℤ_parts b c, +ℤ_parts b (a +ℤ c), +ℤ_parts a c))

pub add_assoc : (a b c : ℤ) → (a +ℤ b) +ℤ c ≡ a +ℤ (b +ℤ c)
add_assoc a b c =
    eq_of_parts _ _
      (omega (arith, +ℤ_parts (a +ℤ b) c, +ℤ_parts a b, +ℤ_parts a (b +ℤ c), +ℤ_parts b c))

pub zero_add : (a : ℤ) → pos 0 +ℤ a ≡ a
zero_add a = eq_of_parts _ _ (omega (arith, +ℤ_parts (pos 0) a))

pub add_zero : (a : ℤ) → a +ℤ pos 0 ≡ a
add_zero a = eq_of_parts _ _ (omega (arith, +ℤ_parts a (pos 0)))

abbrev pub add_amount : {Number : Type 0} → Lot Number → ℤ → ℤ
add_amount l t = l.amount +ℤ t

abbrev pub dates_from : {Number : Type 0} → ℕ → Lot Number → Bool → Bool
dates_from ms l b = (l.acquired_at_ms === ms) || b

abbrev pub no_older : {Number : Type 0} → ℕ → Lot Number → Bool → Bool
no_older ms l b = leb ms l.acquired_at_ms && b

abbrev is_time : Option ℕ → ℕ → Bool
is_time none ms = false
is_time (some e) ms = e === ms

abbrev is_since : Option ℕ → ℕ → Bool
is_since none ms = true
is_since (some e) ms = leb ms e

earlier_step :
    (x ms e : ℕ) (b c : Bool)
    → (x === e) || ((ms === e) || b) ≡ true
    → leb e x && (leb e ms && c) ≡ true
    → (is_time (earlier (some x) ms) e || b ≡ true) × (is_since (earlier (some x) ms) e && c ≡ true)
earlier_step x ms e b c h k = elim (Bool-cases (ltb ms x)) [
  | inl q ↦ rw q (ground arith, ground arith)
  | inr q ↦ rw q (ground arith, ground arith)
]

module _ {Number : Type 0} (numbers : Numbers Number) where
  total-aggregate_from :
      (t : ℤ) (er : Option ℕ) (c : Number) (ls : List (Lot Number))
      → (aggregate_from numbers t er c ls).total ≡ t +ℤ fold add_amount (pos 0) ls
  unfolding aggregate_from
  total-aggregate_from t er c [] = sym (add_zero t)
  total-aggregate_from t er c (l ∷ ls) =
      total-aggregate_from (t +ℤ l.amount) _ _ ls
      ∙ add_assoc t l.amount (fold add_amount (pos 0) ls)

  earliest-aggregate_from :
      (e : ℕ) (t : ℤ) (er : Option ℕ) (c : Number) (ls : List (Lot Number))
      → is_time er e || fold (dates_from e) false ls ≡ true
      → is_since er e && fold (no_older e) true ls ≡ true
      → (aggregate_from numbers t er c ls).earliest_ms ≡ some e
  unfolding aggregate_from
  earliest-aggregate_from e t none c [] h k = cc
  earliest-aggregate_from e t (some x) c [] h k = ground arith
  earliest-aggregate_from e t none c (l ∷ ls) h k =
      earliest-aggregate_from e (t +ℤ l.amount) (some l.acquired_at_ms) _ ls h k
  earliest-aggregate_from e t (some x) c (l ∷ ls) h k =
      let (h', k') = earlier_step x l.acquired_at_ms e _ _ h k in
      earliest-aggregate_from e (t +ℤ l.amount) (earlier (some x) l.acquired_at_ms) _ ls h' k'

  pub total-aggregate_side :
      (ls : List (Lot Number)) (side : Side)
      → (aggregate_side numbers ls side).total
        ≡ fold add_amount (pos 0) (filter (λ l. side_eqb l.side side) ls)
  unfolding aggregate_side
  total-aggregate_side ls side = total-aggregate_from (pos 0) none numbers.zero _ ∙ zero_add _

  pub earliest-aggregate_side :
      (e : ℕ) (ls : List (Lot Number)) (side : Side)
      → fold (dates_from e) false (filter (λ l. side_eqb l.side side) ls) ≡ true
      → fold (no_older e) true (filter (λ l. side_eqb l.side side) ls) ≡ true
      → (aggregate_side numbers ls side).earliest_ms ≡ some e
  unfolding aggregate_side
  earliest-aggregate_side e ls side h k = earliest-aggregate_from e (pos 0) none numbers.zero _ h k
