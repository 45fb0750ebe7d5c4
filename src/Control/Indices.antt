-- ===== src/Control/Indices.antt =====
-- Arrays at an index of type `int`.
use robot_arm.Base.{
  ℕ, zero, suc, ◌<◌, ◌≡◌, refl, sym, ap, ◌∙◌, inl, inr, Bool, false, Option, none, some, List, [],
  ◌∷◌, ℤ, pos, negsuc, arith, ◌==◌, if◌then◌else◌, length, get_elem?, set, length-set,
  eq_of_==_true, Bool-cases,
}
use robot_arm.Control.{index, set_index}

-- The user id is the index of a servo.
abbrev pub Names : ℕ → ℤ → Type 0
Names n (pos i) = i < n
Names n (negsuc i) = ⊥

abbrev pub is_index : ℤ → ℕ → Bool
is_index (pos i) k = i == k
is_index (negsuc i) k = false

abbrev pub map_option : {A B : Type 0} → (A → B) → Option A → Option B
map_option f none = none
map_option f (some a) = some (f a)

module _ {A : Type 0} where
  elem_lt : (xs : List A) (i : ℕ) → i < length xs → (x : A) × (get_elem? xs i ≡ some x)
  elem_lt [] i h = absurd (omega arith)
  elem_lt (x ∷ xs) zero h = (x, refl)
  elem_lt (x ∷ xs) (suc i) h = elem_lt xs i (omega arith)

  pub elem-set :
      (xs : List A) (i k : ℕ) (x v : A)
      → get_elem? xs i ≡ some x
      → get_elem? (set xs i v) k ≡ (if i == k then some v else get_elem? xs k)
  elem-set [] i k x v e = absurd (cc)
  elem-set (y ∷ xs) zero zero x v e = refl
  elem-set (y ∷ xs) zero (suc k) x v e = ground arith
  elem-set (y ∷ xs) (suc i) zero x v e = ground arith
  elem-set (y ∷ xs) (suc i) (suc k) x v e = elem-set xs i k x v e ∙ ground arith

  pub map_option_id : (o : Option A) → o ≡ map_option (λ (a : A). a) o
  map_option_id none = refl
  map_option_id (some a) = refl

  -- The element at the index is changed, the others are not.
  elem-set_index :
      (xs : List A) (i : ℕ) (x : A) (f : A → A) (k : ℕ)
      → get_elem? xs i ≡ some x
      → get_elem? (set xs i (f x)) k
        ≡ map_option (λ (a : A). if i == k then f a else a) (get_elem? xs k)
  elem-set_index xs i x f k e = elim (Bool-cases (i == k)) [
    | inl here ↦
        let same : get_elem? xs k ≡ some x = ap (get_elem? xs) (sym (eq_of_==_true i k here)) ∙ e in
        elem-set xs i k x (f x) e ∙ rw (here, same) refl
    | inr there ↦ elem-set xs i k x (f x) e ∙ rw there (map_option_id (get_elem? xs k))
  ]

  -- The same for an index of type `int`.
  pub set_index_lem :
      (xs : List A) (u : ℤ) (f : A → A)
      → Names (length xs) u
      → (x : A) × (index xs u ≡ some x)
        × (length (set_index xs u (f x)) ≡ length xs)
        × ((k : ℕ)
            → get_elem? (set_index xs u (f x)) k
              ≡ map_option (λ (a : A). if is_index u k then f a else a) (get_elem? xs k))
  set_index_lem xs (pos i) f h =
      let (x, e) = elem_lt xs i h in (x, e, length-set xs i (f x), λ k. elem-set_index xs i x f k e)
  set_index_lem xs (negsuc i) f h = absurd h

  pub length-set_index : (xs : List A) (u : ℤ) (v : A) → length (set_index xs u v) ≡ length xs
  length-set_index xs (pos i) v = length-set xs i v
  length-set_index xs (negsuc i) v = refl

  elem_beyond : (xs : List A) (i : ℕ) → (i < length xs → ⊥) → get_elem? xs i ≡ none
  elem_beyond [] i h = refl
  elem_beyond (x ∷ xs) zero h = absurd (h (omega arith))
  elem_beyond (x ∷ xs) (suc i) h = elem_beyond xs i (λ l. h (omega arith))

  pub index-stray : (xs : List A) (u : ℤ) → (Names (length xs) u → ⊥) → index xs u ≡ none
  index-stray xs (pos i) h = elem_beyond xs i h
  index-stray xs (negsuc i) h = refl
