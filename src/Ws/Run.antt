-- ===== src/Ws/Run.antt =====
-- The outcome of a C function that can stop the program: a failed `assert`, a read or write through
-- a pointer that is not allocated, a division by zero, or a loop that has used up the rounds it was
-- given.

pub data Run {ℓ} (A : Type ℓ) : Type ℓ where
  done : A → Run A
  assert_failed : Run A
  bad_pointer : Run A
  divided_by_zero : Run A
  out_of_fuel : Run A

infixl 5 ◌>>=◌
abbrev pub ◌>>=◌ {ℓ κ} : {A : Type ℓ} {B : Type κ} → Run A → (A → Run B) → Run B
done a >>= f = f a
assert_failed >>= f = assert_failed
bad_pointer >>= f = bad_pointer
divided_by_zero >>= f = divided_by_zero
out_of_fuel >>= f = out_of_fuel
