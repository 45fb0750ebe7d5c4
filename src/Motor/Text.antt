-- ===== src/Motor/Text.antt =====
-- The texts of numbers that RaspberryPi/src/stepper.cpp uses: `<<` on an int, `atoi`, and the lines
-- that `std::getline` gives one after the other.
use robot_arm.Base.{
  ℕ, zero, suc, ◌+◌, ◌-◌, ◌*◌, ◌/◌, ◌%◌, ◌≤◌, leb, ◌==◌, ◌≡◌, ◌≢◌, refl, ◌∙◌, Bool, true, false,
  ◌&&◌, ◌||◌, List, [], ◌∷◌, ℤ, pos, negsuc, sub_ℕ, if◌then◌else◌, All, arith, Bool-cases, inl, inr,
  ap, sym,
}
use robot_arm.Calib.{Text, is_digit, leading_number}

-- The decimal digits of a number before a text; the first argument bounds their count.
abbrev digits : ℕ → ℕ → Text → Text
digits zero n out = out
digits (suc k) n out =
    let rest = digits k (n / 10) ((48 + n % 10) ∷ out) in if n == 0 then out else rest

abbrev decimal : ℕ → Text
decimal n = if n == 0 then 48 ∷ [] else digits n n []

-- `of << n`
unfoldable pub print_int : ℤ → Text
print_int (pos n) = decimal n
print_int (negsuc n) = 45 ∷ decimal (suc n)

abbrev is_space : ℕ → Bool
is_space c = (c == 32) || (leb 9 c && leb c 13)

abbrev skip_space : Text → Text
skip_space [] = []
skip_space (c ∷ s) = let rest = skip_space s in if is_space c then rest else c ∷ s

abbrev signed_number : Text → ℤ
signed_number [] = pos 0
signed_number (c ∷ s) =
    if c == 45
    then sub_ℕ 0 (leading_number 0 s)
    else if c == 43
    then pos (leading_number 0 s)
    else pos (leading_number 0 (c ∷ s))

unfoldable pub atoi : Text → ℤ
atoi s = signed_number (skip_space s)

abbrev put_first : ℕ → List Text → List Text
put_first c [] = (c ∷ []) ∷ []
put_first c (l ∷ ls) = (c ∷ l) ∷ ls

-- A newline at the end begins no further line.
unfoldable pub getlines : Text → List Text
getlines [] = []
getlines (c ∷ s) = let rest = getlines s in if c == 10 then [] ∷ rest else put_first c rest

abbrev IsDigit : ℕ → Type 0
IsDigit c = (48 ≤ c) × (c ≤ 57)

-- Reading the last digit of a number behind the digits before it.
number_last :
    (n : ℕ) (out : Text) → leading_number (n / 10) ((48 + n % 10) ∷ out) ≡ leading_number n out
number_last n out =
    let one : is_digit (48 + n % 10) ≡ true = ground arith in
    let whole : n / 10 * 10 + (48 + n % 10 - 48) ≡ n = omega arith in rw (one, whole) refl

number-digits :
    (k n : ℕ) (out : Text) → n ≤ k → leading_number 0 (digits k n out) ≡ leading_number n out
number-digits zero n out h = let e : n ≡ 0 = omega arith in rw e refl
number-digits (suc k) n out h = elim (Bool-cases (n == 0)) [
  | inl none_left ↦ let e : n ≡ 0 = ground arith in rw e refl
  | inr some_left ↦
      rw some_left
        (number-digits k (n / 10) ((48 + n % 10) ∷ out) (ground arith) ∙ number_last n out)
]

digits-IsDigit : (k n : ℕ) (out : Text) → All IsDigit out → All IsDigit (digits k n out)
digits-IsDigit zero n out h = h
digits-IsDigit (suc k) n out h = elim (Bool-cases (n == 0)) [
  | inl none_left ↦ rw none_left h
  | inr some_left ↦
      rw some_left (digits-IsDigit k (n / 10) ((48 + n % 10) ∷ out) ((omega arith, omega arith), h))
]

decimal-IsDigit : (n : ℕ) → All IsDigit (decimal n)
decimal-IsDigit n = elim (Bool-cases (n == 0)) [
  | inl e ↦ rw e ((omega arith, omega arith), tt)
  | inr e ↦ rw e (digits-IsDigit n n [] tt)
]

number-decimal : (n : ℕ) → leading_number 0 (decimal n) ≡ n
number-decimal n = elim (Bool-cases (n == 0)) [
  | inl e ↦ let z : n ≡ 0 = ground arith in rw z refl
  | inr e ↦ rw e (number-digits n n [] (omega arith))
]

atoi-digits : (s : Text) → All IsDigit s → atoi s ≡ pos (leading_number 0 s)
unfolding atoi
atoi-digits [] h = refl
atoi-digits (c ∷ s) ((low, high), h) =
    let solid : is_space c ≡ false = ground arith in
    let unsigned : (c == 45) ≡ false = ground arith in
    let unsigned' : (c == 43) ≡ false = ground arith in rw (solid, unsigned, unsigned') refl

-- What `<<` prints is read back by `atoi`.
pub atoi-print_int : (n : ℤ) → atoi (print_int n) ≡ n
unfolding print_int atoi
atoi-print_int (pos n) = atoi-digits (decimal n) (decimal-IsDigit n) ∙ ap pos (number-decimal n)
atoi-print_int (negsuc n) = rw (number-decimal (suc n)) (ground arith)

getlines-digits :
    (c : ℕ) (s : Text) → (c == 10) ≡ false → All IsDigit s → getlines (c ∷ s) ≡ (c ∷ s) ∷ []
unfolding getlines
getlines-digits c [] e h = rw e refl
getlines-digits c (d ∷ s) e ((low, high), h) =
    let f : (d == 10) ≡ false = ground arith in rw (e, getlines-digits d s f h) refl

getlines-number : (s : Text) → s ≢ [] → All IsDigit s → getlines s ≡ s ∷ []
getlines-number [] ne h = absurd (ne refl)
getlines-number (c ∷ s) ne ((low, high), h) = getlines-digits c s (ground arith) h

decimal-ne-nil : (n : ℕ) → decimal n ≢ []
decimal-ne-nil n e = elim (Bool-cases (n == 0)) [
  | inl z ↦ let one : decimal n ≡ 48 ∷ [] = rw z refl in cc
  | inr z ↦ let v : 0 ≡ n = sym (ap (leading_number 0) e) ∙ number-decimal n in ground arith
]

-- A number that is printed alone is one line.
pub getlines-print_int : (n : ℤ) → getlines (print_int n) ≡ print_int n ∷ []
unfolding print_int
getlines-print_int (pos n) = getlines-number (decimal n) (decimal-ne-nil n) (decimal-IsDigit n)
getlines-print_int (negsuc n) = getlines-digits 45 (decimal (suc n)) refl (decimal-IsDigit (suc n))
