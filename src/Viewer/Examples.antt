-- ===== src/Viewer/Examples.antt =====
-- The theorems on the viewer at concrete inputs: numbers for pictures and matrices, and the field of
-- two elements for arithmetic without rounding.
mod Run
use robot_arm.Base.{
  ℕ, ◌≡◌, refl, Bool, true, false, not, ◌&&◌, none, some, List, [], ◌∷◌, ◌++◌, ℤ, pos, negsuc, ◌+ℤ◌,
  ◌-ℤ◌, ◌==◌, if◌then◌else◌, length, All, IsI32, arith,
}
use robot_arm.Floats.{Floats}
use robot_arm.Ws.Run.{done}
use robot_arm.Gpio.Examples.Servos.{whole}
use robot_arm.Detect.{Point2i}
use robot_arm.Detect.Track.{regions}
use robot_arm.Detect.Examples.{numbers, first_only-Keeps, place_zero, yolo, track, rows}
use robot_arm.Viewer.{Mats}
use robot_arm.Viewer.Homo.{HomoTransform, muv_of, depth, inverse_project_point}
use robot_arm.Viewer.Plane.{
  IsLinear, column_of, IsInvertible, ray, seen, inverse_project_point-seen,
}

abbrev xor : Bool → Bool → Bool
xor true b = not b
xor false b = b

abbrev is_one : ℤ → Bool
is_one (pos n) = n == 1
is_one (negsuc n) = n == 0

-- Doubles of one bit: sums are exclusive, and 1 is its own inverse.
abbrev bits : Floats
bits = record {
  Float = ℤ;
  Double = Bool;
  of_int = λ n. n;
  to_int = λ n. n;
  add = λ a b. a +ℤ b;
  sub = λ a b. a -ℤ b;
  mul = λ a b. a;
  div = λ a b. a;
  less = λ a b. false;
  at_least = λ a b. true;
  sqrt = λ a. a;
  sin = λ a. a;
  cos = λ a. a;
  atan2 = λ a b. a;
  widen = λ a. is_one a;
  narrow = λ a. if a then pos 1 else pos 0;
  of_int_d = λ n. is_one n;
  to_int_d = λ a. if a then pos 1 else pos 0;
  add_d = xor;
  mul_d = λ a b. a && b;
  sub_d = xor;
  div_d = λ a b. a && b;
  less_d = λ a b. not a && b;
  at_least_d = λ a b. not (not a && b);
  sqrt_d = λ a. a;
  fmod = λ a b. false;
  half = false;
  pi = true;
}

-- Matrices of one number; a column is its third.
abbrev single : Mats bits
single = record {
  Mat = Bool;
  at = λ m i j. m;
  div_m = λ m d. m && d;
  col = λ m j. m;
  cross_m = λ a b. a && b;
  columns = λ a b c. c;
  sv_decomp = λ m. (m, m, true);
  mul_m = λ a b. a && b;
  inv = λ m. m;
  scale_m = λ d m. d && m;
  sub_m = xor;
  add_m = xor;
  column = λ x y z. z;
  add_at = λ m i d. xor m d;
}

and_assoc : (a b c : Bool) → ((a && b) && c) ≡ (a && (b && c))
and_assoc true b c = refl
and_assoc false b c = refl

and-xor : (a b c : Bool) → (a && xor b c) ≡ xor (a && b) (a && c)
and-xor true b c = refl
and-xor false b c = refl

and_swap : (a d b : Bool) → (a && (d && b)) ≡ (d && (a && b))
and_swap true d b = refl
and_swap false true b = refl
and_swap false false b = refl

xor_twice : (a b : Bool) → xor (xor a b) b ≡ a
xor_twice true true = refl
xor_twice true false = refl
xor_twice false true = refl
xor_twice false false = refl

xor_self : (a : Bool) → xor a a ≡ false
xor_self true = refl
xor_self false = refl

single-IsLinear : IsLinear bits single
single-IsLinear = record {
  mul_assoc = and_assoc;
  mul_sub = and-xor;
  scale_mul = λ d a b. and_assoc d a b;
  mul_scale = λ d a b. and_swap a d b;
  add_sub = xor_twice;
  at_sub = λ a b i j. refl;
  at_scale = λ d a i j. refl;
  mul_column = λ a b h. refl;
  sub_column = λ a b h k. refl;
  column_column = λ x y z. refl;
  sub_self = xor_self;
}

abbrev corner : Point2i
corner = record { x = pos 3; y = pos 4 }

abbrev pose : HomoTransform bits single
pose = record { tvec = true; rotation = true }

inverse_project_point-seen_example :
    ((inverse_project_point bits single corner true pose).z ≡ false)
    × (seen bits single true pose
          (column_of bits single (inverse_project_point bits single corner true pose))
        ≡ single.scale_m (depth bits single corner true pose) (muv_of bits single corner))
inverse_project_point-seen_example =
    inverse_project_point-seen bits single single-IsLinear corner true pose (λ b. refl) (λ b. refl)
      refl and_true
  where
    and_true : (d : Bool) → ((d && true) && true) ≡ d
    and_true true = refl
    and_true false = refl
