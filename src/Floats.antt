-- ===== src/Floats.antt =====
-- The floating-point arithmetic that the drivers use, as an interface: C's `float` and `double` with
-- their operations and conversions. No law of it is assumed.
use robot_arm.Base.{ℤ, Bool}

pub record Floats : Type 1 where
  pub Float : Type 0
  pub Double : Type 0
  pub of_int : ℤ → Float
  pub to_int : Float → ℤ
  pub add : Float → Float → Float
  pub sub : Float → Float → Float
  pub mul : Float → Float → Float
  pub div : Float → Float → Float
  pub less : Float → Float → Bool
  pub at_least : Float → Float → Bool
  pub sqrt : Float → Float
  pub sin : Float → Float
  pub cos : Float → Float
  pub atan2 : Float → Float → Float
  pub widen : Float → Double
  pub narrow : Double → Float
  pub of_int_d : ℤ → Double
  pub to_int_d : Double → ℤ
  pub add_d : Double → Double → Double
  pub mul_d : Double → Double → Double
  pub sub_d : Double → Double → Double
  pub div_d : Double → Double → Double
  pub less_d : Double → Double → Bool
  pub at_least_d : Double → Double → Bool
  pub sqrt_d : Double → Double
  pub fmod : Double → Double → Double
  -- 0.5 and M_PI
  pub half : Double
  pub pi : Double
