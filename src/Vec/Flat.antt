-- ===== src/Vec/Flat.antt =====
-- `vec2` of RaspberryPi/src/XNlib/xn_vec.hpp, against `vec3` (Vec) on the plane z = 0. `fabs` is C's.
use robot_arm.Base.{◌≡◌, ap, ◌∙◌, Bool, ◌||◌, pos, if◌then◌else◌}
use robot_arm.Floats.{Floats}
use robot_arm.Vec.{Vec3, origin, sub_v, dot, dist_sqr, dist, mag}
use robot_arm.Gpio.Smooth.{Vec2}

module _ (fl : Floats) where
  open fl use {Float, Double, of_int, add, sub, mul, div, sqrt, widen, less_d}

  abbrev pub add_2 : Vec2 fl → Vec2 fl → Vec2 fl
  add_2 l r = record { x = add l.x r.x; y = add l.y r.y }

  abbrev pub sub_2 : Vec2 fl → Vec2 fl → Vec2 fl
  sub_2 l r = record { x = sub l.x r.x; y = sub l.y r.y }

  abbrev pub mul_2 : Vec2 fl → Vec2 fl → Vec2 fl
  mul_2 l r = record { x = mul l.x r.x; y = mul l.y r.y }

  abbrev pub scale_2 : Vec2 fl → Float → Vec2 fl
  scale_2 l r = record { x = mul l.x r; y = mul l.y r }

  -- A divisor near 0 is reported on the console, and divided by all the same.
  abbrev pub divide_2 : Vec2 fl → Float → Vec2 fl
  divide_2 l r = scale_2 l (div (of_int (pos 1)) r)

  abbrev pub dot_2 : Vec2 fl → Vec2 fl → Float
  dot_2 l r = add (mul l.x r.x) (mul l.y r.y)

  abbrev pub dist_sqr_2 : Vec2 fl → Vec2 fl → Float
  dist_sqr_2 l r = let d = sub_2 l r in dot_2 d d

  abbrev pub dist_2 : Vec2 fl → Vec2 fl → Float
  dist_2 l r = sqrt (dist_sqr_2 l r)

  abbrev pub origin_2 : Vec2 fl
  origin_2 = record { x = of_int (pos 0); y = of_int (pos 0) }

  abbrev pub mag_2 : Vec2 fl → Float
  mag_2 v = dist_2 v origin_2

  abbrev pub mag_sqr_2 : Vec2 fl → Float
  mag_sqr_2 v = dist_sqr_2 v origin_2

  abbrev pub normalize_2 : Vec2 fl → Vec2 fl
  normalize_2 v = divide_2 v (mag_2 v)

  module _ (fabs : Float → Float) (epsilon : Double) where
    abbrev pub abs_3 : Vec3 fl → Vec3 fl
    abs_3 v = record { x = fabs v.x; y = fabs v.y; z = fabs v.z }

    abbrev pub abs_2 : Vec2 fl → Vec2 fl
    abs_2 v = record { x = fabs v.x; y = fabs v.y }

    -- `epsilon` is SMEPSILON.
    abbrev pub near_zero : Float → Bool
    near_zero r = less_d (widen (fabs r)) epsilon

    -- With a component of the divisor near 0 the vector is left as it is.
    abbrev pub divide_each_3 : Vec3 fl → Vec3 fl → Vec3 fl
    divide_each_3 l r =
        if near_zero r.x || (near_zero r.y || near_zero r.z)
        then l
        else record { x = div l.x r.x; y = div l.y r.y; z = div l.z r.z }

    abbrev pub divide_each_2 : Vec2 fl → Vec2 fl → Vec2 fl
    divide_each_2 l r =
        if near_zero r.x || near_zero r.y then l else record { x = div l.x r.x; y = div l.y r.y }

  -- The point of the plane z = 0.
  abbrev pub flat : Vec2 fl → Vec3 fl
  flat v = record { x = v.x; y = v.y; z = of_int (pos 0) }

  -- What C's numbers have of 0, but for the sign of a 0.
  pub record HasZero : Type 0 where
    pub sub_zero : sub (of_int (pos 0)) (of_int (pos 0)) ≡ of_int (pos 0)
    pub mul_zero : mul (of_int (pos 0)) (of_int (pos 0)) ≡ of_int (pos 0)
    pub add_zero : (a : Float) → add a (of_int (pos 0)) ≡ a

  dist_sqr-flat : HasZero → (l r : Vec2 fl) → dist_sqr fl (flat l) (flat r) ≡ dist_sqr_2 l r
  unfolding dist_sqr sub_v dot
  dist_sqr-flat h l r =
      ap (add (dist_sqr_2 l r)) (ap (λ d. mul d d) h.sub_zero ∙ h.mul_zero) ∙ h.add_zero _

  -- The length of a vector of the plane is that of the point in space.
  mag-flat : HasZero → (v : Vec2 fl) → mag fl (flat v) ≡ mag_2 v
  unfolding mag dist origin
  mag-flat h v = ap sqrt (dist_sqr-flat h v origin_2)
