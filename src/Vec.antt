-- ===== src/Vec.antt =====
-- `vec3` of RaspberryPi/src/XNlib/xn_vec.hpp.
pub mod Flat
use robot_arm.Base.{pos}
use robot_arm.Floats.{Floats}

module _ (fl : Floats) where
  open fl use {Float, of_int, add, sub, mul, div, sqrt, sin, cos}

  pub record Vec3 : Type 0 where
    pub x : Float
    pub y : Float
    pub z : Float

  unfoldable pub origin : Vec3
  origin = record { x = of_int (pos 0); y = of_int (pos 0); z = of_int (pos 0) }

  pub add_v : Vec3 → Vec3 → Vec3
  add_v l r = record { x = add l.x r.x; y = add l.y r.y; z = add l.z r.z }

  unfoldable pub sub_v : Vec3 → Vec3 → Vec3
  sub_v l r = record { x = sub l.x r.x; y = sub l.y r.y; z = sub l.z r.z }

  pub scale : Vec3 → Float → Vec3
  scale l r = record { x = mul l.x r; y = mul l.y r; z = mul l.z r }

  -- A divisor near 0 is reported on the console, and divided by all the same.
  pub divide : Vec3 → Float → Vec3
  divide l r = scale l (div (of_int (pos 1)) r)

  unfoldable pub dot : Vec3 → Vec3 → Float
  dot l r = add (add (mul l.x r.x) (mul l.y r.y)) (mul l.z r.z)

  unfoldable pub dist_sqr : Vec3 → Vec3 → Float
  unfolding sub_v dot
  dist_sqr l r = dot (sub_v l r) (sub_v l r)

  pub dist : Vec3 → Vec3 → Float
  dist l r = sqrt (dist_sqr l r)

  pub mag : Vec3 → Float
  mag v = dist v origin

  pub mag_sqr : Vec3 → Float
  mag_sqr v = dist_sqr v origin

  pub mul_v : Vec3 → Vec3 → Vec3
  mul_v l r = record { x = mul l.x r.x; y = mul l.y r.y; z = mul l.z r.z }

  pub normalize : Vec3 → Vec3
  normalize v = divide v (mag v)

  pub cross : Vec3 → Vec3 → Vec3
  cross l r = record {
    x = sub (mul l.y r.z) (mul l.z r.y);
    y = sub (mul l.z r.x) (mul l.x r.z);
    z = sub (mul l.x r.y) (mul l.y r.x);
  }

  pub rotate_axis : Vec3 → Vec3 → Float → Vec3
  rotate_axis point axis angle =
      add_v (add_v (scale point (cos angle)) (scale (cross axis point) (sin angle)))
        (scale (scale axis (dot axis point)) (sub (of_int (pos 1)) (cos angle)))
