-- ===== src/Ik/Examples.antt =====
-- The theorems on the chain at concrete inputs: three bones, whole numbers for floating-point ones.
use robot_arm.Base.{ℕ, ◌≡◌, refl, true, false, ℤ, [], ◌∷◌, pos, ◌+ℤ◌, ◌-ℤ◌, ◌*ℤ◌, ltb_ℤ, arith}
use robot_arm.Ws.Run.{done}
use robot_arm.Gpio.Examples.Servos.{whole}
use robot_arm.Vec.{Vec3, add_v, sub_v, scale, dot, dist_sqr, normalize}
use robot_arm.Ik.{IkChain, at, resolve}
use robot_arm.Ik.Root.{resolve-stretched}
use robot_arm.Ik.Servos.{Joint, ServoChain}
use robot_arm.Ik.Angles.{IsOrder, Stops, HasBase, ArmStops}
use robot_arm.Ik.Arm.{aim_all, aim_all-Stops}

irreflexive_ℤ : (x : ℤ) → ltb_ℤ x x ≡ false
irreflexive_ℤ x = ground arith

asymmetric_ℤ : (x y : ℤ) → ltb_ℤ x y ≡ true → ltb_ℤ y x ≡ false
asymmetric_ℤ x y l = ground arith

abbrev upwards : ℕ → Vec3 whole
upwards n = record { x = pos 0; y = pos n; z = pos 0 }

abbrev chain : IkChain whole
chain = record {
  bone_count = 3;
  iterations = 10;
  delta = pos 0;
  bone_lengths = pos 1 ∷ pos 1 ∷ [];
  chain_length = pos 2;
  bones = upwards 0 ∷ upwards 1 ∷ upwards 2 ∷ [];
  pole_main = upwards 0;
  poles = upwards 0 ∷ upwards 0 ∷ [];
}

abbrev near : Vec3 whole
near = record { x = pos 1; y = pos 1; z = pos 0 }

abbrev far : Vec3 whole
far = record { x = pos 5; y = pos 0; z = pos 0 }

out_of_reach : ltb_ℤ (pos 2 *ℤ pos 2) (dist_sqr whole far (upwards 0)) ≡ true
unfolding dist_sqr dot sub_v ◌+ℤ◌ ◌-ℤ◌ ◌*ℤ◌
out_of_reach = refl

resolve-stretched_example :
    at whole (resolve whole far chain).bones 2
    ≡ add_v whole
        (at whole (resolve whole far chain).bones 1)
        (scale whole (normalize whole (sub_v whole far (upwards 0))) (pos 1))
resolve-stretched_example = resolve-stretched whole far chain 1 out_of_reach refl (omega arith)

pub whole-IsOrder : IsOrder whole
whole-IsOrder = record {
  irreflexive = λ x. irreflexive_ℤ x;
  asymmetric = λ x y l. asymmetric_ℤ x y l;
}

abbrev pub joint : ℕ → Joint whole
joint n = record {
  axis = upwards n;
  position = upwards n;
  target_angle = pos 1;
  min_angle = pos 0;
  max_angle = pos 3;
  t_max = pos 10;
}

joint-Stops : (n : ℕ) → Stops whole (joint n)
joint-Stops n = record { from_zero = refl; range = refl; above = refl; below = refl }

abbrev pub arm : ServoChain whole
arm = record {
  ideal_chain = chain;
  servos = (joint 1 ∷ joint 0 ∷ []) ∷ (joint 0 ∷ []) ∷ (joint 0 ∷ []) ∷ [];
  positions = upwards 0 ∷ upwards 1 ∷ upwards 2 ∷ [];
  arm_len = pos 1;
  slept = [];
}

aim_all-Stops_example :
    (c : ServoChain whole) × (aim_all whole (pos 0) (near ∷ far ∷ []) arm ≡ done c)
    × HasBase whole c.servos
    × ArmStops whole c.servos
aim_all-Stops_example =
    aim_all-Stops whole whole-IsOrder (pos 0) (near ∷ far ∷ []) arm (1, refl)
      ((joint-Stops 0, tt), (joint-Stops 0, (joint-Stops 0, tt)))
