-- ===== src/SmoothArray/Examples.antt =====
-- The theorem on the wrist at a concrete round, with whole numbers for floating-point ones.
use robot_arm.Base.{◌≡◌, refl, [], ◌∷◌, pos}
use robot_arm.Ws.Run.{done}
use robot_arm.Gpio.Smooth.{SmoothServo}
use robot_arm.Gpio.Examples.Servos.{whole, smooth}
use robot_arm.Ik.Servos.{Joint, ServoChain}
use robot_arm.Ik.Poses.{move_wrist}
use robot_arm.Ik.Examples.{arm, joint}
use robot_arm.SmoothArray.{aim_servo, type_round}
use robot_arm.SmoothArray.Wrist.{typed, IsArm, type_round-move_wrist}

abbrev other : SmoothServo whole
other = record smooth { servo = record smooth.servo { ctl_pin = 26 } }

-- The angles of a joint are those of a servo.
abbrev joint_of : SmoothServo whole → Joint whole
joint_of s = record (joint 0) { target_angle = s.target_angle }

abbrev chain : ServoChain whole
chain = record arm {
  servos =
      (joint 1 ∷ joint_of (typed whole 26 (pos 1) smooth) ∷ [])
      ∷ (joint_of (typed whole 26 (pos 1) other) ∷ [])
      ∷ (joint_of (typed whole 26 (pos 1) smooth) ∷ [])
      ∷ []
      ∷ [];
}

chain-IsArm :
    IsArm whole chain
      (typed whole 26 (pos 1) smooth)
      (typed whole 26 (pos 1) other)
      (typed whole 26 (pos 1) smooth)
chain-IsArm = record {
  base = joint 1;
  joint_p = joint_of (typed whole 26 (pos 1) smooth);
  joint_q = joint_of (typed whole 26 (pos 1) other);
  joint_r = joint_of (typed whole 26 (pos 1) smooth);
  servos = refl;
  base_upright = refl;
  p_across = refl;
  q_across = refl;
  r_across = refl;
  p_same = refl;
  q_same = refl;
  r_same = refl;
}

type_round-move_wrist_example :
    type_round whole 26 (pos 1) (smooth ∷ other ∷ smooth ∷ smooth ∷ [])
    ≡ done (
        typed whole 26 (pos 1) smooth
        ∷ typed whole 26 (pos 1) other
        ∷ typed whole 26 (pos 1) smooth
        ∷ aim_servo whole
            (move_wrist whole chain (joint 0)).target_angle
            (typed whole 26 (pos 1) smooth)
        ∷ [])
type_round-move_wrist_example =
    type_round-move_wrist whole 26 (pos 1) smooth other smooth smooth chain (joint 0) chain-IsArm
