-- ===== src/SmoothArray/Wrist.antt =====
-- The wrist of the array (SmoothArray) against the one of `ServoChain` (Ik/Poses).
use robot_arm.Base.{ℕ, ◌≡◌, refl, Bool, true, false, [], ◌∷◌, if◌then◌else◌, ◌==◌}
use robot_arm.Floats.{Floats}
use robot_arm.Ws.Run.{done}
use robot_arm.Gpio.Smooth.{SmoothServo}
use robot_arm.Ik.Servos.{Joint, ServoChain}
use robot_arm.Ik.Poses.{move_wrist}
use robot_arm.SmoothArray.{aim_servo, type_round}

module _ (fl : Floats) where
  open fl use {Float, less_d, widen, half}

  abbrev pub typed : ℕ → Float → SmoothServo fl → SmoothServo fl
  typed pin a s = if s.servo.ctl_pin == pin then aim_servo fl a s else s

  -- Whether the joint turns about the upright axis.
  abbrev pub upright : Joint fl → Bool
  upright q = less_d half (widen q.axis.y)

  -- The arm of the chain: a base that turns about the upright axis, and three joints across it.
  pub record IsArm (c : ServoChain fl) (p q r : SmoothServo fl) : Type 0 where
    pub base : Joint fl
    pub joint_p : Joint fl
    pub joint_q : Joint fl
    pub joint_r : Joint fl
    pub servos : c.servos ≡ (base ∷ joint_p ∷ []) ∷ (joint_q ∷ []) ∷ (joint_r ∷ []) ∷ [] ∷ []
    pub base_upright : upright base ≡ true
    pub p_across : upright joint_p ≡ false
    pub q_across : upright joint_q ≡ false
    pub r_across : upright joint_r ≡ false
    pub p_same : joint_p.target_angle ≡ p.target_angle
    pub q_same : joint_q.target_angle ≡ q.target_angle
    pub r_same : joint_r.target_angle ≡ r.target_angle

  -- After a round on a pin and an angle the servos of the pin but the last have the angle, the other
  -- ones but the last are as they were, and the last has the angle that `ServoChain` gives the wrist
  -- of an arm with the same angles, whatever the floating-point operations.
  pub type_round-move_wrist :
      (pin : ℕ) (a : Float) (p q r s : SmoothServo fl) (c : ServoChain fl) (wrist : Joint fl)
      → IsArm c (typed pin a p) (typed pin a q) (typed pin a r)
      → type_round fl pin a (p ∷ q ∷ r ∷ s ∷ [])
        ≡ done (
            typed pin a p
            ∷ typed pin a q
            ∷ typed pin a r
            ∷ aim_servo fl (move_wrist fl c wrist).target_angle (typed pin a s)
            ∷ [])
  unfolding type_round move_wrist
  type_round-move_wrist pin a p q r s c wrist arm =
      rw
        (
          arm.servos, arm.base_upright, arm.p_across, arm.q_across, arm.r_across, arm.p_same,
          arm.q_same, arm.r_same,
        )
        refl
