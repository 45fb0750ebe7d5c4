-- ===== src/SmoothArray.antt =====
-- RaspberryPi/src/servo_smooth_array.cpp: four smooth servos, the last of them the wrist, which
-- follows the other three. The threads that move the servos are those of Gpio/Smooth; the waits and
-- what is printed are left out.
mod Wrist
mod Examples
use robot_arm.Base.{ℕ, zero, suc, ◌==◌, List, [], ◌∷◌, pos, negsuc, if◌then◌else◌}
use robot_arm.Floats.{Floats}
use robot_arm.Ws.Run.{Run, done, bad_pointer, ◌>>=◌}
use robot_arm.Gpio.Servo.{servo_angular, set_position, set_angle}
use robot_arm.Gpio.Smooth.{SmoothServo, smooth_servo}
use robot_arm.Ik.Poses.{right_angle}

module _ (fl : Floats) where
  open fl use {
    Float, Double, of_int, add, mul, widen, narrow, of_int_d, sub_d, mul_d, div_d, half, pi,
  }

  abbrev pub aim_servo : Float → SmoothServo fl → SmoothServo fl
  aim_servo a s = record s { target_angle = a }

  -- 0.1 and M_PI*0.99
  abbrev pub nearly_zero : Float
  nearly_zero = narrow (div_d (of_int_d (pos 1)) (of_int_d (pos 10)))

  abbrev pub nearly_pi : Float
  nearly_pi = narrow (mul_d pi (div_d (of_int_d (pos 99)) (of_int_d (pos 100))))

  abbrev servo_at : ℕ → ℕ → SmoothServo fl
  servo_at pin mid =
      smooth_servo fl (servo_angular fl pin (pos 500) (pos 2500) (of_int (pos 0)) (narrow pi))
        (pos mid) (of_int (pos 10))

  -- `servos` as main leaves them before its loop.
  unfoldable pub start : List (SmoothServo fl)
  start =
      (let s = aim_servo (right_angle fl) (servo_at 13 1600) in
        record s { servo = set_position fl (narrow half) s.servo })
      ∷ (let s = aim_servo nearly_zero (servo_at 26 1570) in
          record s { servo = set_angle fl nearly_zero s.servo })
      ∷ (let s = aim_servo nearly_pi (servo_at 16 1500) in
          record s { servo = set_angle fl nearly_pi s.servo })
      ∷ (let s = aim_servo nearly_zero (servo_at 6 1500) in
          record s { servo = set_angle fl nearly_zero s.servo })
      ∷ []

  -- The servos of the pin get the angle.
  unfoldable pub aim_pin : ℕ → Float → List (SmoothServo fl) → List (SmoothServo fl)
  aim_pin pin a [] = []
  aim_pin pin a (s ∷ ss) = (if s.servo.ctl_pin == pin then aim_servo a s else s) ∷ aim_pin pin a ss

  -- The sum `pt` of the servos from `i` on, `k` of them.
  unfoldable pub bend_sum : ℕ → ℕ → List (SmoothServo fl) → Float → Run Float
  bend_sum zero i ss pt = done pt
  bend_sum (suc k) i [] pt = bad_pointer
  bend_sum (suc k) i (s ∷ ss) pt =
      let fac = narrow (sub_d (widen s.target_angle) (div_d pi (of_int_d (pos 2)))) in
      bend_sum k (suc i) ss (add pt (if i == 2 then fac else mul fac (of_int (negsuc 0))))

  -- `servos[num_servos - 1].target_angle = a`
  unfoldable pub aim_last : Float → List (SmoothServo fl) → List (SmoothServo fl)
  aim_last a [] = []
  aim_last a (s ∷ []) = aim_servo a s ∷ []
  aim_last a (s ∷ r ∷ ss) = s ∷ aim_last a (r ∷ ss)

  -- One round of the loop, for the pin and the angle that are typed.
  unfoldable pub type_round : ℕ → Float → List (SmoothServo fl) → Run (List (SmoothServo fl))
  unfolding aim_pin bend_sum aim_last
  type_round pin a ss =
      let aimed = aim_pin pin a ss in
      bend_sum 3 0 aimed (of_int (pos 0)) >>= λ pt.
      done (aim_last (narrow (sub_d pi (widen pt))) aimed)

  unfoldable pub type_rounds :
      List (ℕ × Float) → List (SmoothServo fl) → Run (List (SmoothServo fl))
  type_rounds [] ss = done ss
  type_rounds ((pin, a) ∷ typed) ss = do ss' ← type_round pin a ss; type_rounds typed ss'

  -- What the handler of an interrupt does to the servos.
  unfoldable pub stop : List (SmoothServo fl) → Run (List (SmoothServo fl))
  stop (p ∷ q ∷ r ∷ s ∷ []) = done (
      aim_servo (right_angle fl) p
      ∷ aim_servo nearly_zero q
      ∷ aim_servo nearly_pi r
      ∷ aim_servo nearly_zero s
      ∷ [])
  stop ss = bad_pointer
