-- ===== src/Control/Start.antt =====
-- main of RaspberryPi/src/arm_lws.cpp: the six servos as they are before its loop, and then the loop
-- (Control) beside the threads that move the servos, `move_servo_thread`, in any order. A batch is
-- what the loop does with the messages of one call of `pop_new_messages`.
use robot_arm.Base.{ℕ, none, some, List, [], ◌∷◌, pos, length, get_elem?, set}
use robot_arm.Floats.{Floats}
use robot_arm.Ws.Run.{Run, done, ◌>>=◌}
use robot_arm.Ws.Message.{Message}
use robot_arm.Gpio.Servo.{servo_angular, set_angle}
use robot_arm.Gpio.Smooth.{SmoothServo, smooth_servo, update}
use robot_arm.SmoothArray.{nearly_zero, nearly_pi}
use robot_arm.Control.{dispatch}

module _ (fl : Floats) where
  open fl use {Float, of_int, narrow, pi}

  -- A servo of the array: its constructor gives it the target pi / 2, as the first loop does.
  abbrev pub flat_servo : ℕ → ℕ → SmoothServo fl
  flat_servo pin mid =
      smooth_servo fl (servo_angular fl pin (pos 500) (pos 2500) (of_int (pos 0)) (narrow pi))
        (pos mid) (of_int (pos 10))

  -- A servo that is told an angle at once, and has it for a target.
  abbrev pub told : Float → SmoothServo fl → SmoothServo fl
  told a s = record s { servo = set_angle fl a s.servo; target_angle = a }

  unfoldable pub servos_flat : List (SmoothServo fl)
  servos_flat =
      flat_servo 12 1500
      ∷ flat_servo 13 1420
      ∷ told (nearly_zero fl) (flat_servo 26 1570)
      ∷ told (nearly_pi fl) (flat_servo 16 1420)
      ∷ told (narrow pi) (flat_servo 6 1500)
      ∷ flat_servo 5 1500
      ∷ []

  pub data Turn : Type 0 where
    batch : List Message → Turn
    -- a round of the thread of a servo, with its time step
    thread_tick : ℕ → Float → Turn

  unfoldable pub tick_servo : ℕ → Float → List (SmoothServo fl) → Run (List (SmoothServo fl))
  tick_servo i dt servos = elim (get_elem? servos i) [
    | none ↦ done servos
    | some s ↦ do s' ← update fl dt s; done (set servos i s')
  ]

  unfoldable pub take_turn : Turn → List (SmoothServo fl) → Run (List (SmoothServo fl))
  take_turn (batch ms) servos = dispatch fl (length ms) 0 ms servos
  take_turn (thread_tick i dt) servos = tick_servo i dt servos

  unfoldable pub turns : List Turn → List (SmoothServo fl) → Run (List (SmoothServo fl))
  turns [] servos = done servos
  turns (t ∷ ts) servos = do servos' ← take_turn t servos; turns ts servos'
