-- ===== src/Gpio/Servo/Quotient.antt =====
-- The division of `setWidth` in a range that is not empty.
use robot_arm.Base.{◌≡◌, refl, false, ℤ, pos, ◌-ℤ◌, ◌/ℤ◌, ◌<ℤ◌, eqb_ℤ, arith}
use robot_arm.Ws.Run.{done}
use robot_arm.Gpio.Servo.{quotient}

nonzero : (lo hi : ℤ) → lo <ℤ hi → eqb_ℤ (hi -ℤ lo) (pos 0) ≡ false
unfolding ◌-ℤ◌
nonzero lo hi h = ground arith

pub quotient-nonzero : (a lo hi : ℤ) → lo <ℤ hi → quotient a (hi -ℤ lo) ≡ done (a /ℤ (hi -ℤ lo))
unfolding quotient
quotient-nonzero a lo hi h = rw (nonzero lo hi h) refl
