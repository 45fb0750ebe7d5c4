-- ===== src/Gpio/Examples/Servos.antt =====
-- The theorems on the servos at concrete inputs, with whole numbers for floating-point ones.
use robot_arm.Base.{◌≡◌, refl, not, [], ◌∷◌, ℤ, pos, ◌+ℤ◌, ◌-ℤ◌, ◌*ℤ◌, ◌/ℤ◌, ltb_ℤ, ◌<ℤ◌, arith}
use robot_arm.Ws.Run.{done}
use robot_arm.Floats.{Floats}
use robot_arm.Gpio.Servo.{ServoAngular}
use robot_arm.Gpio.Smooth.{SmoothServo, bezier_curve}
use robot_arm.Gpio.Smooth.Bounds.{InRange, aim, tick, run, run-InRange}

abbrev pub whole : Floats
whole = record {
  Float = ℤ;
  Double = ℤ;
  of_int = λ n. n;
  to_int = λ n. n;
  add = λ a b. a +ℤ b;
  sub = λ a b. a -ℤ b;
  mul = λ a b. a *ℤ b;
  div = λ a b. a /ℤ b;
  less = λ a b. ltb_ℤ a b;
  at_least = λ a b. not (ltb_ℤ a b);
  sqrt = λ a. a;
  sin = λ a. a;
  cos = λ a. a;
  atan2 = λ a b. a +ℤ b;
  widen = λ a. a;
  narrow = λ a. a;
  of_int_d = λ n. n;
  to_int_d = λ a. a;
  add_d = λ a b. a +ℤ b;
  mul_d = λ a b. a *ℤ b;
  sub_d = λ a b. a -ℤ b;
  div_d = λ a b. a /ℤ b;
  less_d = λ a b. ltb_ℤ a b;
  at_least_d = λ a b. not (ltb_ℤ a b);
  sqrt_d = λ a. a;
  fmod = λ a b. a -ℤ (a /ℤ b) *ℤ b;
  half = pos 0;
  pi = pos 3;
}

-- A servo of the arm, in the middle of its range.
abbrev pub servo : ServoAngular whole
servo = record {
  cur_width = pos 1500;
  cur_angle = pos 1;
  position_normalized = pos 0;
  ctl_pin = 12;
  min_width = pos 500;
  max_width = pos 2500;
  min_angle = pos 0;
  max_angle = pos 3;
  calls = [];
}

abbrev pub smooth : SmoothServo whole
smooth = record {
  servo = servo;
  curve = bezier_curve whole;
  target_angle = pos 2;
  target_prev = pos 1;
  prev_reached_target = pos 1;
  targetw = pos 1500;
  targetw_prev = pos 1500;
  prev_reached_targetw = pos 1500;
  t = pos 0;
  t_max = pos 10;
  mid_offset = pos 0;
}

range : pos 500 <ℤ pos 2500
range = omega arith

pub smooth-InRange : InRange whole (pos 500) (pos 2500) servo
smooth-InRange = record {
  min_width = refl;
  max_width = refl;
  above = omega arith;
  below = omega arith;
  commanded = tt;
}

run-InRange_example :
    (s' : SmoothServo whole) × (run whole (tick (pos 1) ∷ aim (pos 3) ∷ tick (pos 9) ∷ []) smooth
      ≡ done s')
    × InRange whole (pos 500) (pos 2500) s'.servo
run-InRange_example =
    run-InRange whole (pos 500) (pos 2500) (tick (pos 1) ∷ aim (pos 3) ∷ tick (pos 9) ∷ []) smooth
      range smooth-InRange
