-- ===== src/Gpio/Smooth.antt =====
-- `SmoothServo` and `BezierCurve` of RaspberryPi/src/XNlib/xn_gpio.hpp, `clamp` of xn_vec.hpp.
use robot_arm.Base.{
  ℕ, ◌+◌, Bool, true, false, List, [], ◌∷◌, ◌++◌, ℤ, pos, negsuc, pos_part, neg_part, ◌+ℤ◌, ◌-ℤ◌,
  ◌/ℤ◌, eqb_ℤ, ltb_ℤ, if◌then◌else◌,
}
use robot_arm.Ws.Run.{Run, done, ◌>>=◌}
use robot_arm.Floats.{Floats}
use robot_arm.Gpio.Servo.{ServoAngular, servo_angular, set_width}
pub mod Bounds

-- `std::max(minval, std::min(n, maxval))` on `int`
unfoldable pub clamp : ℤ → ℤ → ℤ → ℤ
clamp n minval maxval =
    let low = if ltb_ℤ maxval n then maxval else n in if ltb_ℤ minval low then low else minval

-- `abs` on `int`
abbrev pub abs : ℤ → ℤ
abs a = pos (pos_part a + neg_part a)

module _ (fl : Floats) where
  open fl use {
    Float, Double, of_int, to_int, add, sub, mul, div, less, widen, narrow, add_d, div_d, of_int_d,
    to_int_d, half, pi,
  }

  pub record Vec2 : Type 0 where
    pub x : Float
    pub y : Float

  pub record BezierCurve : Type 0 where
    pub p0 : Vec2
    pub p1 : Vec2
    pub p2 : Vec2
    pub p3 : Vec2

  abbrev pub zero_f : Float
  zero_f = of_int (pos 0)

  abbrev pub one : Float
  one = of_int (pos 1)

  pub bezier_curve : BezierCurve
  bezier_curve = record {
    p0 = record { x = zero_f; y = zero_f };
    p1 = record { x = narrow half; y = zero_f };
    p2 = record { x = narrow half; y = one };
    p3 = record { x = one; y = one };
  }

  -- One coordinate of `solve`.
  pub solve_at : Float → Float → Float → Float → Float → Float
  solve_at a b c d t =
      let u = sub one t in
      let three = of_int (pos 3) in
      add
        (add (add (mul (mul (mul a u) u) u) (mul (mul (mul (mul b u) u) t) three))
          (mul (mul (mul (mul c u) t) t) three))
        (mul (mul (mul d t) t) t)

  pub solve : Float → BezierCurve → Vec2
  solve t c = record {
    x = solve_at c.p0.x c.p1.x c.p2.x c.p3.x t;
    y = solve_at c.p0.y c.p1.y c.p2.y c.p3.y t;
  }

  -- `axis` and `position` belong to the inverse kinematics and `tid` to the thread; no function here
  -- reads them.
  pub record SmoothServo : Type 0 where
    pub servo : ServoAngular fl
    pub curve : BezierCurve
    pub target_angle : Float
    pub target_prev : Float
    pub prev_reached_target : Float
    pub targetw : ℤ
    pub targetw_prev : ℤ
    pub prev_reached_targetw : ℤ
    pub t : Float
    pub t_max : Float
    pub mid_offset : ℤ

  -- The constructor makes its own servo, with the angles 0 to M_PI.
  unfoldable pub smooth_servo : ServoAngular fl → ℤ → Float → SmoothServo
  smooth_servo servo mid_width t_max =
      let right = narrow (div_d pi (of_int_d (pos 2))) in
      record {
        servo = servo_angular fl servo.ctl_pin servo.min_width servo.max_width zero_f (narrow pi);
        curve = bezier_curve;
        target_angle = right;
        target_prev = right;
        prev_reached_target = right;
        targetw = pos 1500;
        targetw_prev = pos 1500;
        prev_reached_targetw = pos 1500;
        t = zero_f;
        t_max = t_max;
        mid_offset =
            if eqb_ℤ mid_width (pos 0)
            then pos 0
            else mid_width -ℤ (servo.min_width +ℤ servo.max_width) /ℤ pos 2;
      }

  pub ang_to_width_corrected : Float → SmoothServo → ℤ
  ang_to_width_corrected ang s =
      let part = div (sub ang s.servo.min_angle) (sub s.servo.max_angle s.servo.min_angle) in
      to_int (
        add (of_int (s.mid_offset +ℤ s.servo.min_width))
          (mul (of_int (s.servo.max_width -ℤ s.servo.min_width)) part))

  -- The width that `update` commands, with the movement's time at `t`: on the curve from the width
  -- where the movement began to the target.
  pub next_width : Float → SmoothServo → ℤ
  next_width t s =
      let nt_max =
        div (mul s.t_max (of_int (abs (s.targetw -ℤ s.prev_reached_targetw))))
          (of_int (s.servo.max_width -ℤ s.servo.min_width)) in
      let nt = if less one (div t nt_max) then one else div t nt_max in
      let y = (solve nt s.curve).y in
      clamp
        (to_int_d (
          add_d (add_d half (widen (mul (of_int s.prev_reached_targetw) (sub one y))))
            (widen (mul (of_int s.targetw) y))))
        s.servo.min_width s.servo.max_width

  -- The part of `update` behind its tests.
  pub approach : Float → SmoothServo → Run SmoothServo
  approach dt s = do
    servo ← set_width fl (next_width (add s.t dt) s) s.servo
    done (record s {
      servo = servo;
      t = add s.t dt;
      target_prev = s.target_angle;
      targetw_prev = s.targetw;
    })

  pub update : Float → SmoothServo → Run SmoothServo
  update dt s =
      let w = ang_to_width_corrected s.target_angle s in
      let s' = record s { targetw = w } in
      if eqb_ℤ s.servo.cur_width w
      then done (record s' { targetw_prev = w; prev_reached_targetw = w; t = zero_f })
      else if eqb_ℤ w s.targetw_prev
      then approach dt s'
      else approach dt (record s' { prev_reached_targetw = s.servo.cur_width; t = zero_f })
