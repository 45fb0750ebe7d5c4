-- ===== src/Gpio/Servo.antt =====
-- `ServoAngular` and `ServoContinuous` of RaspberryPi/src/XNlib/xn_gpio.hpp, in the build that drives
-- the pins. The calls of `gpioServo` are a log of pins and widths; what it returns is passed on, and
-- no caller reads it.
pub mod Quotient
pub mod Position
use robot_arm.Base.{
  ℕ, ◌+◌, Bool, true, false, List, [], ◌∷◌, ◌++◌, ℤ, pos, ◌+ℤ◌, ◌-ℤ◌, ◌/ℤ◌, eqb_ℤ, ltb_ℤ,
  if◌then◌else◌,
}
use robot_arm.Ws.Run.{Run, done, divided_by_zero, ◌>>=◌}
use robot_arm.Floats.{Floats}

-- An integer division of the source.
unfoldable pub quotient : ℤ → ℤ → Run ℤ
quotient a b = if eqb_ℤ b (pos 0) then divided_by_zero else done (a /ℤ b)

module _ (fl : Floats) where
  open fl use {Float, Double, of_int, to_int, add, sub, mul, div, less, narrow, half, pi}

  pub record ServoAngular : Type 0 where
    pub cur_width : ℤ
    pub cur_angle : Float
    pub position_normalized : Float
    pub ctl_pin : ℕ
    pub min_width : ℤ
    pub max_width : ℤ
    pub min_angle : Float
    pub max_angle : Float
    pub calls : List (ℕ × ℤ)

  unfoldable pub servo_angular : ℕ → ℤ → ℤ → Float → Float → ServoAngular
  servo_angular ctl_pin min_width max_width min_angle max_angle = record {
    cur_width = (min_width +ℤ max_width) /ℤ pos 2;
    cur_angle = div (add min_angle max_angle) (of_int (pos 2));
    position_normalized = narrow half;
    ctl_pin = ctl_pin;
    min_width = min_width;
    max_width = max_width;
    min_angle = min_angle;
    max_angle = max_angle;
    calls = [];
  }

  -- `gpioServo(ctl_pin, cur_width)`
  unfoldable pub command : ServoAngular → ServoAngular
  command s = record s { calls = s.calls ++ (s.ctl_pin, s.cur_width) ∷ [] }

  -- What `setWidth` stores and commands, with the quotient that it takes for the position.
  unfoldable pub store_width : ℤ → ℤ → ServoAngular → ServoAngular
  unfolding command
  store_width w q s = command (record s {
    cur_width = w;
    position_normalized = of_int q;
    cur_angle = add s.min_angle (mul (of_int q) (sub s.max_angle s.min_angle));
  })

  unfoldable pub set_width : ℤ → ServoAngular → Run ServoAngular
  set_width w s = do
    q ← quotient (w -ℤ s.min_width) (s.max_width -ℤ s.min_width)
    done (store_width w q s)

  -- The width at a part `t` of the range.
  unfoldable pub width_at : Float → ServoAngular → ℤ
  width_at t s = to_int (add (of_int s.min_width) (mul (of_int (s.max_width -ℤ s.min_width)) t))

  pub set_position : Float → ServoAngular → ServoAngular
  set_position t s = command (record s {
    position_normalized = t;
    cur_width = width_at t s;
    cur_angle = add s.min_angle (mul (sub s.max_angle s.min_angle) t);
  })

  unfoldable pub set_angle : Float → ServoAngular → ServoAngular
  set_angle a s =
      let t = div (sub a s.min_angle) (sub s.max_angle s.min_angle) in
      command (record s { cur_angle = a; position_normalized = t; cur_width = width_at t s })

  pub move_angle : Float → ServoAngular → ServoAngular
  move_angle a s = set_angle (add s.cur_angle a) s

  pub move_position : Float → ServoAngular → ServoAngular
  move_position a s = set_position (add s.position_normalized a) s

  pub move_width : ℤ → ServoAngular → Run ServoAngular
  move_width w s = set_width (s.cur_width +ℤ w) s

  pub get_width : ServoAngular → ℤ
  get_width s = s.cur_width

  pub get_position : ServoAngular → Float
  get_position s = s.position_normalized

  pub get_angle : ServoAngular → Float
  get_angle s = s.cur_angle

  pub record ServoContinuous : Type 0 where
    pub base : ServoAngular
    pub idle_width : ℤ

  pub servo_continuous : ℕ → ℤ → ℤ → ℤ → ServoContinuous
  servo_continuous ctl_pin min_width max_width idle_width = record {
    base =
        command (record (servo_angular ctl_pin min_width max_width (of_int (pos 0)) (narrow pi)) {
          cur_width = idle_width;
        });
    idle_width = idle_width;
  }

  -- What `setWidth` stores as the position.
  pub position_of_width : ℤ → ServoContinuous → Run ℤ
  position_of_width w c =
      if ltb_ℤ w c.idle_width
      then quotient (w -ℤ c.idle_width) (c.idle_width -ℤ c.base.min_width)
      else if ltb_ℤ c.idle_width w
      then quotient (w -ℤ c.idle_width) (c.base.max_width -ℤ c.idle_width)
      else done (pos 0)

  pub set_width_continuous : ℤ → ServoContinuous → Run ServoContinuous
  set_width_continuous w c = do
    q ← position_of_width w c
    done (record c {
      base = command (record c.base { cur_width = w; position_normalized = of_int q });
    })

  pub set_width_from_center : ℤ → ServoContinuous → Run ServoContinuous
  set_width_from_center offset_w c = set_width_continuous (c.idle_width +ℤ offset_w) c

  pub set_position_continuous : Float → ServoContinuous → ServoContinuous
  set_position_continuous t c =
      let neg_range = of_int (c.idle_width -ℤ c.base.min_width) in
      let pos_range = of_int (c.base.max_width -ℤ c.idle_width) in
      let w =
        if less t (of_int (pos 0))
        then to_int (add (of_int c.base.min_width) (mul neg_range (add (of_int (pos 1)) t)))
        else if less (of_int (pos 0)) t
        then to_int (add (of_int c.idle_width) (mul pos_range t))
        else c.idle_width in
      record c { base = command (record c.base { position_normalized = t; cur_width = w }) }
