-- ===== src/Search/Start.antt =====
-- The camera's two servos as the globals and main of RaspberryPi/src/arducam_lws.cpp leave them before
-- the threads start.
use robot_arm.Base.{ℕ, ◌≡◌, refl, inr, ℤ, pos, negsuc, ◌+ℤ◌, ◌≤ℤ◌, ◌/ℤ◌, int_laws}
use robot_arm.Ws.Run.{Run, done, ◌>>=◌}
use robot_arm.Floats.{Floats}
use robot_arm.Gpio.Servo.{ServoAngular, servo_angular, set_width}
use robot_arm.Gpio.Smooth.Bounds.{InRange, set_width-InRange}
use robot_arm.Search.{Search, search}
use robot_arm.Search.Sweep.{IsSearch, search-IsSearch}

module _ (fl : Floats) where
  open fl use {Float, of_int, to_int, narrow, pi}

  -- `servo_cam_x`, `servo_cam_y`: pins 23 and 24
  unfoldable pub cam_servo : ℕ → ServoAngular fl
  cam_servo pin = servo_angular fl pin (pos 500) (pos 2500) (of_int (pos 0)) (narrow pi)

  abbrev pub at_rest : ServoAngular fl → ServoAngular fl → Search fl
  at_rest x y = record {
    dir = negsuc 0;
    servo_cam_x = x;
    servo_cam_y = y;
    cam_ang_orig = record { x = of_int (pos 0); y = of_int (pos 0) };
    cam_ang_diff = record { x = of_int (pos 0); y = of_int (pos 0) };
  }

  -- main gives `setWidth` the coordinates of `servo_cam_origin`, which are floats.
  unfoldable pub cams_start : Run (Search fl)
  cams_start = do
    x ← set_width fl (to_int (of_int (pos 1675))) (cam_servo 23)
    y ← set_width fl (to_int (of_int (pos 853))) (cam_servo 24)
    done (at_rest x y)

  cam_servo-InRange : (pin : ℕ) → InRange fl (pos 500) (pos 2500) (cam_servo pin)
  unfolding cam_servo servo_angular ◌/ℤ◌ ◌+ℤ◌
  cam_servo-InRange pin = record {
    min_width = refl;
    max_width = refl;
    above = omega int_laws;
    below = omega int_laws;
    commanded = tt;
  }

  cam_servo-set_width :
      (w : ℤ) (pin : ℕ)
      → pos 500 ≤ℤ w
      → w ≤ℤ pos 2500
      → (s' : ServoAngular fl) × (set_width fl w (cam_servo pin) ≡ done s')
        × InRange fl (pos 500) (pos 2500) s'
  cam_servo-set_width w pin above below =
      let (s', e, range, _, _) =
        set_width-InRange fl (pos 500) (pos 2500) w (cam_servo pin) (omega int_laws)
          (cam_servo-InRange pin) above below in
      (s', e, range)

  -- If a float holds 1675 and 853, main's camera is set up and sweeps in its range from there on.
  pub cams_start-IsSearch :
      (n : ℕ)
      → to_int (of_int (pos 1675)) ≡ pos 1675
      → to_int (of_int (pos 853)) ≡ pos 853
      → (s s' : Search fl) × (cams_start ≡ done s)
        × (search fl n s ≡ done s')
        × IsSearch fl (pos 500) (pos 2500) s'
  unfolding cams_start
  cams_start-IsSearch n hx hy =
      let (x, ex, range) = cam_servo-set_width (pos 1675) 23 (omega int_laws) (omega int_laws) in
      let (y, ey, _) = cam_servo-set_width (pos 853) 24 (omega int_laws) (omega int_laws) in
      let (s', e, i) =
        search-IsSearch fl n (pos 500) (pos 2500) (at_rest x y) (omega int_laws)
          (record { dir = inr refl; range = range }) in
      (at_rest x y, s', rw (hx, hy, ex, ey) refl, e, i)
