-- ===== src/Search.antt =====
-- `cam_search_thread` of RaspberryPi/src/arducam_lws.cpp: the camera sweeps from side to side until
-- a face is found.
pub mod Sweep
pub mod Start
mod Examples
use robot_arm.Base.{
  ℕ, zero, suc, ◌+◌, Bool, true, false, ◌||◌, ℤ, pos, negsuc, ◌+ℤ◌, ◌-ℤ◌, ◌*ℤ◌, ltb_ℤ,
  if◌then◌else◌,
}
use robot_arm.Ws.Run.{Run, done, ◌>>=◌}
use robot_arm.Floats.{Floats}
use robot_arm.Gpio.Servo.{ServoAngular, set_width}
use robot_arm.Gpio.Smooth.{Vec2}

abbrev pub step_width : ℤ
step_width = pos 150

abbrev pub servo_cam_y_perp_w : ℤ
servo_cam_y_perp_w = pos 1050

-- The direction of the next step: turned where the step would leave the servo's range.
unfoldable pub next_dir : ℤ → ℤ → ℤ → ℤ → ℤ
next_dir dir width min_width max_width =
    if ltb_ℤ max_width (width +ℤ step_width *ℤ dir) || ltb_ℤ (width +ℤ step_width *ℤ dir) min_width
    then dir *ℤ negsuc 0
    else dir

module _ (fl : Floats) where
  -- `dir` is the static variable; the other fields are globals.
  pub record Search : Type 0 where
    pub dir : ℤ
    pub servo_cam_x : ServoAngular fl
    pub servo_cam_y : ServoAngular fl
    pub cam_ang_orig : Vec2 fl
    pub cam_ang_diff : Vec2 fl

  -- What a round stores, once the camera has turned.
  unfoldable pub turned : ℤ → ServoAngular fl → Search → Search
  turned dir servo s = record s {
    dir = dir;
    servo_cam_x = servo;
    cam_ang_diff = record {
      x = fl.sub (fl.of_int servo.cur_width) s.cam_ang_orig.x;
      y = fl.of_int (s.servo_cam_y.cur_width -ℤ servo_cam_y_perp_w);
    };
  }

  pub search_step : Search → Run Search
  search_step s =
      let dir =
        next_dir s.dir s.servo_cam_x.cur_width s.servo_cam_x.min_width s.servo_cam_x.max_width in
      do
        servo ← set_width fl (s.servo_cam_x.cur_width +ℤ step_width *ℤ dir) s.servo_cam_x
        done (turned dir servo s)

  -- The loop, for as many rounds as pass before a face is found.
  pub search : ℕ → Search → Run Search
  search zero s = done s
  search (suc n) s = do s' ← search_step s; search n s'
