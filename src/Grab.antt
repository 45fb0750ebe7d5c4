-- ===== src/Grab.antt =====
-- `servo_ctl_thread` of RaspberryPi/src/arducam_lws.cpp: the arm takes an object to a face, as the
-- viewer tells it over the TCP link where they are. The waits, and the moves that the main loop makes
-- to `target` at the same time, are left out.
-- `goals` are the targets it is given, with the lengths of the wrist, and `wrist_t_max` is the last
-- of the wrist's times.
pub mod Messages
pub mod Loop
pub mod Start
pub mod Examples
use robot_arm.Base.{ℕ, List, [], ◌∷◌, ◌++◌, ℤ, pos, negsuc, ◌-ℤ◌}
use robot_arm.Floats.{Floats}
use robot_arm.Ws.Run.{Run, done, ◌>>=◌}
use robot_arm.Gpio.Servo.{ServoAngular, set_width}
use robot_arm.Gpio.Smooth.{Vec2}
use robot_arm.Vec.{Vec3, add_v, scale, rotate_axis}
use robot_arm.Ik.Servos.{ServoChain, element}
use robot_arm.Ik.Poses.{stiffy}
use robot_arm.Search.{Search, search}
use robot_arm.Tcp.{Socket, read_int32_t}

-- Three integers in a row.
abbrev pub Point : Type 0
Point = ℤ × ℤ × ℤ

module _ (so : Socket) where
  open so use {State}

  unfoldable pub read_point : ℕ → State → Run (Point × State)
  read_point fuel s = do
    (x, s₁) ← read_int32_t so fuel s
    (y, s₂) ← read_int32_t so fuel s₁
    (z, s₃) ← read_int32_t so fuel s₂
    done ((x, y, z), s₃)

module _ (fl : Floats) where
  open fl use {
    Float, Double, of_int, to_int, div, mul, widen, narrow, of_int_d, add_d, mul_d, div_d, pi,
  }

  -- `cams` has the two servos of the camera with what the search keeps; `sent` are the answers.
  pub record Arm : Type 0 where
    pub chain : ServoChain fl
    pub claw_angle : Float
    pub wrist_t_max : Float
    pub cams : Search fl
    pub goals : List (Vec3 fl × ℤ)
    pub sent : List ℤ

  abbrev pub vec3 : ℤ → ℤ → ℤ → Vec3 fl
  vec3 x y z = record { x = of_int x; y = of_int y; z = of_int z }

  pub w_to_ang : Float
  w_to_ang = narrow (div_d pi (of_int_d (pos 2000)))

  pub claw_open_a : Float
  claw_open_a = mul (of_int (pos 600)) w_to_ang

  pub claw_close_a : Float
  claw_close_a = mul (of_int (pos 1000)) w_to_ang

  -- To the object, around it, and back; the camera looks up, and the answer is -1.
  unfoldable pub fetch : Float → Float → Point → Arm → Run Arm
  fetch upper tip (x, y, z) a = do
    first ← element a.chain.servos 0
    upright ← element first 1
    let target : Vec3 fl = record {
      x = of_int (pos 0 -ℤ x);
      y = of_int (pos 30);
      z = of_int (pos 0 -ℤ y);
    }
    chain ← stiffy fl upper tip a.chain
    servo_cam_y ← set_width fl (pos 1500) a.cams.servo_cam_y
    done (record a {
      chain = chain;
      claw_angle = claw_close_a;
      wrist_t_max = div upright.t_max (of_int (pos 2));
      cams = record a.cams {
        servo_cam_y = servo_cam_y;
        cam_ang_orig = record {
          x = of_int a.cams.servo_cam_x.cur_width;
          y = of_int a.cams.servo_cam_y.cur_width;
        };
      };
      goals = a.goals ++ (target, pos 150) ∷ (target, pos 80) ∷ [];
      sent = a.sent ++ negsuc 0 ∷ [];
    })

  -- The angle of the camera for a difference of widths.
  abbrev pub cam_angle : Float → Float
  cam_angle w =
      narrow
        (div_d (mul_d (widen w) (add_d pi (div_d pi (of_int_d (pos 4))))) (of_int_d (pos 2000)))

  -- The face, as the arm sees it: ten times as far, turned by the camera's angles, from the offset.
  pub face_target : Point → Point → Vec2 fl → Vec3 fl
  face_target (fx, fy, fz) (ofx, ofy, ofz) diff =
      let facet = scale fl (vec3 fx fy fz) (of_int (pos 10)) in
      let up = rotate_axis fl facet (vec3 (pos 1) (pos 0) (pos 0)) (cam_angle diff.y) in
      let round = rotate_axis fl up (vec3 (pos 0) (negsuc 0) (pos 0)) (cam_angle diff.x) in
      add_v fl round (vec3 (pos 0 -ℤ ofx) (pos 0 -ℤ ofz) (pos 0 -ℤ ofy))

  -- The answer -2, to the face, the claw open, and back.
  unfoldable pub hand_over : Float → Float → Point → Point → Arm → Run Arm
  hand_over upper tip face offset a = do
    chain ← stiffy fl upper tip a.chain
    servo_cam_x ← set_width fl (to_int (of_int (pos 1675))) a.cams.servo_cam_x
    servo_cam_y ← set_width fl (to_int (of_int (pos 853))) a.cams.servo_cam_y
    done (record a {
      chain = chain;
      claw_angle = claw_open_a;
      cams = record a.cams { servo_cam_x = servo_cam_x; servo_cam_y = servo_cam_y };
      goals = a.goals ++ (face_target face offset a.cams.cam_ang_diff, pos 10) ∷ [];
      sent = a.sent ++ negsuc 1 ∷ [];
    })

  -- The camera's search, for the rounds that pass before the face is read.
  unfoldable pub look_for : ℕ → Arm → Run Arm
  look_for n a = do cams ← search fl n a.cams; done (record a { cams = cams })

  -- What a round does with the three points that it reads, the search making `n` rounds.
  unfoldable pub serve : Float → Float → ℕ → Point → Point → Point → Arm → Run Arm
  unfolding look_for
  serve upper tip n object offset face a = do
    fetched ← fetch upper tip object a
    looked ← look_for n fetched
    hand_over upper tip face offset looked

module _ (fl : Floats) (so : Socket) where
  open fl use {Float}
  open so use {State}

  -- One round of the loop. The face is read behind the answer -1.
  unfoldable pub servo_ctl_round : Float → Float → ℕ → ℕ → Arm fl → State → Run (Arm fl × State)
  servo_ctl_round upper tip fuel n a s = do
    (object, s₁) ← read_point so fuel s
    (offset, s₂) ← read_point so fuel s₁
    fetched ← fetch fl upper tip object a
    looked ← look_for fl n fetched
    (face, s₃) ← read_point so fuel s₂
    handed ← hand_over fl upper tip face offset looked
    done (handed, s₃)

  -- The loop, for as many rounds as are listed, each with the rounds that its search makes.
  unfoldable pub servo_ctl_rounds :
      Float → Float → ℕ → List ℕ → Arm fl → State → Run (Arm fl × State)
  servo_ctl_rounds upper tip fuel [] a s = done (a, s)
  servo_ctl_rounds upper tip fuel (n ∷ ns) a s = do
    (a', s') ← servo_ctl_round upper tip fuel n a s
    servo_ctl_rounds upper tip fuel ns a' s'
