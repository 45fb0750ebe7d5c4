-- ===== src/Viewer/Examples/Run.antt =====
-- A run of the viewer: a picture with the board, on which the key e is pressed, then one with a face,
-- for which the arm waits.
use robot_arm.Base.{
  ℕ, ◌≡◌, refl, false, none, some, List, [], ◌∷◌, ◌++◌, ℤ, pos, negsuc, ◌+ℤ◌, ◌-ℤ◌, ◌*ℤ◌, ◌/ℤ◌,
  ◌==◌, if◌then◌else◌, All, arith,
}
use robot_arm.Ws.Run.{Run, done, ◌>>=◌}
use robot_arm.Gpio.Examples.Servos.{whole}
use robot_arm.Detect.Track.{regions, postprocess, decode, decode_regions, draw_all, draw_pred}
use robot_arm.Detect.Decode.{region, region_box}
use robot_arm.Detect.Suppress.{suppress, suppress_all, suppress_class, group, push_index}
use robot_arm.Detect.Examples.{numbers, first_only-Keeps, place_zero, yolo, track, rows}
use robot_arm.Tcp.Examples.{socket, pending, socket-IsStream}
use robot_arm.Grab.{servo_ctl_rounds}
use robot_arm.Grab.Messages.{Exchange, exchange, serve_all}
use robot_arm.Grab.Examples.{grabber}
use robot_arm.Viewer.{Mats}
use robot_arm.Viewer.Homo.{
  get_homo_transform, column_norm, inverse_project_point, back_projected, depth, face_3d,
}
use robot_arm.Viewer.Watch.{
  Eyes, Intrinsics, Watch, Glance, ints_of, world_of, face_points, look_at_face, look_at_board,
  point_out, follow_object, look_for_object, watch_round, watch,
}
use robot_arm.Viewer.Points.{Saying, flatten, aim_of, face_answer, Says, IsSight, IsReady}
use robot_arm.Viewer.Sent.{watch-Says}
use robot_arm.Viewer.Served.{send_ints, in_turn, watch-serve_all}

abbrev number : Mats whole
number = record {
  Mat = ℤ;
  at = λ m i j. m;
  div_m = λ m d. m;
  col = λ m j. m;
  cross_m = λ a b. a;
  columns = λ a b c. c;
  sv_decomp = λ m. (m, m, pos 1);
  mul_m = λ a b. a *ℤ b;
  inv = λ m. m;
  scale_m = λ d m. d *ℤ m;
  sub_m = λ a b. a -ℤ b;
  add_m = λ a b. a +ℤ b;
  column = λ x y z. z;
  add_at = λ m i d. m +ℤ d;
}

-- The picture 1 has the board, the picture 2 a face; 0 is empty.
abbrev eyes : Eyes whole number numbers
eyes = record {
  Picture = ℕ;
  Face = ℕ;
  Corners = ℕ;
  is_empty = λ p. p == 0;
  detector = λ p. if p == 2 then 7 ∷ [] else [];
  part = λ p f i. (pos 5, pos 6);
  solve_pnp = λ model points cam dist. pos 40;
  find_corners = λ p. if p == 1 then some 4 else none;
  find_homography = λ board corners cam dist. pos 3;
  forward = λ p. (pos 10, pos 8, regions (rows ∷ []));
}

abbrev cam : Intrinsics whole number numbers
cam = record { camera_matrix = pos 1; dist_coeffs = pos 0; yo = yolo; out_layers = 1 }

abbrev begin : Watch whole number numbers
begin = record {
  found = false;
  trans = record { tvec = pos 0; rotation = pos 0 };
  track = track;
  world = record { x = pos 0; y = pos 0; z = pos 0 };
  facepoints = [];
  sent = [];
}

abbrev glances : List (Glance whole number numbers eyes)
glances =
    record { picture = 0; arm_state = pos 0; key = pos 0; last_key = pos 0 }
    ∷ record { picture = 1; arm_state = pos 0; key = pos 101; last_key = pos 0 }
    ∷ record { picture = 2; arm_state = negsuc 0; key = pos 0; last_key = pos 27 }
    ∷ []

begin-IsReady : IsReady whole number numbers eyes 2 begin
begin-IsReady = record { empty = refl; classes = omega arith }

glances-IsSight : All (IsSight whole number numbers eyes 2) glances
glances-IsSight = (
  (rows ∷ [], refl, ((refl, (refl, tt)), tt)),
  ((rows ∷ [], refl, ((refl, (refl, tt)), tt)), ((rows ∷ [], refl, ((refl, (refl, tt)), tt)), tt)),
)

watch-Says_example :
    (w' : Watch whole number numbers) × (ps : List Saying) × (watch whole number numbers eyes cam
        glances begin
      ≡ done w')
    × (w'.sent ≡ [] ++ flatten ps)
    × Says whole number numbers eyes cam glances (aim_of whole number numbers eyes begin) ps
watch-Says_example =
    watch-Says whole number numbers eyes place_zero first_only-Keeps cam glances 2 begin
      (omega arith) glances-IsSight begin-IsReady

result : Run (Watch whole number numbers) → Watch whole number numbers
result (done w) = w
result _ = begin

last : Watch whole number numbers
last = result (watch whole number numbers eyes cam glances begin)

-- What they mean: the object, the offset and the face of one round of the arm, whose search makes 2.
abbrev turns : List Exchange
turns =
    exchange 2 (pos 0, pos 0, pos 0) (negsuc 68, negsuc 68, negsuc 68) (pos 40, pos 40, pos 40) ∷ []

last_lem :
    (watch whole number numbers eyes cam glances begin ≡ done last)
    × Says whole number numbers eyes cam glances
        (aim_of whole number numbers eyes begin)
        (in_turn turns)
unfolding last result watch watch_round look_at_face look_at_board look_for_object follow_object
    point_out world_of ints_of face_points face_3d get_homo_transform column_norm
    inverse_project_point back_projected depth postprocess decode decode_regions draw_all draw_pred
    region region_box suppress suppress_all suppress_class group push_index ◌+ℤ◌ ◌-ℤ◌ ◌*ℤ◌ ◌/ℤ◌
    face_answer
last_lem = (
  refl,
  (_, _, _, refl, (refl, refl, (refl, refl)), (_, _, _, refl, (refl, refl, (refl, refl)), refl)),
)

watch-serve_all_example :
    (s : List ℕ) × (servo_ctl_rounds whole socket
        (pos 1)
        (pos 2)
        4
        (2 ∷ [])
        grabber
        (send_ints last.sent ++ 9 ∷ [])
      ≡ (serve_all whole (pos 1) (pos 2) turns grabber >>= λ a. done (a, s)))
    × (s ≡ 9 ∷ [])
watch-serve_all_example =
    watch-serve_all whole number numbers eyes place_zero first_only-Keeps socket pending
      socket-IsStream cam glances 2 begin last (pos 1) (pos 2) 4 turns (9 ∷ []) grabber
      (send_ints last.sent ++ 9 ∷ []) (omega arith) glances-IsSight begin-IsReady refl last_lem.0
      last_lem.1
      (
        (
          (omega arith, omega arith, omega arith),
          (omega arith, omega arith, omega arith),
          (omega arith, omega arith, omega arith),
        ),
        tt,
      )
      (omega arith) refl
