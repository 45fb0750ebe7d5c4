-- ===== src/Viewer/Watch.antt =====
-- The loop of main in Windows/RobotController/StreamTest.cpp: a face, the board, the object that is
-- followed, and what is sent to the arm for them.
use robot_arm.Base.{
  ℕ, zero, suc, ◌==◌, Bool, true, Option, none, some, List, [], ◌∷◌, ◌++◌, map, ℤ, pos, negsuc,
  eqb_ℤ, if◌then◌else◌, length,
}
use robot_arm.Floats.{Floats}
use robot_arm.Ws.Run.{Run, done, assert_failed, ◌>>=◌}
use robot_arm.Detect.{Vision, YoloInfo, TrackingInfo}
use robot_arm.Detect.Track.{Outs, postprocess}
use robot_arm.Viewer.{Mats, Point3d, Point2d}
use robot_arm.Viewer.Homo.{HomoTransform, get_homo_transform, inverse_project_point, face_3d}

-- The landmarks of a face, in the order of the points of the model.
abbrev pub landmarks : List ℕ
landmarks = 17 ∷ 21 ∷ 22 ∷ 26 ∷ 36 ∷ 39 ∷ 42 ∷ 45 ∷ 31 ∷ 35 ∷ 48 ∷ 54 ∷ 57 ∷ 8 ∷ []

-- The keys e and escape.
abbrev pub key_e : ℤ
key_e = pos 101

abbrev pub key_escape : ℤ
key_escape = pos 27

module _ (fl : Floats) (ms : Mats fl) (cv : Vision fl) where
  open fl use {Float, Double, of_int, of_int_d, to_int_d, mul}
  open ms use {Mat, at, mul_m, scale_m, add_at}

  -- What the loop takes from dlib and OpenCV: an empty picture, the faces in one, a face's landmarks,
  -- `solvePnP`, the corners of the board in a picture, `undistortPoints` with `findHomography`, and the
  -- network's view of a picture with the picture's size.
  pub record Eyes : Type 1 where
    pub Picture : Type 0
    pub Face : Type 0
    pub Corners : Type 0
    pub is_empty : Picture → Bool
    pub detector : Picture → List Face
    pub part : Picture → Face → ℕ → ℤ × ℤ
    pub solve_pnp : List (Point3d fl) → List (Point2d fl) → Mat → Mat → Mat
    pub find_corners : Picture → Option Corners
    pub find_homography : List (Float × Float) → Corners → Mat → Mat → Mat
    pub forward : Picture → ℤ × ℤ × Outs fl cv

  -- What main reads before its loop.
  pub record Intrinsics : Type 0 where
    pub camera_matrix : Mat
    pub dist_coeffs : Mat
    pub yo : YoloInfo fl
    pub out_layers : ℕ

  -- The variables of the loop; `facepoints` is empty between its rounds.
  pub record Watch : Type 0 where
    pub found : Bool
    pub trans : HomoTransform fl ms
    pub track : TrackingInfo fl cv
    pub world : Point3d fl
    pub facepoints : List (Point2d fl)
    pub sent : List ℤ

  -- `objectPointsPlanar`, row by row: `k` rows from the row `i` on, of `n` points from the column `j`.
  pub board_row : ℕ → ℕ → ℕ → List (Float × Float)
  board_row zero i j = []
  board_row (suc n) i j =
      (mul (of_int (pos j)) (of_int (pos 21)), mul (of_int (pos i)) (of_int (pos 21)))
      ∷ board_row n i (suc j)

  pub board_rows : ℕ → ℕ → List (Float × Float)
  unfolding board_row
  board_rows zero i = []
  board_rows (suc k) i = board_row 4 i 0 ++ board_rows k (suc i)

module _ (fl : Floats) (ms : Mats fl) (cv : Vision fl) (eyes : Eyes fl ms cv) where
  open fl use {Float, Double, of_int, of_int_d, to_int_d}
  open ms use {Mat, at, mul_m, scale_m, add_at}
  open eyes use {
    Picture, Face, Corners, is_empty, detector, part, solve_pnp, find_corners, find_homography,
    forward,
  }

  -- What a round reads: the last picture, the state that the arm has sent, and the two answers of
  -- `waitKey`.
  pub record Glance : Type 0 where
    pub picture : Picture
    pub arm_state : ℤ
    pub key : ℤ
    pub last_key : ℤ

  -- A 3 x 1 matrix, as the three integers that are sent.
  unfoldable pub ints_of : Mat → List ℤ
  ints_of m = to_int_d (at m 0 0) ∷ to_int_d (at m 1 0) ∷ to_int_d (at m 2 0) ∷ []

  unfoldable pub world_of : Point3d fl → List ℤ
  world_of p = to_int_d p.x ∷ to_int_d p.y ∷ to_int_d p.z ∷ []

  unfoldable pub face_points : Picture → Face → List (Point2d fl)
  face_points p f =
      map (λ i. record { x = of_int_d (part p f i).0; y = of_int_d (part p f i).1 }) landmarks

  -- The first face. `solvePnP` asserts that it has as many points of the picture as of the model.
  unfoldable pub look_at_face : Intrinsics fl ms cv → Glance → Watch fl ms cv → Run (Watch fl ms cv)
  look_at_face cam g w = elim (detector g.picture) [
    | [] ↦ done w
    | f ∷ _ ↦
        let points = w.facepoints ++ face_points g.picture f in
        let translation = solve_pnp (face_3d fl) points cam.camera_matrix cam.dist_coeffs in
        if length points == length (face_3d fl)
        then done (record w {
          sent = if eqb_ℤ g.arm_state (negsuc 0) then w.sent ++ ints_of translation else w.sent;
          facepoints = [];
        })
        else assert_failed
  ]

  -- The pose of the board, lifted by 20 along the second axis.
  unfoldable pub look_at_board : Intrinsics fl ms cv → Glance → Watch fl ms cv → Watch fl ms cv
  look_at_board cam g w = elim (find_corners g.picture) [
    | none ↦ w
    | some corners ↦
        let h =
          find_homography (board_rows fl ms cv 3 0) corners cam.camera_matrix cam.dist_coeffs in
        let t = get_homo_transform fl ms h in
        record w { found = true; trans = record t { tvec = add_at t.tvec 1 (of_int_d (pos 20)) } }
  ]

  -- `tv_oframe`: the board's origin, as the arm has it.
  abbrev pub offset_of : HomoTransform fl ms → Mat
  offset_of t = scale_m (of_int_d (negsuc 0)) (mul_m t.rotation t.tvec)

  -- The object's place on the board, which the key e sends, with the offset.
  unfoldable pub point_out : Intrinsics fl ms cv → Glance → Watch fl ms cv → Watch fl ms cv
  point_out cam g w =
      let p = inverse_project_point fl ms w.track.base cam.camera_matrix w.trans in
      record w {
        world = p;
        sent =
            if eqb_ℤ g.key key_e
            then w.sent ++ (world_of p ++ ints_of (offset_of w.trans))
            else w.sent;
      }

  unfoldable pub follow_object :
      Intrinsics fl ms cv → Glance → Watch fl ms cv → Run (Watch fl ms cv)
  follow_object cam g w = do
    let (cols, rows, outs) = forward g.picture
    track ← postprocess fl cv cam.out_layers cols rows outs cam.yo w.track
    let w' : Watch fl ms cv = record w { track = track }
    done (if track.in_frame then point_out cam g w' else w')

  -- Once the board has been found.
  unfoldable pub look_for_object :
      Intrinsics fl ms cv → Glance → Watch fl ms cv → Run (Watch fl ms cv)
  look_for_object cam g w = if w.found then follow_object cam g w else done w

  unfoldable pub watch_round : Intrinsics fl ms cv → Glance → Watch fl ms cv → Run (Watch fl ms cv)
  watch_round cam g w = do w' ← look_at_face cam g w; look_for_object cam g (look_at_board cam g w')

  -- The loop: an empty picture starts the next round at once, the escape key ends it.
  unfoldable pub watch : Intrinsics fl ms cv → List Glance → Watch fl ms cv → Run (Watch fl ms cv)
  watch cam [] w = done w
  watch cam (g ∷ gs) w =
      let rest = watch cam gs in
      if is_empty g.picture
      then rest w
      else watch_round cam g w >>= λ w'. if eqb_ℤ g.last_key key_escape then done w' else rest w'
