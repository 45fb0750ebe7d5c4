-- ===== src/Calib/Saved.antt =====
-- `saveCameraParams` of Windows/XNlib/include/cam_calib.hpp: what the file of the calibration holds.
-- Its comments are left out, and so is the test that the two kinds of vectors have one type. The
-- time is an argument, and so are the three numbers of a 3 x 1 matrix. `readCameraInfo` of
-- Windows/XNlib/include/xn_homo.hpp reads the file, as main of StreamTest.cpp does before its loop.
use robot_arm.Base.{
  ℕ, ◌==◌, ltb, Bool, true, false, not, ◌&&◌, ◌||◌, Option, none, some, List, [], ◌∷◌, ◌++◌, map, ℤ,
  if◌then◌else◌, length,
}
use robot_arm.Floats.{Floats}
use robot_arm.Ws.Run.{Run, done, bad_pointer, ◌>>=◌}
use robot_arm.Calib.{Text, Size, Constants, Settings, has}
use robot_arm.Calib.Board.{Point3}
use robot_arm.Calib.Errors.{Camera, Opencv}
use robot_arm.Calib.Solve.{Calibration}

-- The names in the file.
pub data Name : Type 0 where
  calibration_time nr_of_frames image_width image_height board_width board_height : Name
  square_size fix_aspect_ratio flags fisheye_model camera_matrix : Name
  distortion_coefficients avg_reprojection_error per_view_reprojection_errors : Name
  extrinsic_parameters image_points grid_points : Name

abbrev pub place : Name → ℕ
place calibration_time = 0
place nr_of_frames = 1
place image_width = 2
place image_height = 3
place board_width = 4
place board_height = 5
place square_size = 6
place fix_aspect_ratio = 7
place flags = 8
place fisheye_model = 9
place camera_matrix = 10
place distortion_coefficients = 11
place avg_reprojection_error = 12
place per_view_reprojection_errors = 13
place extrinsic_parameters = 14
place image_points = 15
place grid_points = 16

abbrev pub is_nil : {A : Type 0} → List A → Bool
is_nil [] = true
is_nil (x ∷ xs) = false

abbrev larger_count : ℕ → ℕ → ℕ
larger_count a b = if ltb a b then b else a

module _ (fl : Floats) (cv : Opencv fl) where
  open fl use {Float, Double}
  open cv use {Mat, Point2}

  pub data Node : Type 0 where
    time : Text → Node
    int : ℤ → Node
    count : ℕ → Node
    real : Float → Node
    error : Double → Node
    bits : List ℕ → Node
    bool : Bool → Node
    matrix : Mat → Node
    errors : List Float → Node
    -- six numbers for each view
    poses : List (List Double) → Node
    -- a row that is not written keeps what its memory held
    views : List (Option (List Point2)) → Node
    grid : List (Point3 fl) → Node

  abbrev pub File : Type 0
  File = List (Name × Node)

  -- `if (b) fs << name << node`
  abbrev pub when : Bool → Name → Node → File
  when b n v = if b then (n, v) ∷ [] else []

  -- The rows of `bigmat`.
  unfoldable pub pose_rows : (Mat → List Double) → List Mat → List Mat → Run (List (List Double))
  pose_rows numbers [] tvecs = done []
  pose_rows numbers (r ∷ rvecs) [] = bad_pointer
  pose_rows numbers (r ∷ rvecs) (t ∷ tvecs) = do
    rows ← pose_rows numbers rvecs tvecs
    done ((numbers r ++ numbers t) ∷ rows)

  -- A row of `imagePtMat`, `cols` wide: a view with another number of points is copied elsewhere.
  unfoldable pub view_row : ℕ → List Point2 → Option (List Point2)
  view_row cols points = if length points == cols then some points else none

  unfoldable pub view_rows : List (List Point2) → List (Option (List Point2))
  unfolding view_row
  view_rows [] = []
  view_rows (v ∷ vs) = map (view_row (length v)) (v ∷ vs)

  -- The rows, where they are wanted.
  unfoldable pub poses_of : (Mat → List Double) → Settings fl → Camera fl Mat → Run File
  poses_of numbers s c =
      if s.write_extrinsics && (not (is_nil c.rvecs) && not (is_nil c.tvecs))
      then (do
        rows ← pose_rows numbers c.rvecs c.tvecs
        done ((extrinsic_parameters, poses rows) ∷ []))
      else done []

  -- What stands in the file before the poses.
  unfoldable pub head_of : Constants → Settings fl → Size → Text → Calibration fl cv → File
  head_of cs s image_size now c =
      (calibration_time, time now)
      ∷ (when (not (is_nil c.camera.rvecs) || not (is_nil c.reproj_errs)) nr_of_frames
            (count (larger_count (length c.camera.rvecs) (length c.reproj_errs)))
          ++ ((image_width, int image_size.width)
              ∷ (image_height, int image_size.height)
              ∷ (board_width, int s.board_size.width)
              ∷ (board_height, int s.board_size.height)
              ∷ (square_size, real s.square_size)
              ∷ (when (has cs.fix_aspect_ratio s.flag) fix_aspect_ratio (real s.aspect_ratio)
                  ++ ((flags, bits s.flag)
                      ∷ (fisheye_model, bool s.use_fisheye)
                      ∷ (camera_matrix, matrix c.camera.camera_matrix)
                      ∷ (distortion_coefficients, matrix c.camera.dist_coeffs)
                      ∷ (avg_reprojection_error, error c.total_avg_err)
                      ∷ when (s.write_extrinsics && not (is_nil c.reproj_errs))
                          per_view_reprojection_errors (errors c.reproj_errs)))))

  unfoldable pub save_camera_params :
      (Mat → List Double)
      → Constants
      → Settings fl
      → Size
      → Text
      → List (List Point2)
      → Calibration fl cv
      → Run File
  save_camera_params numbers cs s image_size now image_pts c = do
    extrinsics ← poses_of numbers s c.camera
    done (
        head_of cs s image_size now c
        ++ (extrinsics
            ++ (when (s.write_points && not (is_nil image_pts)) image_points
                  (views (view_rows image_pts))
                ++ when (s.write_grid && not (is_nil c.camera.new_obj_points)) grid_points
                    (grid c.camera.new_obj_points))))

  -- `fs[name]`
  abbrev pub at_name : Name → File → Option Node
  at_name n [] = none
  at_name n ((m, v) ∷ file) =
      let rest = at_name n file in if place n == place m then some v else rest

  -- `fs[name] >> m`; `empty` is OpenCV's matrix without elements.
  abbrev pub matrix_of : Mat → Option Node → Mat
  matrix_of empty (some (matrix m)) = m
  matrix_of empty _ = empty

  -- `readCameraInfo`, of a file that may not open.
  unfoldable pub read_camera_info : Mat → Option File → Option (Mat × Mat)
  read_camera_info empty none = none
  read_camera_info empty (some file) = some (
    matrix_of empty (at_name camera_matrix file),
    matrix_of empty (at_name distortion_coefficients file),
  )
