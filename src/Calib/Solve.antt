-- ===== src/Calib/Solve.antt =====
-- `runCalibration` and `runCalibrationAndSave` of Windows/XNlib/include/cam_calib.hpp.
use robot_arm.Base.{
  ℕ, zero, suc, Bool, true, false, ◌&&◌, Option, none, some, List, [], ◌∷◌, ℤ, pos, negsuc, ◌-ℤ◌,
  if◌then◌else◌, length, set, get_elem?, replicate,
}
use robot_arm.Floats.{Floats}
use robot_arm.Ws.Run.{Run, done, bad_pointer, ◌>>=◌}
use robot_arm.Calib.{Size, Constants, Settings, has}
use robot_arm.Calib.Board.{Point3, calc_board_corner_positions}
use robot_arm.Calib.Errors.{Camera, Opencv, compute_reprojection_errors}

module _ (fl : Floats) (cv : Opencv fl) where
  open fl use {Float, Double, of_int_d, add, widen}
  open cv use {Mat, Point2, check_range, calibrate, fisheye_calibrate}

  pub record Calibration : Type 0 where
    pub camera : Camera fl Mat
    pub reproj_errs : List Float
    pub total_avg_err : Double
    pub ok : Bool

  -- The upper left entry of the camera matrix before the calibration.
  unfoldable pub aspect_guess : Constants → Settings fl → Double
  aspect_guess cs s =
      if has cs.fix_aspect_ratio s.flag then widen s.aspect_ratio else of_int_d (pos 1)

  abbrev widened : List (Point3 fl) → ℕ → Float → Option (Point3 fl) → Run (List (Point3 fl))
  widened corners n x none = bad_pointer
  widened corners n x (some last) = done (set corners n (record last { x = x }))

  -- The last corner of the first row moves to the board's measured width.
  unfoldable pub widen_board : ℤ → Float → List (Point3 fl) → Run (List (Point3 fl))
  widen_board (negsuc n) grid_width corners = bad_pointer
  widen_board (pos zero) grid_width corners = bad_pointer
  widen_board (pos (suc n)) grid_width [] = bad_pointer
  widen_board (pos (suc n)) grid_width (c ∷ corners) =
      widened (c ∷ corners) n (add c.x grid_width) (get_elem? (c ∷ corners) n)

  -- The calibration by the model of the lens; the argument is `useFisheye`.
  unfoldable pub solve :
      Bool
      → Constants
      → Settings fl
      → Size
      → List (List Point2)
      → List (Point3 fl)
      → Bool
      → Camera fl Mat
  solve true cs s image_size image_points corners release_object =
      let object_points = replicate (length image_points) corners in
      record (fisheye_calibrate object_points image_points image_size (aspect_guess cs s) s.flag) {
        new_obj_points = corners;
      }
  solve false cs s image_size image_points corners release_object =
      let object_points = replicate (length image_points) corners in
      let fixed = if release_object then s.board_size.width -ℤ pos 1 else negsuc 0 in
      calibrate object_points image_points image_size fixed (aspect_guess cs s) (cs.use_lu ∷ s.flag)

  unfoldable pub run_calibration :
      Constants → Settings fl → Size → List (List Point2) → Float → Bool → Run Calibration
  run_calibration cs s image_size image_points grid_width release_object = do
    corners ←
        widen_board s.board_size.width grid_width
          (calc_board_corner_positions fl s.board_size s.square_size s.calibration_pattern)
    let camera = solve s.use_fisheye cs s image_size image_points corners release_object
    errors ←
        compute_reprojection_errors fl cv (replicate (length image_points) camera.new_obj_points)
          image_points camera.rvecs camera.tvecs camera.camera_matrix camera.dist_coeffs
          s.use_fisheye
    done (record {
      camera = camera;
      reproj_errs = errors.0;
      total_avg_err = errors.1;
      ok = check_range camera.camera_matrix && check_range camera.dist_coeffs;
    })
