-- ===== src/Calib/Errors.antt =====
-- `computeReprojectionErrors` of Windows/XNlib/include/cam_calib.hpp.
use robot_arm.Base.{ℕ, ◌+◌, Bool, List, [], ◌∷◌, ℤ, pos, length}
use robot_arm.Floats.{Floats}
use robot_arm.Ws.Run.{Run, done, bad_pointer, ◌>>=◌}
use robot_arm.Calib.{Size}
use robot_arm.Calib.Board.{Point3}

module _ (fl : Floats) where
  open fl use {Float, Double, add_d, mul_d, div_d, sqrt_d, of_int_d, narrow}

  -- What a calibration gives: OpenCV's matrices, one pair of vectors for each view, and the points.
  pub record Camera (Mat : Type 0) : Type 0 where
    pub camera_matrix : Mat
    pub dist_coeffs : Mat
    pub rvecs : List Mat
    pub tvecs : List Mat
    pub new_obj_points : List (Point3 fl)

  -- What the code takes from OpenCV: the pictures' points, matrices, and the functions on them. The
  -- argument of `calibrate` that is a `Double` is the upper left entry of the camera matrix to begin
  -- with, the rest of which is the identity; the integer is `iFixedPoint`.
  pub record Opencv : Type 1 where
    pub Mat : Type 0
    pub Point2 : Type 0
    pub project_points : Bool → List (Point3 fl) → Mat → Mat → Mat → Mat → List Point2
    pub norm : List Point2 → List Point2 → Double
    pub check_range : Mat → Bool
    pub calibrate :
        List (List (Point3 fl)) → List (List Point2) → Size → ℤ → Double → List ℕ → Camera Mat
    pub fisheye_calibrate :
        List (List (Point3 fl)) → List (List Point2) → Size → Double → List ℕ → Camera Mat

  pub record Errors : Type 0 where
    pub per_view : List Float
    pub total_err : Double
    pub total_points : ℕ

module _ (fl : Floats) (cv : Opencv fl) where
  open fl use {Float, Double, add_d, mul_d, div_d, sqrt_d, of_int_d, narrow}
  open cv use {Mat, Point2, project_points, norm}

  -- The loop over the views; the sums go from the first view on.
  unfoldable pub errors_from :
      Bool
      → Mat
      → Mat
      → Double
      → ℕ
      → List (List (Point3 fl))
      → List (List Point2)
      → List Mat
      → List Mat
      → Run (Errors fl)
  errors_from fisheye camera dist total points [] images rvecs tvecs =
      done (record { per_view = []; total_err = total; total_points = points })
  errors_from fisheye camera dist total points (o ∷ objects) (i ∷ images) (r ∷ rvecs) (t ∷ tvecs) =
      let err = norm i (project_points fisheye o r t camera dist) in
      let n = length o in
      do
        rest ←
            errors_from fisheye camera dist (add_d total (mul_d err err)) (points + n) objects
              images rvecs tvecs
        done (record rest {
          per_view = narrow (sqrt_d (div_d (mul_d err err) (of_int_d (pos n)))) ∷ rest.per_view;
        })
  errors_from fisheye camera dist total points (o ∷ objects) _ _ _ = bad_pointer

  -- The errors of the views, and the error of all.
  unfoldable pub compute_reprojection_errors :
      List (List (Point3 fl))
      → List (List Point2)
      → List Mat
      → List Mat
      → Mat
      → Mat
      → Bool
      → Run (List Float × Double)
  compute_reprojection_errors objects images rvecs tvecs camera dist fisheye = do
    e ← errors_from fisheye camera dist (of_int_d (pos 0)) 0 objects images rvecs tvecs
    done (e.per_view, sqrt_d (div_d e.total_err (of_int_d (pos e.total_points))))
