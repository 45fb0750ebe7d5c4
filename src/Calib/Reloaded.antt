-- ===== src/Calib/Reloaded.antt =====
-- What is read back from the file of a calibration (Calib/Saved).
use robot_arm.Base.{
  ℕ, ◌==◌, ◌≡◌, refl, sym, ◌∙◌, inl, inr, Bool, true, false, not, ◌&&◌, Option, none, some, List,
  [], ◌∷◌, ◌++◌, map, if◌then◌else◌, length, All, All-map, arith, Bool-cases,
}
use robot_arm.Floats.{Floats}
use robot_arm.Ws.Run.{done}
use robot_arm.Calib.{Text, Size, Constants, Settings}
use robot_arm.Calib.Errors.{Opencv}
use robot_arm.Calib.Solve.{Calibration}
use robot_arm.Calib.Saved.{
  Name, camera_matrix, distortion_coefficients, extrinsic_parameters, image_points, grid_points,
  place, is_nil, Node, matrix, poses, views, grid, File, when, pose_rows, view_row, view_rows,
  poses_of, head_of, save_camera_params, at_name, read_camera_info,
}

module _ (fl : Floats) (cv : Opencv fl) where
  open fl use {Double}
  open cv use {Mat, Point2}

  -- An entry of another name is passed over.
  pass_when :
      (b : Bool) (n m : Name) (v : Node fl cv) (xs ys : File fl cv)
      → (place n == place m) ≡ false
      → at_name fl cv n ((when fl cv b m v ++ xs) ++ ys) ≡ at_name fl cv n (xs ++ ys)
  pass_when true n m v xs ys e = rw e refl
  pass_when false n m v xs ys e = refl

  -- An entry that may be there, before entries of other names.
  at-when :
      (b : Bool) (n : Name) (v : Node fl cv) (xs : File fl cv)
      → at_name fl cv n xs ≡ none
      → (place n == place n) ≡ true
      → at_name fl cv n (when fl cv b n v ++ xs) ≡ (if b then some v else none)
  at-when true n v xs e f = rw f refl
  at-when false n v xs e f = e

  skip_when :
      (b : Bool) (n m : Name) (v : Node fl cv) (xs : File fl cv)
      → (place n == place m) ≡ false
      → at_name fl cv n (when fl cv b m v ++ xs) ≡ at_name fl cv n xs
  skip_when true n m v xs e = rw e refl
  skip_when false n m v xs e = refl

  -- The poses as rows, view by view.
  abbrev pub paired : (Mat → List Double) → List Mat → List Mat → List (List Double)
  paired numbers [] ts = []
  paired numbers rs [] = []
  paired numbers (r ∷ rs) (t ∷ ts) = (numbers r ++ numbers t) ∷ paired numbers rs ts

  pose_rows_lem :
      (numbers : Mat → List Double) (rs ts : List Mat)
      → length rs ≡ length ts
      → pose_rows fl cv numbers rs ts ≡ done (paired numbers rs ts)
  unfolding pose_rows
  pose_rows_lem numbers [] [] e = refl
  pose_rows_lem numbers [] (t ∷ ts) e = refl
  pose_rows_lem numbers (r ∷ rs) [] e = absurd (omega arith)
  pose_rows_lem numbers (r ∷ rs) (t ∷ ts) e = rw (pose_rows_lem numbers rs ts (omega arith)) refl

  rows_lem :
      (k : ℕ) (vs : List (List Point2))
      → All (λ v. length v ≡ k) vs
      → map (view_row fl cv k) vs ≡ map some vs
  unfolding view_row
  rows_lem k [] h = refl
  rows_lem k (v ∷ vs) (e, h) =
      let wide : (length v == k) ≡ true = ground arith in rw (rows_lem k vs h, wide) refl

  view_rows_lem :
      (k : ℕ) (vs : List (List Point2))
      → All (λ v. length v ≡ k) vs
      → view_rows fl cv vs ≡ map some vs
  unfolding view_rows
  view_rows_lem k [] h = refl
  view_rows_lem k (v ∷ vs) (e, h) =
      rows_lem (length v) (v ∷ vs) (refl, All-map vs (λ w f. f ∙ sym e) h)

  -- The file behind the head, with the poses of the views.
  abbrev tail_of :
      (Mat → List Double) → Settings fl → List (List Point2) → Calibration fl cv → File fl cv
  tail_of numbers s pts c =
      when fl cv
        (s.write_extrinsics && (not (is_nil c.camera.rvecs) && not (is_nil c.camera.tvecs)))
        extrinsic_parameters (poses (paired numbers c.camera.rvecs c.camera.tvecs))
      ++ (when fl cv (s.write_points && not (is_nil pts)) image_points (views (map some pts))
          ++ when fl cv (s.write_grid && not (is_nil c.camera.new_obj_points)) grid_points
              (grid c.camera.new_obj_points))

  poses_of_lem :
      (numbers : Mat → List Double) (s : Settings fl) (c : Calibration fl cv)
      → length c.camera.rvecs ≡ length c.camera.tvecs
      → poses_of fl cv numbers s c.camera
        ≡ done (
            when fl cv
              (s.write_extrinsics && (not (is_nil c.camera.rvecs) && not (is_nil c.camera.tvecs)))
              extrinsic_parameters
              (poses (paired numbers c.camera.rvecs c.camera.tvecs)))
  unfolding poses_of
  poses_of_lem numbers s c e =
      elim (Bool-cases
        (s.write_extrinsics && (not (is_nil c.camera.rvecs) && not (is_nil c.camera.tvecs)))) [
          | inl wanted ↦ rw (wanted, pose_rows_lem numbers c.camera.rvecs c.camera.tvecs e) refl
          | inr unwanted ↦ rw unwanted refl
        ]

  save_camera_params_lem :
      (numbers : Mat → List Double) (cs : Constants) (s : Settings fl) (image_size : Size)
      (now : Text) (k : ℕ) (pts : List (List Point2)) (c : Calibration fl cv)
      → length c.camera.rvecs ≡ length c.camera.tvecs
      → All (λ v. length v ≡ k) pts
      → save_camera_params fl cv numbers cs s image_size now pts c
        ≡ done (head_of fl cv cs s image_size now c ++ tail_of numbers s pts c)
  unfolding save_camera_params
  save_camera_params_lem numbers cs s image_size now k pts c e h =
      rw (poses_of_lem numbers s c e, view_rows_lem k pts h) refl

  -- What the head says of a name, by the three entries that may be there.
  module _ (cs : Constants) (s : Settings fl) (image_size : Size) (now : Text)
      (c : Calibration fl cv) (file : File fl cv) where
    abbrev read_head : Name → Option (Node fl cv)
    read_head n = at_name fl cv n (head_of fl cv cs s image_size now c ++ file)

    head-camera_matrix : read_head camera_matrix ≡ some (matrix c.camera.camera_matrix)
    unfolding head_of
    head-camera_matrix = ground arith

    head-extrinsic_parameters :
        read_head extrinsic_parameters ≡ at_name fl cv extrinsic_parameters file
    unfolding head_of
    head-extrinsic_parameters = ground arith

    head-distortion_coefficients :
        read_head distortion_coefficients ≡ some (matrix c.camera.dist_coeffs)
    unfolding head_of
    head-distortion_coefficients = ground arith

    head-image_points : read_head image_points ≡ at_name fl cv image_points file
    unfolding head_of
    head-image_points = ground arith

    head-grid_points : read_head grid_points ≡ at_name fl cv grid_points file
    unfolding head_of
    head-grid_points = ground arith

  -- What the file gives back.
  pub record Holds (empty : Mat) (numbers : Mat → List Double) (s : Settings fl)
      (pts : List (List Point2)) (c : Calibration fl cv) (file : File fl cv) : Type 0 where
    pub camera :
        read_camera_info fl cv empty (some file)
        ≡ some (c.camera.camera_matrix, c.camera.dist_coeffs)
    pub extrinsics : at_name fl cv extrinsic_parameters file ≡ (
        if s.write_extrinsics && (not (is_nil c.camera.rvecs) && not (is_nil c.camera.tvecs))
        then some (poses (paired numbers c.camera.rvecs c.camera.tvecs))
        else none)
    pub points :
        at_name fl cv image_points file
        ≡ (if s.write_points && not (is_nil pts) then some (views (map some pts)) else none)
    pub corners : at_name fl cv grid_points file ≡ (
        if s.write_grid && not (is_nil c.camera.new_obj_points)
        then some (grid c.camera.new_obj_points)
        else none)

  -- With a pair of vectors for each view and views of one length, the file is written without a fault.
  -- The viewer reads from it the camera's matrix and the distortion that the calibration gave,
  -- whatever else was wanted; the poses, view by view, the points of all views and the grid are in
  -- it if they were wanted and there are any, and only then.
  pub save_camera_params-Holds :
      (empty : Mat) (numbers : Mat → List Double) (cs : Constants) (s : Settings fl)
      (image_size : Size) (now : Text) (k : ℕ) (pts : List (List Point2)) (c : Calibration fl cv)
      → length c.camera.rvecs ≡ length c.camera.tvecs
      → All (λ v. length v ≡ k) pts
      → (file : File fl cv) × (save_camera_params fl cv numbers cs s image_size now pts c
          ≡ done file)
        × Holds empty numbers s pts c file
  unfolding read_camera_info
  save_camera_params-Holds empty numbers cs s image_size now k pts c e h =
      let rest = tail_of numbers s pts c in
      (
        head_of fl cv cs s image_size now c ++ rest,
        save_camera_params_lem numbers cs s image_size now k pts c e h,
        record {
          camera =
              rw
                (
                  head-camera_matrix cs s image_size now c rest,
                  head-distortion_coefficients cs s image_size now c rest,
                )
                refl;
          extrinsics = head-extrinsic_parameters cs s image_size now c rest ∙ ground arith;
          points = head-image_points cs s image_size now c rest ∙ ground arith;
          corners = head-grid_points cs s image_size now c rest ∙ ground arith;
        },
      )
