-- ===== src/Viewer/Homo.antt =====
-- Windows/XNlib/include/xn_homo.hpp: the pose of the board from a homography, the point of the board
-- under a point of the picture, and the model of a face.
use robot_arm.Base.{ℕ, List, [], ◌∷◌, ℤ, pos, ◌-ℤ◌}
use robot_arm.Floats.{Floats}
use robot_arm.Detect.{Point2i}
use robot_arm.Viewer.{Mats, Point3d}

module _ (fl : Floats) (ms : Mats fl) where
  open fl use {Double, of_int_d, add_d, mul_d, div_d, sqrt_d}
  open ms use {Mat, at, div_m, col, cross_m, columns, sv_decomp, mul_m, inv, scale_m, sub_m, column}

  pub record HomoTransform : Type 0 where
    pub tvec : Mat
    pub rotation : Mat

  -- The length of the first column.
  unfoldable pub column_norm : Mat → Double
  column_norm h = sqrt_d (
      add_d (add_d (mul_d (at h 0 0) (at h 0 0)) (mul_d (at h 1 0) (at h 1 0)))
        (mul_d (at h 2 0) (at h 2 0)))

  unfoldable pub get_homo_transform : Mat → HomoTransform
  get_homo_transform h =
      let h' = div_m h (column_norm h) in
      let c1 = col h' 0 in
      let c2 = col h' 1 in
      let (w, u, vt) = sv_decomp (columns c1 c2 (cross_m c1 c2)) in
      record { tvec = col h' 2; rotation = mul_m u vt }

  -- `muv`: the point of the picture with 1 below.
  abbrev pub muv_of : Point2i → Mat
  muv_of uv = column (of_int_d uv.x) (of_int_d uv.y) (of_int_d (pos 1))

  -- `s`: how far along its ray the point lies.
  unfoldable pub depth : Point2i → Mat → HomoTransform → Double
  depth uv cam_mat transform =
      let ls = mul_m (mul_m (inv transform.rotation) (inv cam_mat)) (muv_of uv) in
      let rs = mul_m (inv transform.rotation) transform.tvec in div_d (at rs 2 0) (at ls 2 0)

  -- `temp`
  unfoldable pub back_projected : Point2i → Mat → HomoTransform → Mat
  back_projected uv cam_mat transform = mul_m (inv transform.rotation) (
      sub_m (mul_m (scale_m (depth uv cam_mat transform) (inv cam_mat)) (muv_of uv)) transform.tvec)

  unfoldable pub inverse_project_point : Point2i → Mat → HomoTransform → Point3d fl
  inverse_project_point uv cam_mat transform =
      let temp = back_projected uv cam_mat transform in
      record { x = at temp 0 0; y = at temp 1 0; z = at temp 2 0 }

module _ (fl : Floats) where
  open fl use {Double, of_int_d, div_d}

  -- A literal of six places, and a point of three.
  abbrev millionths : ℤ → Double
  millionths n = div_d (of_int_d n) (of_int_d (pos 1000000))

  abbrev face_point : ℤ → ℤ → ℤ → Point3d fl
  face_point x y z = record { x = millionths x; y = millionths y; z = millionths z }

  abbrev minus : ℕ → ℤ
  minus n = pos 0 -ℤ pos n

  -- `Face3D`, corner by corner.
  unfoldable pub face_3d : List (Point3d fl)
  face_3d =
      face_point (pos 6825897) (pos 6760612) (pos 4402142)
      ∷ face_point (pos 1330353) (pos 7122144) (pos 6903745)
      ∷ face_point (minus 1330353) (pos 7122144) (pos 6903745)
      ∷ face_point (minus 6825897) (pos 6760612) (pos 4402142)
      ∷ face_point (pos 5311432) (pos 5485328) (pos 3987654)
      ∷ face_point (pos 1789930) (pos 5393625) (pos 4413414)
      ∷ face_point (minus 1789930) (pos 5393625) (pos 4413414)
      ∷ face_point (minus 5311432) (pos 5485328) (pos 3987654)
      ∷ face_point (pos 2005628) (pos 1409845) (pos 6165652)
      ∷ face_point (minus 2005628) (pos 1409845) (pos 6165652)
      ∷ face_point (pos 2774015) (minus 2080775) (pos 5048531)
      ∷ face_point (minus 2774015) (minus 2080775) (pos 5048531)
      ∷ face_point (pos 0) (minus 3116408) (pos 6097667)
      ∷ face_point (pos 0) (minus 7415691) (pos 4070434)
      ∷ []
