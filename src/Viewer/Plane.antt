-- ===== src/Viewer/Plane.antt =====
-- The point that `inverseProjectPoint` (Viewer/Homo) gives, against the camera that would see it.
use robot_arm.Base.{ℕ, ◌≡◌, refl, ap, ◌∙◌, pos}
use robot_arm.Floats.{Floats}
use robot_arm.Detect.{Point2i}
use robot_arm.Viewer.{Mats, Point3d}
use robot_arm.Viewer.Homo.{HomoTransform, muv_of, depth, back_projected, inverse_project_point}

module _ (fl : Floats) (ms : Mats fl) where
  open fl use {Double, of_int_d, mul_d, sub_d, div_d}
  open ms use {Mat, at, mul_m, inv, scale_m, sub_m, add_m, column}

  -- A 3 x 1 matrix: it is the column of its elements.
  abbrev pub IsColumn : Mat → Type 0
  IsColumn a = column (at a 0 0) (at a 1 0) (at a 2 0) ≡ a

  abbrev pub column_of : Point3d fl → Mat
  column_of p = column p.x p.y p.z

  -- The laws of matrices, in arithmetic without rounding.
  pub record IsLinear : Type 0 where
    pub mul_assoc : (a b c : Mat) → mul_m (mul_m a b) c ≡ mul_m a (mul_m b c)
    pub mul_sub : (a b c : Mat) → mul_m a (sub_m b c) ≡ sub_m (mul_m a b) (mul_m a c)
    pub scale_mul : (d : Double) (a b : Mat) → mul_m (scale_m d a) b ≡ scale_m d (mul_m a b)
    pub mul_scale : (d : Double) (a b : Mat) → mul_m a (scale_m d b) ≡ scale_m d (mul_m a b)
    pub add_sub : (a b : Mat) → add_m (sub_m a b) b ≡ a
    pub at_sub : (a b : Mat) (i j : ℕ) → at (sub_m a b) i j ≡ sub_d (at a i j) (at b i j)
    pub at_scale : (d : Double) (a : Mat) (i j : ℕ) → at (scale_m d a) i j ≡ mul_d d (at a i j)
    -- Products of a 3 x 3 matrix with a 3 x 1 one, and differences of those, are 3 x 1 matrices.
    pub mul_column : (a b : Mat) → IsColumn b → IsColumn (mul_m a b)
    pub sub_column : (a b : Mat) → IsColumn a → IsColumn b → IsColumn (sub_m a b)
    pub column_column : (x y z : Double) → IsColumn (column x y z)
    pub sub_self : (d : Double) → sub_d d d ≡ of_int_d (pos 0)

  -- `inv` of the matrix is its inverse.
  abbrev pub IsInvertible : Mat → Type 0
  IsInvertible a = (b : Mat) → mul_m a (mul_m (inv a) b) ≡ b

  -- What a camera without distortion sees of a point: its coordinates in the camera's frame, times the
  -- camera's matrix. The picture's point is the first two, divided by the third.
  abbrev pub seen : Mat → HomoTransform fl ms → Mat → Mat
  seen cam_mat transform p = mul_m cam_mat (add_m (mul_m transform.rotation p) transform.tvec)

  -- The number that `depth` divides by.
  abbrev pub ray : Point2i → Mat → HomoTransform fl ms → Double
  ray uv cam_mat transform =
      at (mul_m (mul_m (inv transform.rotation) (inv cam_mat)) (muv_of fl ms uv)) 2 0

  -- In arithmetic without rounding, with the camera's matrix and the rotation invertible, and where the
  -- division for the depth is exact: the point that is returned lies on the board's plane, and the
  -- camera sees it at the point of the picture, as far away as the depth says.
  pub inverse_project_point-seen :
      IsLinear
      → (uv : Point2i) (cam_mat : Mat) (transform : HomoTransform fl ms) → IsInvertible cam_mat
      → IsInvertible transform.rotation
      → IsColumn transform.tvec
      → ((d : Double) → mul_d (div_d d (ray uv cam_mat transform)) (ray uv cam_mat transform) ≡ d)
      → ((inverse_project_point fl ms uv cam_mat transform).z ≡ of_int_d (pos 0))
        × (seen cam_mat transform (column_of (inverse_project_point fl ms uv cam_mat transform))
            ≡ scale_m (depth fl ms uv cam_mat transform) (muv_of fl ms uv))
  unfolding inverse_project_point back_projected depth
  inverse_project_point-seen law uv cam_mat transform cam rot tall exact =
      let s = depth fl ms uv cam_mat transform in
      let m = muv_of fl ms uv in
      let r = transform.rotation in
      let t = transform.tvec in
      let far = mul_m (scale_m s (inv cam_mat)) m in
      let along : far ≡ scale_m s (mul_m (inv cam_mat) m) = law.scale_mul s (inv cam_mat) m in
      let split : mul_m (inv r) (sub_m far t)
          ≡ sub_m (scale_m s (mul_m (mul_m (inv r) (inv cam_mat)) m)) (mul_m (inv r) t) =
        rw
          (
            law.mul_sub (inv r) far t,
            along,
            law.mul_scale s (inv r) (mul_m (inv cam_mat) m),
            law.mul_assoc (inv r) (inv cam_mat) m,
          )
          refl in
      let ls = mul_m (mul_m (inv r) (inv cam_mat)) m in
      let rs = mul_m (inv r) t in
      let narrow : IsColumn m =
        law.column_column (of_int_d uv.x) (of_int_d uv.y) (of_int_d (pos 1)) in
      let whole : IsColumn (mul_m (inv r) (sub_m far t)) =
        law.mul_column (inv r) (sub_m far t)
          (law.sub_column far t (law.mul_column (scale_m s (inv cam_mat)) m narrow) tall) in
      let flat : mul_d s (ray uv cam_mat transform) ≡ at rs 2 0 = exact (at rs 2 0) in
      (
        ap (λ (a : Mat). at a 2 0) split
            ∙ law.at_sub (scale_m s ls) rs 2 0
            ∙ ap (λ (d : Double). sub_d d (at rs 2 0)) (law.at_scale s ls 2 0 ∙ flat)
            ∙ law.sub_self (at rs 2 0),
        ap (λ (a : Mat). mul_m cam_mat (add_m (mul_m r a) t)) whole
            ∙ ap (λ (a : Mat). mul_m cam_mat (add_m a t)) (rot (sub_m far t))
            ∙ ap (mul_m cam_mat) (law.add_sub far t ∙ along)
            ∙ law.mul_scale s cam_mat (mul_m (inv cam_mat) m)
            ∙ ap (scale_m s) (cam m),
      )
