-- ===== src/Calib/Solved.antt =====
-- That the calibration of Calib/Solve returns, with an error for each view.
use robot_arm.Base.{
  ℕ, suc, ◌+◌, ◌*◌, ◌≡◌, ◌≢◌, refl, sym, ap, ◌∙◌, Bool, true, false, some, List, [], ◌∷◌, ℤ, pos,
  length, get_elem?, replicate, length-replicate, arith,
}
use robot_arm.Floats.{Floats}
use robot_arm.Ws.Run.{done}
use robot_arm.Calib.{Size, Constants, Settings, not_existing}
use robot_arm.Calib.Board.{Point3, calc_board_corner_positions, calc_board_corner_positions_lem}
use robot_arm.Calib.Errors.{Camera, Opencv, Errors, errors_from, compute_reprojection_errors}
use robot_arm.Calib.Solve.{Calibration, solve, widen_board, run_calibration}

module _ (fl : Floats) (cv : Opencv fl) where
  open cv use {Mat, Point2}

  -- What is documented of the two calibrations: a pair of vectors for each view.
  pub record ForEachView : Type 0 where
    pub rvecs :
        (o : List (List (Point3 fl))) (i : List (List Point2)) (size : Size) (f : ℤ) (g : fl.Double)
        (flag : List ℕ)
        → length (cv.calibrate o i size f g flag).rvecs ≡ length i
    pub tvecs :
        (o : List (List (Point3 fl))) (i : List (List Point2)) (size : Size) (f : ℤ) (g : fl.Double)
        (flag : List ℕ)
        → length (cv.calibrate o i size f g flag).tvecs ≡ length i
    pub fisheye_rvecs :
        (o : List (List (Point3 fl))) (i : List (List Point2)) (size : Size) (g : fl.Double)
        (flag : List ℕ)
        → length (cv.fisheye_calibrate o i size g flag).rvecs ≡ length i
    pub fisheye_tvecs :
        (o : List (List (Point3 fl))) (i : List (List Point2)) (size : Size) (g : fl.Double)
        (flag : List ℕ)
        → length (cv.fisheye_calibrate o i size g flag).tvecs ≡ length i

  errors_from_lem :
      (fisheye : Bool) (c d : Mat) (total : fl.Double) (points : ℕ) (os : List (List (Point3 fl)))
      (is : List (List Point2)) (rs ts : List Mat)
      → length is ≡ length os
      → length rs ≡ length os
      → length ts ≡ length os
      → (e : Errors fl) × (errors_from fl cv fisheye c d total points os is rs ts ≡ done e)
        × (length e.per_view ≡ length os)
  unfolding errors_from
  errors_from_lem fisheye c d total points [] is rs ts p q r = (_, refl, refl)
  errors_from_lem fisheye c d total points (o ∷ os) (i ∷ is) (r ∷ rs) (t ∷ ts) p q u =
      let err = cv.norm i (cv.project_points fisheye o r t c d) in
      let (e, f, l) =
        errors_from_lem fisheye c d (fl.add_d total (fl.mul_d err err)) (points + length o) os is rs
          ts (omega arith) (omega arith) (omega arith) in
      rw f (_, refl, ap suc l)
  errors_from_lem fisheye c d total points (o ∷ os) [] rs ts p q u = absurd (omega arith)
  errors_from_lem fisheye c d total points (o ∷ os) (i ∷ is) [] ts p q u = absurd (omega arith)
  errors_from_lem fisheye c d total points (o ∷ os) (i ∷ is) (r ∷ rs) [] p q u =
      absurd (omega arith)

  errors_lem :
      (fisheye : Bool) (c : Camera fl Mat) (is : List (List Point2))
      → length c.rvecs ≡ length is
      → length c.tvecs ≡ length is
      → (es : List fl.Float × fl.Double) × (compute_reprojection_errors fl cv
            (replicate (length is) c.new_obj_points)
            is
            c.rvecs
            c.tvecs
            c.camera_matrix
            c.dist_coeffs
            fisheye
          ≡ done es)
        × (length es.0 ≡ length is)
  unfolding compute_reprojection_errors
  errors_lem fisheye c is r t =
      let os = replicate (length is) c.new_obj_points in
      let l = length-replicate (length is) c.new_obj_points in
      let (e, f, n) =
        errors_from_lem fisheye c.camera_matrix c.dist_coeffs (fl.of_int_d (pos 0)) 0 os is c.rvecs
          c.tvecs (sym l) (r ∙ sym l) (t ∙ sym l) in
      rw f (_, refl, n ∙ l)

  widen_board_lem :
      (n : ℕ) (g : fl.Float) (xs : List (Point3 fl)) {p : Point3 fl}
      → get_elem? xs n ≡ some p
      → (ys : List (Point3 fl)) × (widen_board fl cv (pos (suc n)) g xs ≡ done ys)
  unfolding widen_board
  widen_board_lem n g [] e = cc
  widen_board_lem n g (x ∷ xs) e = rw e (_, refl)

  solve_lem :
      ForEachView
      → (cs : Constants) (s : Settings fl) (fisheye : Bool) (size : Size) (is : List (List Point2))
        (corners : List (Point3 fl)) (release : Bool)
      → let c = solve fl cv fisheye cs s size is corners release in
        (length c.rvecs ≡ length is) × (length c.tvecs ≡ length is)
  unfolding solve
  solve_lem law cs s true size is corners release =
      (law.fisheye_rvecs _ is size _ s.flag, law.fisheye_tvecs _ is size _ s.flag)
  solve_lem law cs s false size is corners release =
      (law.rvecs _ is size _ _ _, law.tvecs _ is size _ _ _)

  module _ (law : ForEachView) (cs : Constants) (s : Settings fl) (w h : ℕ)
      (is_size : s.board_size ≡ record { width = pos (suc w); height = pos (suc h) })
      (known : s.calibration_pattern ≢ not_existing) where
    board_lem :
        (g : fl.Float)
        → (ys : List (Point3 fl)) × (widen_board fl cv s.board_size.width g
              (calc_board_corner_positions fl s.board_size s.square_size s.calibration_pattern)
            ≡ done ys)
    board_lem g =
        let at : 0 * suc w + w ≡ w = omega arith in
        let corner =
          calc_board_corner_positions_lem fl (suc w) (suc h) s.square_size s.calibration_pattern 0 w
            known (omega arith) (omega arith) in
        rw is_size (widen_board_lem w g _ (ap (get_elem? _) (sym at) ∙ corner.1))

    pub run_calibration_lem :
        (size : Size) (is : List (List Point2)) (g : fl.Float) (release : Bool)
        → (c : Calibration fl cv) × (run_calibration fl cv cs s size is g release ≡ done c)
          × (length c.reproj_errs ≡ length is)
    unfolding run_calibration
    run_calibration_lem size is g release =
        let (corners, e) = board_lem g in
        let (r, t) = solve_lem law cs s s.use_fisheye size is corners release in
        let c = solve fl cv s.use_fisheye cs s size is corners release in
        let (es, d, l) = errors_lem s.use_fisheye c is r t in rw (e, d) (_, refl, l)
