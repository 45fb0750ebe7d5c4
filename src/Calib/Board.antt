-- ===== src/Calib/Board.antt =====
-- `calcBoardCornerPositions` of Windows/XNlib/include/cam_calib.hpp: where the corners of the board
-- are on the board.
use robot_arm.Base.{
  ℕ, zero, suc, ◌+◌, ◌*◌, ◌%◌, ◌<◌, ◌≡◌, ◌≢◌, refl, ◌∙◌, ap, some, List, [], ◌∷◌, ◌++◌, pos,
  pos_part, length, get_elem?, length-append, get-append-left, get-append-right, arith,
}
use robot_arm.Floats.{Floats}
use robot_arm.Calib.{Size, Pattern, not_existing, chessboard, circles_grid, asymmetric_circles_grid}

module _ (fl : Floats) where
  open fl use {Float, of_int, mul}

  -- `Point3f`
  pub record Point3 : Type 0 where
    pub x : Float
    pub y : Float
    pub z : Float

  -- The point in the column `j` of the row `i`.
  abbrev pub in_rows : Float → ℕ → ℕ → Point3
  in_rows square_size i j = record {
    x = mul (of_int (pos j)) square_size;
    y = mul (of_int (pos i)) square_size;
    z = of_int (pos 0);
  }

  abbrev pub staggered : Float → ℕ → ℕ → Point3
  staggered square_size i j = record {
    x = mul (of_int (pos (2 * j + i % 2))) square_size;
    y = mul (of_int (pos i)) square_size;
    z = of_int (pos 0);
  }

  -- The inner loop: `n` columns from `j` on.
  unfoldable pub row_of : (ℕ → ℕ → Point3) → ℕ → ℕ → ℕ → List Point3
  row_of point i j zero = []
  row_of point i j (suc n) = point i j ∷ row_of point i (suc j) n

  -- The outer loop: `n` rows from `i` on.
  unfoldable pub rows_of : (ℕ → ℕ → Point3) → ℕ → ℕ → ℕ → List Point3
  unfolding row_of
  rows_of point width i zero = []
  rows_of point width i (suc n) = row_of point i 0 width ++ rows_of point width (suc i) n

  -- A size below 0 makes no round.
  unfoldable pub calc_board_corner_positions : Size → Float → Pattern → List Point3
  unfolding rows_of
  calc_board_corner_positions size square_size not_existing = []
  calc_board_corner_positions size square_size asymmetric_circles_grid =
      rows_of (staggered square_size) (pos_part size.width) 0 (pos_part size.height)
  calc_board_corner_positions size square_size _ =
      rows_of (in_rows square_size) (pos_part size.width) 0 (pos_part size.height)

  -- The point of the board in the column `j` of the row `i`.
  abbrev pub point_of : Pattern → Float → ℕ → ℕ → Point3
  point_of asymmetric_circles_grid = staggered
  point_of _ = in_rows

module _ (fl : Floats) where
  length-row_of : (point : ℕ → ℕ → Point3 fl) (i j n : ℕ) → length (row_of fl point i j n) ≡ n
  unfolding row_of
  length-row_of point i j zero = refl
  length-row_of point i j (suc n) = ap suc (length-row_of point i (suc j) n)

  get-row_of :
      (point : ℕ → ℕ → Point3 fl) (i j n k : ℕ)
      → k < n
      → get_elem? (row_of fl point i j n) k ≡ some (point i (j + k))
  unfolding row_of
  get-row_of point i j zero k l = absurd (omega arith)
  get-row_of point i j (suc n) zero l =
      ap (λ m. some (point i m)) (let e : j ≡ j + 0 = omega arith in e)
  get-row_of point i j (suc n) (suc k) l =
      get-row_of point i (suc j) n k (omega arith)
      ∙ ap (λ m. some (point i m)) (let e : suc j + k ≡ j + suc k = omega arith in e)

  length-rows_of : (point : ℕ → ℕ → Point3 fl) (w i n : ℕ) → length (rows_of fl point w i n) ≡ n * w
  unfolding rows_of
  length-rows_of point w i zero = omega arith
  length-rows_of point w i (suc n) =
      length-append (row_of fl point i 0 w) (rows_of fl point w (suc i) n)
      ∙ omega (arith, length-row_of point i 0 w, length-rows_of point w (suc i) n)

  get-rows_of :
      (point : ℕ → ℕ → Point3 fl) (w i n a j : ℕ)
      → a < n
      → j < w
      → get_elem? (rows_of fl point w i n) (a * w + j) ≡ some (point (i + a) j)
  unfolding rows_of
  get-rows_of point w i zero a j l m = absurd (omega arith)
  get-rows_of point w i (suc n) zero j l m =
      let k = 0 * w + j in
      let e : k ≡ j = omega arith in
      let f : 0 + k ≡ j = omega arith in
      let z : i ≡ i + 0 = omega arith in
      get-append-left (row_of fl point i 0 w) (rows_of fl point w (suc i) n) k
        (omega (arith, length-row_of point i 0 w))
      ∙ get-row_of point i 0 w k (omega arith)
      ∙ ap (λ c. some (point i c)) f
      ∙ ap (λ r. some (point r j)) z
  get-rows_of point w i (suc n) (suc a) j l m =
      get-append-right (row_of fl point i 0 w) (rows_of fl point w (suc i) n) _ (a * w + j)
        (omega (arith, length-row_of point i 0 w))
      ∙ get-rows_of point w (suc i) n a j (omega arith) m
      ∙ ap (λ r. some (point r j)) (let e : suc i + a ≡ i + suc a = omega arith in e)

  laid_out :
      (w h i j : ℕ) (point : ℕ → ℕ → Point3 fl)
      → i < h
      → j < w
      → (length (rows_of fl point w 0 h) ≡ h * w)
        × (get_elem? (rows_of fl point w 0 h) (i * w + j) ≡ some (point i j))
  laid_out w h i j point l m =
      let e : 0 + i ≡ i = omega arith in
      (length-rows_of point w 0 h, get-rows_of point w 0 h i j l m ∙ ap (λ r. some (point r j)) e)

  -- A board of `h` rows and `w` columns, in a known pattern, has `h * w` points, row by row: the one
  -- in the column `j` of the row `i` stands at `i * w + j`, where the pattern has it.
  pub calc_board_corner_positions_lem :
      (w h : ℕ) (square_size : fl.Float) (p : Pattern) (i j : ℕ)
      → p ≢ not_existing
      → i < h
      → j < w
      → let board =
          calc_board_corner_positions fl (record { width = pos w; height = pos h }) square_size p in
        (length board ≡ h * w)
        × (get_elem? board (i * w + j) ≡ some (point_of fl p square_size i j))
  unfolding calc_board_corner_positions
  calc_board_corner_positions_lem w h sq not_existing i j known l m = absurd (known refl)
  calc_board_corner_positions_lem w h sq asymmetric_circles_grid i j known l m =
      laid_out w h i j (staggered fl sq) l m
  calc_board_corner_positions_lem w h sq chessboard i j known l m =
      laid_out w h i j (in_rows fl sq) l m
  calc_board_corner_positions_lem w h sq circles_grid i j known l m =
      laid_out w h i j (in_rows fl sq) l m
