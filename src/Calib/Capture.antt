-- ===== src/Calib/Capture.antt =====
-- `calibrate_camera` of Windows/XNlib/include/cam_calib.hpp: the loop over the pictures of the
-- stream. The windows and the texts on the pictures are not kept; which pictures each calibration
-- gets is. Calib/Saved has the file that is written.
use robot_arm.Base.{
  ℕ, ◌-◌, ◌^◌, leb, ◌==◌, Bool, true, false, not, ◌&&◌, ◌||◌, Option, none, some, List, [], ◌∷◌,
  ◌++◌, ℤ, pos, negsuc, ◌-ℤ◌, if◌then◌else◌, length,
}
use robot_arm.Floats.{Floats}
use robot_arm.Ws.Run.{Run, done, ◌>>=◌}
use robot_arm.Calib.{
  Size, Constants, Settings, Pattern, not_existing, chessboard, circles_grid,
  asymmetric_circles_grid, InputType, image_list,
}
use robot_arm.Calib.Errors.{Opencv}
use robot_arm.Calib.Solve.{Calibration, run_calibration}

pub data Mode : Type 0 where
  detection capturing calibrated : Mode

-- `VideoStream::isOpened`
abbrev pub is_opened : Bool
is_opened = true

abbrev pub is_capturing : Mode → Bool
is_capturing capturing = true
is_capturing _ = false

abbrev pub is_calibrated : Mode → Bool
is_calibrated calibrated = true
is_calibrated _ = false

-- `(size_t) n` of an `int`
abbrev pub size_of_int : ℤ → ℕ
size_of_int (pos n) = n
size_of_int (negsuc n) = 2 ^ 64 - 1 - n

module _ (fl : Floats) (cv : Opencv fl) where
  open fl use {Double, Float, mul, mul_d, less_d, of_int, of_int_d}
  open cv use {Point2}

  -- What the loop takes from OpenCV's pictures and from the clock: `milli` is 1e-3, and `per_second`
  -- the clock's ticks.
  pub record Pictures : Type 1 where
    pub Picture : Type 0
    pub is_empty : Picture → Bool
    pub size : Picture → Size
    pub flip : Picture → Picture
    pub find_chessboard_corners : Picture → Size → Bool → Option (List Point2)
    pub find_circles_grid : Picture → Size → Bool → Option (List Point2)
    pub corner_sub_pix : Picture → ℤ → List Point2 → List Point2
    pub milli : Double
    pub per_second : Double

  -- The locals of the loop. `attempts` are the pictures that each calibration got, `saved` the
  -- calibrations that were written to the file.
  pub record Session : Type 0 where
    pub mode : Mode
    pub image_points : List (List Point2)
    pub image_size : Size
    pub prev_timestamp : ℤ
    pub show_undistorted : Bool
    pub attempts : List (List (List Point2))
    pub saved : List (Calibration fl cv)

  pub data Next : Type 0 where
    again stop : Session → Next

  unfoldable pub run_calibration_and_save : Constants → Settings fl → Float → Session → Run Session
  run_calibration_and_save cs s grid_width t = do
    c ← run_calibration fl cv cs s t.image_size t.image_points grid_width false
    done (record t {
      mode = if c.ok then calibrated else detection;
      attempts = t.attempts ++ t.image_points ∷ [];
      saved = if c.ok then t.saved ++ c ∷ [] else t.saved;
    })

  -- Enough pictures: calibrate.
  unfoldable pub finish : Constants → Settings fl → Float → Session → Run Session
  finish cs s grid_width t =
      if is_capturing t.mode && leb (size_of_int s.nr_frames) (length t.image_points)
      then run_calibration_and_save cs s grid_width t
      else done t

module _ (fl : Floats) (cv : Opencv fl) (pics : Pictures fl cv) where
  open fl use {Double, Float, mul, mul_d, less_d, of_int, of_int_d}
  open cv use {Point2}
  open pics use {Picture, is_empty, size, flip, milli, per_second}

  -- The points of the pattern on a picture; a chessboard's corners are improved.
  unfoldable pub find_pattern : Settings fl → ℤ → Picture → Option (List Point2)
  find_pattern s win_size view = by_pattern s.calibration_pattern
    where
      improved : Option (List Point2) → Option (List Point2)
      improved none = none
      improved (some points) = some (pics.corner_sub_pix view win_size points)

      by_pattern : Pattern → Option (List Point2)
      by_pattern chessboard =
          improved (pics.find_chessboard_corners view s.board_size (not s.use_fisheye))
      by_pattern circles_grid = pics.find_circles_grid view s.board_size false
      by_pattern asymmetric_circles_grid = pics.find_circles_grid view s.board_size true
      by_pattern not_existing = none

  -- A picture, the clock at the test and after it, and the key.
  pub record Round : Type 0 where
    pub view : Picture
    pub clock : ℤ
    pub clock_after : ℤ
    pub key : ℕ

  abbrev pub is_late : Settings fl → ℤ → ℤ → Bool
  is_late s now before =
      less_d (mul_d (mul_d (of_int_d s.delay) milli) per_second) (of_int_d (now -ℤ before))

  -- What a picture with the pattern adds.
  unfoldable pub capture :
      Settings fl → Round → Option (List Point2) → Session fl cv → Session fl cv
  capture s r none t = t
  capture s r (some points) t =
      if is_capturing t.mode && (not is_opened || is_late s r.clock t.prev_timestamp)
      then record t { image_points = t.image_points ++ points ∷ []; prev_timestamp = r.clock_after }
      else t

  -- ESC, 'u' and 'g'
  unfoldable pub await_input : ℕ → Session fl cv → Next fl cv
  await_input key t =
      let shown =
        if (key == 117) && is_calibrated t.mode
        then record t { show_undistorted = not t.show_undistorted }
        else t in
      let next =
        if is_opened && (key == 103)
        then record shown { mode = capturing; image_points = [] }
        else shown in
      if key == 27 then stop t else again next

  -- One round of the loop. A picture that is empty is passed over: the test for an empty one further
  -- down is never met.
  unfoldable pub round :
      Constants → Settings fl → ℤ → Float → Round → Session fl cv → Run (Next fl cv)
  round cs s win_size grid_width r t = if is_empty r.view then done (again t) else do
    t₁ ← finish fl cv cs s grid_width t
    let view = if s.flip_vertical then flip r.view else r.view
    let found = find_pattern s win_size view
    let t₂ = capture s r found (record t₁ { image_size = size r.view })
    done (await_input r.key t₂)

  abbrev pub after : (Session fl cv → Run (Next fl cv)) → Next fl cv → Run (Next fl cv)
  after go_on (again t) = go_on t
  after go_on (stop t) = done (stop t)

  -- The loop, on the pictures that come; it ends at the first ESC.
  unfoldable pub rounds :
      Constants → Settings fl → ℤ → Float → List Round → Session fl cv → Run (Next fl cv)
  rounds cs s win_size grid_width [] t = done (again t)
  rounds cs s win_size grid_width (r ∷ rs) t = do
    n ← round cs s win_size grid_width r t
    after (rounds cs s win_size grid_width rs) n

  abbrev pub first_mode : InputType → Mode
  first_mode image_list = capturing
  first_mode _ = detection

  unfoldable pub begin : Settings fl → Session fl cv
  begin s = record {
    mode = first_mode s.input_type;
    image_points = [];
    image_size = record { width = pos 0; height = pos 0 };
    prev_timestamp = pos 0;
    show_undistorted = s.show_undistorted;
    attempts = [];
    saved = [];
  }

  -- -1 for settings that are not good, as `none`.
  unfoldable pub calibrate_camera :
      Constants → Settings fl → ℤ → List Round → Option (Run (Next fl cv))
  calibrate_camera cs s win_size rs =
      let grid_width = mul s.square_size (of_int (s.board_size.width -ℤ pos 1)) in
      if s.good_input then some (rounds cs s win_size grid_width rs (begin s)) else none
