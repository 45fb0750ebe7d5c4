-- ===== src/Detect/Decode.antt =====
-- The first part of `postprocess` of Windows/XNlib/include/xn_yolo.hpp: the output of the network as
-- three vectors.
use robot_arm.Base.{Bool, ◌||◌, List, [], ◌∷◌, ℤ, pos, ◌+ℤ◌, ◌-ℤ◌, ◌/ℤ◌, ltb_ℤ, if◌then◌else◌}
use robot_arm.Floats.{Floats}
use robot_arm.Ws.Run.{Run, done, assert_failed, bad_pointer, ◌>>=◌}
use robot_arm.Detect.{Rect, Vision, YoloInfo, Found, nothing, push}

module _ (fl : Floats) where
  open fl use {Float, of_int, to_int, mul, less, widen, less_d, narrow}

  -- `width <= 2 || height <= 2`: the corners are shares of the picture.
  abbrev is_small : ℤ → ℤ → Bool
  is_small width height = ltb_ℤ width (pos 3) || ltb_ℤ height (pos 3)

  abbrev pub corners : ℤ → ℤ → ℤ → ℤ → Rect
  corners left top right bottom = record {
    x = left;
    y = top;
    width = right -ℤ left +ℤ pos 1;
    height = bottom -ℤ top +ℤ pos 1;
  }

  -- The box of a detection, in a picture of `cols` by `rows`.
  unfoldable pub detection_box : ℤ → ℤ → Float → Float → Float → Float → Rect
  detection_box cols rows l t r b =
      let box = corners (to_int l) (to_int t) (to_int r) (to_int b) in
      if is_small box.width box.height
      then corners (to_int (mul l (of_int cols))) (to_int (mul t (of_int rows)))
          (to_int (mul r (of_int cols))) (to_int (mul b (of_int rows)))
      else box

  -- One output of the type "DetectionOutput": seven numbers for each detection.
  pub detection_output : YoloInfo fl → ℤ → ℤ → List Float → Run (Found fl)
  unfolding detection_box
  detection_output yo cols rows [] = done (nothing fl)
  detection_output yo cols rows (batch ∷ class ∷ confidence ∷ l ∷ t ∷ r ∷ b ∷ data') = do
    rest ← detection_output yo cols rows data'
    done (
        if less yo.conf_thres confidence
        then push fl
            (record {
              class_id = to_int class -ℤ pos 1;
              confidence = confidence;
              box = detection_box cols rows l t r b;
            })
            rest
        else rest)
  detection_output yo cols rows _ = bad_pointer

  unfoldable pub region_box : ℤ → ℤ → Float → Float → Float → Float → Rect
  region_box cols rows x y w h =
      let width = to_int (mul w (of_int cols)) in
      let height = to_int (mul h (of_int rows)) in
      record {
        x = to_int (mul x (of_int cols)) -ℤ width /ℤ pos 2;
        y = to_int (mul y (of_int rows)) -ℤ height /ℤ pos 2;
        width = width;
        height = height;
      }

module _ (fl : Floats) (cv : Vision fl) where
  open fl use {Float, widen, less_d, narrow}
  open cv use {min_max_loc}

  -- The rows of an output of the type "Region": a box, a number that is not read, then the scores of
  -- the classes. A row of less than 5 numbers has no such range of columns.
  unfoldable pub region : YoloInfo fl → ℤ → ℤ → List (List Float) → Run (Found fl)
  unfolding region_box
  region yo cols rows [] = done (nothing fl)
  region yo cols rows ((x ∷ y ∷ w ∷ h ∷ o ∷ scores) ∷ out) =
      let (confidence, class) = min_max_loc scores in
      do
        rest ← region yo cols rows out
        done (
            if less_d (widen yo.conf_thres) confidence
            then push fl
                (record {
                  class_id = class;
                  confidence = narrow confidence;
                  box = region_box fl cols rows x y w h;
                })
                rest
            else rest)
  region yo cols rows (_ ∷ out) = assert_failed
