-- ===== src/Detect/Track.antt =====
-- The last part of `postprocess` of Windows/XNlib/include/xn_yolo.hpp, and the whole of it:
-- `drawPred` draws a box, and tells where the object that is followed stands.
use robot_arm.Base.{
  ℕ, ltb, Bool, true, false, not, ◌&&◌, ◌||◌, List, [], ◌∷◌, ◌++◌, ℤ, pos, negsuc, ◌+ℤ◌, ◌-ℤ◌, ◌/ℤ◌,
  eqb_ℤ, ltb_ℤ, if◌then◌else◌, length,
}
use robot_arm.Floats.{Floats}
use robot_arm.Ws.Run.{Run, done, assert_failed, bad_pointer, ◌>>=◌}
use robot_arm.Detect.{
  Rect, Vision, YoloInfo, Found, nothing, Draw, outline, filled, text, TrackingInfo,
}
use robot_arm.Detect.Decode.{detection_output, region}
use robot_arm.Detect.Suppress.{index, join, suppress}

abbrev pub max : ℤ → ℤ → ℤ
max a b = if ltb_ℤ a b then b else a

-- `v[i]` with an `int`
abbrev pub index_int : {A : Type 0} → List A → ℤ → Run A
index_int xs (pos n) = index xs n
index_int xs (negsuc n) = bad_pointer

module _ (fl : Floats) (cv : Vision fl) where
  open fl use {Float}
  open cv use {Text, format, titled, text_size}

  -- The box, then the label on its background.
  unfoldable pub draw :
      Text → Bool → (left top right bottom : ℤ) → List (Draw fl cv) → List (Draw fl cv)
  draw label red left top right bottom frame =
      let size = text_size label in
      let top' = max top size.height in
      frame
      ++ outline left top right bottom red
        ∷ filled left (top' -ℤ size.height) (left +ℤ size.width) (top' +ℤ size.base_line)
        ∷ text label left top'
        ∷ []

  -- `draw_pred`'s Boolean is `in_frame` set: it is only used so.
  unfoldable pub draw_pred :
      ℤ → Float → (left top right bottom : ℤ) → TrackingInfo fl cv → Run (Bool × TrackingInfo fl cv)
  draw_pred class_id conf left top right bottom track = elim track.classes [
    | [] ↦
        done (
          false,
          record track { frame = draw (format conf) false left top right bottom track.frame },
        )
    | _ ∷ _ ↦ if not (ltb_ℤ class_id (pos (length track.classes))) then assert_failed else do
      class ← index_int track.classes class_id
      let followed = eqb_ℤ class_id track.id
      let drawn = draw (titled class (format conf)) followed left top right bottom track.frame
      done (
        followed,
        if followed
            then record track {
              center = record { x = (left +ℤ right) /ℤ pos 2; y = (top +ℤ bottom) /ℤ pos 2 };
              base = record { x = (left +ℤ right) /ℤ pos 2; y = bottom };
              frame = drawn;
            }
            else record track { frame = drawn },
      )
  ]

  -- The loop over the boxes, with the class and the confidence at the same index.
  unfoldable pub draw_all :
      List ℤ → List Float → List Rect → TrackingInfo fl cv → Run (TrackingInfo fl cv)
  draw_all class_ids confidences [] track = done track
  draw_all (c ∷ class_ids) (conf ∷ confidences) (box ∷ boxes) track = do
    (res, track') ← draw_pred c conf box.x box.y (box.x +ℤ box.width) (box.y +ℤ box.height) track
    draw_all class_ids confidences boxes (if res then record track' { in_frame = true } else track')
  draw_all _ _ (box ∷ boxes) track = bad_pointer

  -- The outputs of the network, by the type of its last layer.
  pub data Outs : Type 0 where
    detections : List (List Float) → Outs
    regions : List (List (List Float)) → Outs
    unknown : Outs

  unfoldable pub decode_detections : YoloInfo fl → ℤ → ℤ → List (List Float) → Run (Found fl)
  decode_detections yo cols rows [] = done (nothing fl)
  decode_detections yo cols rows (out ∷ outs) = do
    found ← detection_output fl yo cols rows out
    rest ← decode_detections yo cols rows outs
    done (join fl found rest)

  unfoldable pub decode_regions : YoloInfo fl → ℤ → ℤ → List (List (List Float)) → Run (Found fl)
  decode_regions yo cols rows [] = done (nothing fl)
  decode_regions yo cols rows (out ∷ outs) = do
    found ← region fl cv yo cols rows out
    rest ← decode_regions yo cols rows outs
    done (join fl found rest)

  -- A failed `CV_Assert` and a `CV_Error` are both `assert_failed`.
  unfoldable pub decode : YoloInfo fl → ℤ → ℤ → Outs → Run (Found fl)
  decode yo cols rows (detections []) = assert_failed
  decode yo cols rows (detections (out ∷ outs)) = decode_detections yo cols rows (out ∷ outs)
  decode yo cols rows (regions outs) = decode_regions yo cols rows outs
  decode yo cols rows unknown = assert_failed

  abbrev pub is_region : Outs → Bool
  is_region (regions outs) = true
  is_region _ = false

  -- `out_layers` is the number of the network's output layers.
  unfoldable pub postprocess :
      ℕ → ℤ → ℤ → Outs → YoloInfo fl → TrackingInfo fl cv → Run (TrackingInfo fl cv)
  postprocess out_layers cols rows outs yo track = do
    decoded ← decode yo cols rows outs
    found ←
        if ltb 1 out_layers || (is_region outs && not yo.opencv)
        then suppress fl cv yo decoded
        else done decoded
    draw_all found.class_ids found.confidences found.boxes (record track { in_frame = false })
