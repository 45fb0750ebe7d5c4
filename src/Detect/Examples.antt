-- ===== src/Detect/Examples.antt =====
-- The theorems on what the network sees at concrete inputs, with whole numbers for floating-point
-- ones, numbers for texts, and a suppression that keeps the first box of a class.
use robot_arm.Base.{
  ℕ, ◌≡◌, refl, false, not, ◌||◌, ltb, if◌then◌else◌, ◌==◌, List, [], ◌∷◌, ℤ, pos, All, arith,
}
use robot_arm.Ws.Run.{done}
use robot_arm.Gpio.Examples.Servos.{whole}
use robot_arm.Detect.{Rect, Vision, YoloInfo, Detection, TrackingInfo}
use robot_arm.Detect.Track.{regions, decode, postprocess}
use robot_arm.Detect.Suppress.{suppress}
use robot_arm.Detect.Kept.{vectors, KeepsIndices}
use robot_arm.Detect.Followed.{last_of, outlined, Follows}
use robot_arm.Detect.Whole.{Among, FindsPlace, postprocess-Follows}

abbrev pub first_only : List Rect → List ℕ
first_only [] = []
first_only (b ∷ bs) = 0 ∷ []

abbrev pub numbers : Vision whole
numbers = record {
  Text = ℕ;
  same = λ a b. a == b;
  format = λ f. 0;
  titled = λ a b. a;
  text_size = λ t. record { width = pos 8; height = pos 4; base_line = pos 1 };
  min_max_loc = λ scores. (pos 7, pos 0);
  nms_boxes = λ boxes confidences score nms. first_only boxes;
}

pub first_only-Keeps : KeepsIndices whole numbers
first_only-Keeps [] confidences score nms = tt
first_only-Keeps (b ∷ bs) confidences score nms = (omega arith, tt)

pub place_zero : FindsPlace whole numbers
place_zero scores l = (0, refl, l)

abbrev pub yolo : YoloInfo whole
yolo = record { conf_thres = pos 5; nms_thres = pos 4; opencv = false }

abbrev pub track : TrackingInfo whole numbers
track = record {
  classes = 30 ∷ 31 ∷ [];
  label = 30;
  id = pos 0;
  center = record { x = pos 0; y = pos 0 };
  base = record { x = pos 0; y = pos 0 };
  in_frame = false;
  frame = [];
}

abbrev pub rows : List (List ℤ)
rows =
    (pos 2 ∷ pos 3 ∷ pos 1 ∷ pos 1 ∷ pos 0 ∷ pos 7 ∷ pos 1 ∷ [])
    ∷ (pos 2 ∷ pos 2 ∷ pos 1 ∷ pos 2 ∷ pos 0 ∷ pos 6 ∷ pos 3 ∷ [])
    ∷ []

postprocess-Follows_example :
    (found : List (Detection whole)) × (kept : List (Detection whole)) × (t : TrackingInfo whole
      numbers)
    × (decode whole numbers yolo (pos 10) (pos 8) (regions (rows ∷ []))
        ≡ done (vectors whole found))
    × ((if ltb 1 1 || not yolo.opencv
          then suppress whole numbers yolo (vectors whole found)
          else done (vectors whole found))
        ≡ done (vectors whole kept))
    × All (Among found) kept
    × (postprocess whole numbers 1 (pos 10) (pos 8) (regions (rows ∷ [])) yolo track ≡ done t)
    × Follows whole numbers
        (last_of whole (pos 0) kept)
        (outlined whole (pos 0) kept)
        (record track { in_frame = false })
        t
postprocess-Follows_example =
    postprocess-Follows whole numbers place_zero first_only-Keeps 1 (pos 10) (pos 8) 2 (rows ∷ [])
      yolo track (omega arith) ((refl, (refl, tt)), tt) (omega arith)

abbrev box : Rect
box = record { x = pos 1; y = pos 1; width = pos 4; height = pos 4 }

abbrev seen : List (Detection whole)
seen =
    record { class_id = pos 1; confidence = pos 9; box = box }
    ∷ record { class_id = pos 0; confidence = pos 3; box = box }
    ∷ record { class_id = pos 1; confidence = pos 6; box = box }
    ∷ []
