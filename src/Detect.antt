-- ===== src/Detect.antt =====
-- Windows/XNlib/include/xn_yolo.hpp: what the network sees in a picture, and the object that the
-- program follows. OpenCV's functions and the strings are a parameter; `int` sums do not overflow.
pub mod Decode
pub mod Suppress
pub mod Track
pub mod Kept
pub mod Followed
pub mod Label
pub mod Whole
pub mod Prepare
pub mod Examples
use robot_arm.Base.{
  ℕ, zero, suc, Bool, true, false, List, [], ◌∷◌, map, ℤ, pos, Option, none, some, if◌then◌else◌,
}
use robot_arm.Floats.{Floats}

-- `cv::Rect`
pub record Rect : Type 0 where
  pub x : ℤ
  pub y : ℤ
  pub width : ℤ
  pub height : ℤ

-- `cv::Point2i`
pub record Point2i : Type 0 where
  pub x : ℤ
  pub y : ℤ

pub record TextSize : Type 0 where
  pub width : ℤ
  pub height : ℤ
  pub base_line : ℤ

module _ (fl : Floats) where
  open fl use {Float, Double}

  -- What the code takes from OpenCV and from `std::string`: the greatest score with its place, the
  -- indices that survive the suppression, the number `"%.2f"`, `a + ": " + b` and a text's size.
  pub record Vision : Type 1 where
    pub Text : Type 0
    pub same : Text → Text → Bool
    pub format : Float → Text
    pub titled : Text → Text → Text
    pub text_size : Text → TextSize
    pub min_max_loc : List Float → Double × ℤ
    pub nms_boxes : List Rect → List Float → Float → Float → List ℕ

  -- The fields that the picture's analysis reads; `opencv` tells whether `backend` is OpenCV's own.
  pub record YoloInfo : Type 0 where
    pub conf_thres : Float
    pub nms_thres : Float
    pub opencv : Bool

  -- The three vectors of `postprocess`.
  pub record Found : Type 0 where
    pub class_ids : List ℤ
    pub confidences : List Float
    pub boxes : List Rect

  pub record Detection : Type 0 where
    pub class_id : ℤ
    pub confidence : Float
    pub box : Rect

  abbrev pub nothing : Found
  nothing = record { class_ids = []; confidences = []; boxes = [] }

  -- A detection at the front of the three vectors: the loops are read from their end.
  abbrev pub push : Detection → Found → Found
  push d f = record {
    class_ids = d.class_id ∷ f.class_ids;
    confidences = d.confidence ∷ f.confidences;
    boxes = d.box ∷ f.boxes;
  }

module _ (fl : Floats) (cv : Vision fl) where
  open cv use {Text, same}

  -- What is drawn on the picture.
  pub data Draw : Type 0 where
    outline : (left top right bottom : ℤ) → Bool → Draw
    filled : (left top right bottom : ℤ) → Draw
    text : Text → (left top : ℤ) → Draw

  pub record TrackingInfo : Type 0 where
    pub classes : List Text
    pub label : Text
    pub id : ℤ
    pub center : Point2i
    pub base : Point2i
    pub in_frame : Bool
    pub frame : List Draw

  pub data Loaded : Type 0 where
    ready : TrackingInfo → Loaded
    file_not_found label_not_found : Loaded

  abbrev one_more : Option ℕ → Option ℕ
  one_more none = none
  one_more (some n) = some (suc n)

  -- `std::find`, as the distance from the beginning
  unfoldable pub find : Text → List Text → Option ℕ
  find label [] = none
  find label (c ∷ cs) = let rest = find label cs in if same c label then some 0 else one_more rest

  abbrev pub tracking_at : Text → List Text → Option ℕ → Loaded
  tracking_at label classes none = label_not_found
  tracking_at label classes (some n) = ready (record {
    classes = classes;
    label = label;
    id = pos n;
    center = record { x = pos 0; y = pos 0 };
    base = record { x = pos 0; y = pos 0 };
    in_frame = false;
    frame = [];
  })

  -- The constructor, on the lines of the class file if it opens.
  unfoldable pub tracking_info : Text → Option (List Text) → Loaded
  unfolding find
  tracking_info label none = file_not_found
  tracking_info label (some classes) = tracking_at label classes (find label classes)
