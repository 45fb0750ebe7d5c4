-- ===== src/Detect/Suppress.antt =====
-- The second part of `postprocess` of Windows/XNlib/include/xn_yolo.hpp: of boxes of one class that
-- overlap, OpenCV's `NMSBoxes` says which stay.
use robot_arm.Base.{ℕ, zero, suc, List, [], ◌∷◌, ◌++◌, ℤ, eqb_ℤ, ltb_ℤ, if◌then◌else◌}
use robot_arm.Floats.{Floats}
use robot_arm.Ws.Run.{Run, done, bad_pointer, ◌>>=◌}
use robot_arm.Detect.{Vision, YoloInfo, Found, nothing}

-- `std::map<int, std::vector<size_t>>`: the keys in their order.
abbrev pub Groups : Type 0
Groups = List (ℤ × List ℕ)

-- `class2indices[class].push_back(i)`
unfoldable pub push_index : ℤ → ℕ → Groups → Groups
push_index class i [] = (class, i ∷ []) ∷ []
push_index class i ((c, is) ∷ groups) =
    let rest = push_index class i groups in
    if eqb_ℤ class c
    then (c, is ++ i ∷ []) ∷ groups
    else if ltb_ℤ class c
    then (class, i ∷ []) ∷ (c, is) ∷ groups
    else (c, is) ∷ rest

-- `v[i]`
abbrev pub index : {A : Type 0} → List A → ℕ → Run A
index [] i = bad_pointer
index (x ∷ xs) zero = done x
index (x ∷ xs) (suc i) = index xs i

-- `v[i]` for each of the indices
abbrev pub select : {A : Type 0} → List A → List ℕ → Run (List A)
select xs [] = done []
select xs (i ∷ is) = do x ← index xs i; rest ← select xs is; done (x ∷ rest)

module _ (fl : Floats) where
  open fl use {Float, at_least}

  -- The loop over the detections from the index `i` on.
  unfoldable pub group : Float → ℕ → List ℤ → List Float → Groups → Run Groups
  unfolding push_index
  group thres i [] confidences groups = done groups
  group thres i (c ∷ class_ids) [] groups = bad_pointer
  group thres i (c ∷ class_ids) (conf ∷ confidences) groups =
      group thres (suc i) class_ids confidences
        (if at_least conf thres then push_index c i groups else groups)

  abbrev pub join : Found fl → Found fl → Found fl
  join f g = record {
    class_ids = f.class_ids ++ g.class_ids;
    confidences = f.confidences ++ g.confidences;
    boxes = f.boxes ++ g.boxes;
  }

  -- `push_back(it->first)`, once for each index
  abbrev pub repeat : ℤ → List ℕ → List ℤ
  repeat c [] = []
  repeat c (i ∷ is) = c ∷ repeat c is

module _ (fl : Floats) (cv : Vision fl) where
  open cv use {nms_boxes}

  -- What stays of one class.
  unfoldable pub suppress_class : YoloInfo fl → Found fl → ℤ → List ℕ → Run (Found fl)
  suppress_class yo f c is = do
    local_boxes ← select f.boxes is
    local_confidences ← select f.confidences is
    let kept = nms_boxes local_boxes local_confidences yo.conf_thres yo.nms_thres
    boxes ← select local_boxes kept
    confidences ← select local_confidences kept
    done (record { class_ids = repeat fl c kept; confidences = confidences; boxes = boxes })

  -- The loop over the classes.
  unfoldable pub suppress_all : YoloInfo fl → Found fl → Groups → Run (Found fl)
  suppress_all yo f [] = done (nothing fl)
  suppress_all yo f ((c, is) ∷ groups) = do
    found ← suppress_class yo f c is
    rest ← suppress_all yo f groups
    done (join fl found rest)

  unfoldable pub suppress : YoloInfo fl → Found fl → Run (Found fl)
  suppress yo f = do
    groups ← group fl yo.conf_thres 0 f.class_ids f.confidences []
    suppress_all yo f groups
