-- ===== src/Detect/Prepare.antt =====
-- `create_dnn` and `preprocess` of Windows/XNlib/include/xn_yolo.hpp: the network, and the picture
-- as its input. OpenCV's networks are a parameter.
use robot_arm.Base.{◌≡◌, refl, ap, Bool, true, List, [], ◌∷◌, map, ℤ, pos, ltb_ℤ, if◌then◌else◌}

pub record InputSize : Type 0 where
  pub width : ℤ
  pub height : ℤ

-- What the two functions take from OpenCV. `image_info` is the matrix of a size and 1.6.
pub record Dnn : Type 1 where
  pub Net : Type 0
  pub Text : Type 0
  pub Picture : Type 0
  pub Blob : Type 0
  pub Number : Type 0
  pub one : Number
  pub cols : Picture → ℤ
  pub rows : Picture → ℤ
  pub read_net : Text → Text → Net
  pub set_preferable_backend : ℤ → Net → Net
  pub set_preferable_target : ℤ → Net → Net
  pub out_layers_names : Net → List Text
  pub blob_from_image : Picture → InputSize → Bool → Blob
  pub set_input : Blob → Number → Net → Net
  pub asks_for_info : Net → Bool
  pub image_info : InputSize → Blob
  pub set_info : Blob → Net → Net
  pub resize : InputSize → Picture → Picture

module _ (dnn : Dnn) where
  open dnn use {Net, Text, Picture, Number}

  -- The fields of `YoloInfo` that the two functions read or write.
  pub record NetInfo : Type 0 where
    pub inp_size : InputSize
    pub scale : Number
    pub swap_rb : Bool
    pub out_names : List Text
    pub backend : ℤ
    pub device : ℤ

  unfoldable pub create_dnn : Text → Text → NetInfo → NetInfo × Net
  create_dnn modelpath configpath yo =
      let net =
        dnn.set_preferable_target yo.device
          (dnn.set_preferable_backend yo.backend (dnn.read_net modelpath configpath)) in
      (record yo { out_names = dnn.out_layers_names net }, net)

  -- A side that is not given is the picture's.
  abbrev pub side : ℤ → ℤ → ℤ
  side given of_picture = if ltb_ℤ (pos 0) given then given else of_picture

  abbrev pub sized : Picture → InputSize → InputSize
  sized frame size = record {
    width = side size.width (dnn.cols frame);
    height = side size.height (dnn.rows frame);
  }

  pub record Prepared : Type 0 where
    pub frame : Picture
    pub info : NetInfo
    pub net : Net

  unfoldable pub preprocess : Prepared → Prepared
  preprocess p =
      let size = sized p.frame p.info.inp_size in
      let net =
        dnn.set_input (dnn.blob_from_image p.frame size p.info.swap_rb) p.info.scale p.net in
      let yo = record p.info { inp_size = size } in
      let asks = dnn.asks_for_info net in
      record {
        frame = if asks then dnn.resize size p.frame else p.frame;
        info = yo;
        net = if asks then dnn.set_info (dnn.image_info size) net else net;
      }

  -- The sizes that the pictures of a stream are given, one after the other.
  unfoldable pub sizes_of : List Picture → NetInfo → Net → List InputSize
  unfolding preprocess
  sizes_of [] yo net = []
  sizes_of (f ∷ fs) yo net =
      let p = preprocess (record { frame = f; info = yo; net = net }) in
      p.info.inp_size ∷ sizes_of fs p.info p.net

  HasSides : InputSize → Type 0
  HasSides size = (ltb_ℤ (pos 0) size.width ≡ true) × (ltb_ℤ (pos 0) size.height ≡ true)

  sized-HasSides : (frame : Picture) (size : InputSize) → HasSides size → sized frame size ≡ size
  unfolding HasSides
  sized-HasSides frame size (w, h) = rw w (rw h refl)

  -- A size that has both its sides stays the size for every picture that follows.
  sizes_of-same :
      (fs : List Picture) (yo : NetInfo) (net : Net)
      → HasSides yo.inp_size
      → sizes_of fs yo net ≡ map (λ f. yo.inp_size) fs
  unfolding sizes_of preprocess
  sizes_of-same [] yo net h = refl
  sizes_of-same (f ∷ fs) yo net h =
      let same = sized-HasSides f yo.inp_size h in
      rw same (ap (◌∷◌ yo.inp_size) (sizes_of-same fs yo _ h))
