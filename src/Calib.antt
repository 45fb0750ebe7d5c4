-- ===== src/Calib.antt =====
-- Windows/XNlib/include/cam_calib.hpp: the calibration of the camera from pictures of a board. Here
-- are the settings and their check. OpenCV is a parameter: the constants here, the functions in the
-- modules that call them.
pub mod Stored
pub mod Board
pub mod Errors
pub mod Solve
pub mod Capture
pub mod Fisheye
pub mod Valid
pub mod Solved
pub mod Pictures
pub mod Saved
pub mod Reloaded
pub mod Program
pub mod Finished
mod Examples
use robot_arm.Base.{
  ℕ, zero, suc, ◌+◌, ◌-◌, ◌*◌, ◌^◌, min, leb, ltb, ◌==◌, Bool, true, false, not, ◌&&◌, ◌||◌, Option,
  none, some, List, [], ◌∷◌, ◌++◌, length, ℤ, pos, ltb_ℤ, if◌then◌else◌,
}
use robot_arm.Floats.{Floats}

pub data Pattern : Type 0 where
  not_existing chessboard circles_grid asymmetric_circles_grid : Pattern

pub data InputType : Type 0 where
  invalid camera video_file image_list : InputType

pub record Size : Type 0 where
  pub width : ℤ
  pub height : ℤ

-- OpenCV's constants, one bit each.
pub record Constants : Type 0 where
  pub fix_principal_point : ℕ
  pub zero_tangent_dist : ℕ
  pub fix_aspect_ratio : ℕ
  pub fix_k1 : ℕ
  pub fix_k2 : ℕ
  pub fix_k3 : ℕ
  pub fix_k4 : ℕ
  pub fix_k5 : ℕ
  pub fisheye_fix_skew : ℕ
  pub fisheye_recompute_extrinsic : ℕ
  pub fisheye_fix_k1 : ℕ
  pub fisheye_fix_k2 : ℕ
  pub fisheye_fix_k3 : ℕ
  pub fisheye_fix_k4 : ℕ
  pub fisheye_fix_principal_point : ℕ
  pub use_lu : ℕ

-- A string, by its characters' codes.
abbrev pub Text : Type 0
Text = List ℕ

abbrev pub same : Text → Text → Bool
same [] [] = true
same (a ∷ s) (b ∷ t) = (a == b) && same s t
same _ _ = false

abbrev pub has_prefix : Text → Text → Bool
has_prefix [] s = true
has_prefix (a ∷ t) [] = false
has_prefix (a ∷ t) (b ∷ s) = (a == b) && has_prefix t s

-- `s.find(t) != npos`
abbrev pub contains : Text → Text → Bool
contains t [] = has_prefix t []
contains t (c ∷ s) = has_prefix t (c ∷ s) || contains t s

-- ".xml", ".yaml" and ".yml"
unfoldable pub is_list_of_images : Text → Bool
is_list_of_images s =
    contains (46 ∷ 120 ∷ 109 ∷ 108 ∷ []) s
    || contains (46 ∷ 121 ∷ 97 ∷ 109 ∷ 108 ∷ []) s
    || contains (46 ∷ 121 ∷ 109 ∷ 108 ∷ []) s

abbrev pub is_digit : ℕ → Bool
is_digit c = leb 48 c && leb c 57

abbrev pub leading_number : ℕ → Text → ℕ
leading_number n [] = n
leading_number n (c ∷ s) =
    let rest = leading_number (n * 10 + (c - 48)) s in if is_digit c then rest else n

-- `ss >> cameraID`, where the first character is a digit
abbrev pub camera_id_of : Text → ℤ
camera_id_of s = pos (min (leading_number 0 s) (2 ^ 31 - 1))

-- "CHESSBOARD", "CIRCLES_GRID" and "ASYMMETRIC_CIRCLES_GRID"
abbrev pub chessboard_name : Text
chessboard_name = 67 ∷ 72 ∷ 69 ∷ 83 ∷ 83 ∷ 66 ∷ 79 ∷ 65 ∷ 82 ∷ 68 ∷ []

abbrev pub circles_grid_name : Text
circles_grid_name = 67 ∷ 73 ∷ 82 ∷ 67 ∷ 76 ∷ 69 ∷ 83 ∷ 95 ∷ 71 ∷ 82 ∷ 73 ∷ 68 ∷ []

abbrev pub asymmetric_name : Text
asymmetric_name = 65 ∷ 83 ∷ 89 ∷ 77 ∷ 77 ∷ 69 ∷ 84 ∷ 82 ∷ 73 ∷ 67 ∷ 95 ∷ circles_grid_name

unfoldable pub pattern_of : Text → Pattern
pattern_of s =
    if same s asymmetric_name
    then asymmetric_circles_grid
    else if same s circles_grid_name
    then circles_grid
    else if same s chessboard_name
    then chessboard
    else not_existing

-- `if (b) flag |= bit`
abbrev pub add_if : Bool → ℕ → List ℕ → List ℕ
add_if b bit flag = if b then bit ∷ flag else flag

abbrev pub has : ℕ → List ℕ → Bool
has bit [] = false
has bit (b ∷ flag) = (b == bit) || has bit flag

abbrev pub is_invalid : InputType → Bool
is_invalid invalid = true
is_invalid _ = false

abbrev pub is_missing : Pattern → Bool
is_missing not_existing = true
is_missing _ = false

module _ (fl : Floats) where
  open fl use {Float, Double, of_int, at_least, at_least_d, widen}

  -- `flag` is the list of the bits that are set.
  pub record Settings : Type 0 where
    pub board_size : Size
    pub calibration_pattern : Pattern
    pub square_size : Float
    pub nr_frames : ℤ
    pub aspect_ratio : Float
    pub delay : ℤ
    pub write_points : Bool
    pub write_extrinsics : Bool
    pub write_grid : Bool
    pub calib_zero_tangent_dist : Bool
    pub calib_fix_principal_point : Bool
    pub flip_vertical : Bool
    pub output_file_name : Text
    pub show_undistorted : Bool
    pub input : Text
    pub use_fisheye : Bool
    pub fix_k1 : Bool
    pub fix_k2 : Bool
    pub fix_k3 : Bool
    pub fix_k4 : Bool
    pub fix_k5 : Bool
    pub camera_id : ℤ
    pub image_list : List Text
    pub at_image_list : ℕ
    pub input_type : InputType
    pub good_input : Bool
    pub flag : List ℕ
    pub pattern_to_use : Text

  abbrev is_zero : Float → Bool
  is_zero f = at_least f (of_int (pos 0)) && at_least (of_int (pos 0)) f

  unfoldable pub standard_flags : Constants → Settings → List ℕ
  standard_flags cs s = add_if s.fix_k5 cs.fix_k5 (
      add_if s.fix_k4 cs.fix_k4 (
        add_if s.fix_k3 cs.fix_k3 (
          add_if s.fix_k2 cs.fix_k2 (
            add_if s.fix_k1 cs.fix_k1 (
              add_if (not (is_zero s.aspect_ratio)) cs.fix_aspect_ratio (
                add_if s.calib_zero_tangent_dist cs.zero_tangent_dist
                  (add_if s.calib_fix_principal_point cs.fix_principal_point [])))))))

  unfoldable pub fisheye_flags : Constants → Settings → List ℕ
  fisheye_flags cs s = add_if s.calib_fix_principal_point cs.fisheye_fix_principal_point (
      add_if s.fix_k4 cs.fisheye_fix_k4 (
        add_if s.fix_k3 cs.fisheye_fix_k3 (
          add_if s.fix_k2 cs.fisheye_fix_k2 (
            add_if s.fix_k1 cs.fisheye_fix_k1
              (cs.fisheye_recompute_extrinsic ∷ cs.fisheye_fix_skew ∷ [])))))

  -- `readStringList` on what the file holds, if it opens and holds a sequence: the list is cleared in
  -- any case.
  abbrev pub read_string_list : Option (List Text) → Bool × List Text
  read_string_list none = (false, [])
  read_string_list (some l) = (true, l)

  -- The fewer of the frames asked for and the pictures of the list.
  abbrev pub listed : Settings → Bool × List Text → Settings
  listed s (true, l) = record s {
    image_list = l;
    input_type = image_list;
    nr_frames = if ltb_ℤ s.nr_frames (pos (length l)) then s.nr_frames else pos (length l);
  }
  listed s (false, l) = record s { image_list = l; input_type = video_file }

  -- The choice of the input by its name; `files` is what the files hold.
  unfoldable pub choose_input : (Text → Option (List Text)) → Text → Settings → Settings
  choose_input files [] s = record s { input_type = invalid }
  choose_input files (c ∷ cs) s =
      if is_digit c
      then record s { camera_id = camera_id_of (c ∷ cs); input_type = camera }
      else if is_list_of_images (c ∷ cs)
      then listed s (read_string_list (files (c ∷ cs)))
      else record s { input_type = video_file }

  -- What the check of the numbers leaves of `goodInput`; `tiny` is 10e-6.
  unfoldable pub good_numbers : Double → Settings → Bool
  good_numbers tiny s =
      not (ltb_ℤ s.board_size.width (pos 1) || ltb_ℤ s.board_size.height (pos 1))
      && not (at_least_d tiny (widen s.square_size))
      && not (ltb_ℤ s.nr_frames (pos 1))

  unfoldable pub validate : Constants → Double → (Text → Option (List Text)) → Settings → Settings
  validate cs tiny files s =
      let t = choose_input files s.input s in
      let pattern = pattern_of s.pattern_to_use in
      record t {
        good_input =
            good_numbers tiny s && not (is_invalid t.input_type) && not (is_missing pattern);
        flag = if s.use_fisheye then fisheye_flags cs s else standard_flags cs s;
        calibration_pattern = pattern;
        at_image_list = 0;
      }
