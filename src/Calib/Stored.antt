-- ===== src/Calib/Stored.antt =====
-- `Settings::write` and `Settings::read` of Windows/XNlib/include/cam_calib.hpp. How OpenCV turns
-- what a file holds into a field is a parameter.
use robot_arm.Base.{
  ℕ, ◌==◌, ◌≡◌, refl, ap, Bool, false, Option, none, some, List, [], ◌∷◌, ℤ, if◌then◌else◌,
}
use robot_arm.Floats.{Floats}
use robot_arm.Calib.{Text, Constants, Settings, validate}

-- The names under which the fields are kept, in the order of `write`, then those that only `read` has.
pub data Key : Type 0 where
  board_size_width board_size_height square_size calibrate_pattern : Key
  calibrate_nr_of_frame_to_use calibrate_fix_aspect_ratio : Key
  calibrate_assume_zero_tangential_distortion calibrate_fix_principal_point_at_the_center : Key
  write_detected_feature_points write_extrinsic_parameters write_grid_points : Key
  write_output_file_name show_undistorted_image input_flip_around_horizontal_axis : Key
  input_delay input_name calibrate_use_fisheye_model : Key
  fix_k1_key fix_k2_key fix_k3_key fix_k4_key fix_k5_key : Key

abbrev number_of : Key → ℕ
number_of board_size_width = 0
number_of board_size_height = 1
number_of square_size = 2
number_of calibrate_pattern = 3
number_of calibrate_nr_of_frame_to_use = 4
number_of calibrate_fix_aspect_ratio = 5
number_of calibrate_assume_zero_tangential_distortion = 6
number_of calibrate_fix_principal_point_at_the_center = 7
number_of write_detected_feature_points = 8
number_of write_extrinsic_parameters = 9
number_of write_grid_points = 10
number_of write_output_file_name = 11
number_of show_undistorted_image = 12
number_of input_flip_around_horizontal_axis = 13
number_of input_delay = 14
number_of input_name = 15
number_of calibrate_use_fisheye_model = 16
number_of fix_k1_key = 17
number_of fix_k2_key = 18
number_of fix_k3_key = 19
number_of fix_k4_key = 20
number_of fix_k5_key = 21

module _ (fl : Floats) where
  open fl use {Float, Double}

  pub data Value : Type 0 where
    int : ℤ → Value
    bool : Bool → Value
    real : Float → Value
    string : Text → Value

  -- `node[key] >> field`, by the field's type, on what the file holds under the key, if anything.
  pub record Reader : Type 0 where
    pub to_int : Option Value → ℤ
    pub to_bool : Option Value → Bool
    pub to_real : Option Value → Float
    pub to_string : Option Value → Text

  -- What is documented: a value is read as it was written, and a missing one as the type's default.
  pub record IsReader (rd : Reader) : Type 0 where
    pub int_written : (n : ℤ) → rd.to_int (some (int n)) ≡ n
    pub bool_written : (b : Bool) → rd.to_bool (some (bool b)) ≡ b
    pub real_written : (f : Float) → rd.to_real (some (real f)) ≡ f
    pub string_written : (t : Text) → rd.to_string (some (string t)) ≡ t
    pub bool_missing : rd.to_bool none ≡ false

  abbrev pub at_key : Key → List (Key × Value) → Option Value
  at_key k [] = none
  at_key k ((k', v) ∷ held) =
      let rest = at_key k held in if number_of k == number_of k' then some v else rest

  unfoldable pub write : Settings fl → List (Key × Value)
  write s =
      (board_size_width, int s.board_size.width)
      ∷ (board_size_height, int s.board_size.height)
      ∷ (square_size, real s.square_size)
      ∷ (calibrate_pattern, string s.pattern_to_use)
      ∷ (calibrate_nr_of_frame_to_use, int s.nr_frames)
      ∷ (calibrate_fix_aspect_ratio, real s.aspect_ratio)
      ∷ (calibrate_assume_zero_tangential_distortion, bool s.calib_zero_tangent_dist)
      ∷ (calibrate_fix_principal_point_at_the_center, bool s.calib_fix_principal_point)
      ∷ (write_detected_feature_points, bool s.write_points)
      ∷ (write_extrinsic_parameters, bool s.write_extrinsics)
      ∷ (write_grid_points, bool s.write_grid)
      ∷ (write_output_file_name, string s.output_file_name)
      ∷ (show_undistorted_image, bool s.show_undistorted)
      ∷ (input_flip_around_horizontal_axis, bool s.flip_vertical)
      ∷ (input_delay, int s.delay)
      ∷ (input_name, string s.input)
      ∷ []

  -- The assignments of `read`, before `validate`.
  unfoldable pub read_fields : Reader → List (Key × Value) → Settings fl → Settings fl
  read_fields rd held s = record s {
    board_size = record {
      width = rd.to_int (at_key board_size_width held);
      height = rd.to_int (at_key board_size_height held);
    };
    pattern_to_use = rd.to_string (at_key calibrate_pattern held);
    square_size = rd.to_real (at_key square_size held);
    nr_frames = rd.to_int (at_key calibrate_nr_of_frame_to_use held);
    aspect_ratio = rd.to_real (at_key calibrate_fix_aspect_ratio held);
    write_points = rd.to_bool (at_key write_detected_feature_points held);
    write_extrinsics = rd.to_bool (at_key write_extrinsic_parameters held);
    write_grid = rd.to_bool (at_key write_grid_points held);
    output_file_name = rd.to_string (at_key write_output_file_name held);
    calib_zero_tangent_dist = rd.to_bool (at_key calibrate_assume_zero_tangential_distortion held);
    calib_fix_principal_point =
        rd.to_bool (at_key calibrate_fix_principal_point_at_the_center held);
    use_fisheye = rd.to_bool (at_key calibrate_use_fisheye_model held);
    flip_vertical = rd.to_bool (at_key input_flip_around_horizontal_axis held);
    show_undistorted = rd.to_bool (at_key show_undistorted_image held);
    input = rd.to_string (at_key input_name held);
    delay = rd.to_int (at_key input_delay held);
    fix_k1 = rd.to_bool (at_key fix_k1_key held);
    fix_k2 = rd.to_bool (at_key fix_k2_key held);
    fix_k3 = rd.to_bool (at_key fix_k3_key held);
    fix_k4 = rd.to_bool (at_key fix_k4_key held);
    fix_k5 = rd.to_bool (at_key fix_k5_key held);
  }

  unfoldable pub read :
      Constants
      → Double
      → (Text → Option (List Text))
      → Reader
      → List (Key × Value)
      → Settings fl
      → Settings fl
  read cs tiny files rd held s = validate fl cs tiny files (read_fields rd held s)

  -- The fields of `s` that `write` keeps, with `x` for what is not asked for in a file.
  abbrev pub kept : Settings fl → Settings fl → Settings fl
  kept s x = record s {
    use_fisheye = false;
    fix_k1 = false;
    fix_k2 = false;
    fix_k3 = false;
    fix_k4 = false;
    fix_k5 = false;
    calibration_pattern = x.calibration_pattern;
    camera_id = x.camera_id;
    image_list = x.image_list;
    at_image_list = x.at_image_list;
    input_type = x.input_type;
    good_input = x.good_input;
    flag = x.flag;
  }

module _ (fl : Floats) (rd : Reader fl) (law : IsReader fl rd) where
  open law use {int_written, bool_written, real_written, string_written, bool_missing}

  read_fields-write : (s x : Settings fl) → read_fields fl rd (write fl s) x ≡ kept fl s x
  unfolding read_fields write
  read_fields-write s x =
      rw
        (
          int_written s.board_size.width,
          int_written s.board_size.height,
          int_written s.nr_frames,
          int_written s.delay,
          bool_written s.write_points,
          bool_written s.write_extrinsics,
          bool_written s.write_grid,
          bool_written s.calib_zero_tangent_dist,
          bool_written s.calib_fix_principal_point,
          bool_written s.flip_vertical,
          bool_written s.show_undistorted,
          real_written s.square_size,
          real_written s.aspect_ratio,
          string_written s.pattern_to_use,
          string_written s.output_file_name,
          string_written s.input,
          bool_missing,
        )
        refl

  -- Settings that are written and read into others are checked like the ones that were written, but
  -- for the model of the lens and the five fixed coefficients: those are read as false.
  read-write :
      (cs : Constants) (tiny : fl.Double) (files : Text → Option (List Text)) (s x : Settings fl)
      → read fl cs tiny files rd (write fl s) x ≡ validate fl cs tiny files (kept fl s x)
  unfolding read
  read-write cs tiny files s x = ap (validate fl cs tiny files) (read_fields-write s x)
