-- ===== src/Calib/Examples.antt =====
-- The theorems on the calibration at concrete inputs, with whole numbers for floating-point ones and
-- an OpenCV that finds its pattern on every picture.
mod Program
use robot_arm.Base.{
  ℕ, ◌≡◌, ◌↔◌, refl, inl, Bool, true, false, Option, none, some, List, [], ◌∷◌, ℤ, pos, length,
  length-replicate, replicate, arith,
}
use robot_arm.Ws.Run.{done}
use robot_arm.Gpio.Examples.Servos.{whole}
use robot_arm.Calib.{
  Text, Size, Constants, Settings, chessboard, camera, chessboard_name, pattern_of, validate,
}
use robot_arm.Calib.Stored.{Value, int, bool, real, string, Reader, IsReader}
use robot_arm.Calib.Errors.{Opencv}
use robot_arm.Calib.Solve.{Calibration}
use robot_arm.Calib.Solved.{ForEachView}
use robot_arm.Calib.Capture.{Pictures, Round, Next, calibrate_camera}
use robot_arm.Calib.Valid.{IsGood, validate-IsGood}
use robot_arm.Calib.Saved.{File, save_camera_params}
use robot_arm.Calib.Reloaded.{Holds, save_camera_params-Holds}
use robot_arm.Calib.Pictures.{Counted, session, calibrate_camera-Counted}

-- The values that OpenCV documents.
abbrev pub constants : Constants
constants = record {
  fix_principal_point = 4;
  zero_tangent_dist = 8;
  fix_aspect_ratio = 2;
  fix_k1 = 32;
  fix_k2 = 64;
  fix_k3 = 128;
  fix_k4 = 2048;
  fix_k5 = 4096;
  fisheye_fix_skew = 8;
  fisheye_recompute_extrinsic = 2;
  fisheye_fix_k1 = 16;
  fisheye_fix_k2 = 32;
  fisheye_fix_k3 = 64;
  fisheye_fix_k4 = 128;
  fisheye_fix_principal_point = 512;
  use_lu = 131072;
}

-- "a.yml"
abbrev pub list_name : Text
list_name = 97 ∷ 46 ∷ 121 ∷ 109 ∷ 108 ∷ []

abbrev pub settings : Settings whole
settings = record {
  board_size = record { width = pos 3; height = pos 2 };
  calibration_pattern = chessboard;
  square_size = pos 5;
  nr_frames = pos 2;
  aspect_ratio = pos 0;
  delay = pos 0;
  write_points = false;
  write_extrinsics = false;
  write_grid = false;
  calib_zero_tangent_dist = false;
  calib_fix_principal_point = false;
  flip_vertical = false;
  output_file_name = [];
  show_undistorted = false;
  input = list_name;
  use_fisheye = true;
  fix_k1 = false;
  fix_k2 = false;
  fix_k3 = false;
  fix_k4 = false;
  fix_k5 = false;
  camera_id = pos 0;
  image_list = [];
  at_image_list = 0;
  input_type = camera;
  good_input = true;
  flag = [];
  pattern_to_use = chessboard_name;
}

abbrev no_files : Text → Option (List Text)
no_files t = none

abbrev empty_files : Text → Option (List Text)
empty_files t = some []

settings-IsGood : IsGood whole (pos 0) settings
unfolding pattern_of
settings-IsGood = record {
  width = omega arith;
  height = omega arith;
  square = refl;
  frames = omega arith;
  named = λ e. cc;
  known = inl refl;
}

validate-IsGood_example :
    ((validate whole constants (pos 0) no_files settings).good_input ≡ true)
    ↔ IsGood whole (pos 0) settings
validate-IsGood_example = validate-IsGood whole constants (pos 0) no_files settings

abbrev pub finds : Opencv whole
finds = record {
  Mat = ℕ;
  Point2 = ℕ;
  project_points = λ fisheye o r t c d. [];
  norm = λ a b. pos 1;
  check_range = λ m. true;
  calibrate = λ o i size f g flag. record {
    camera_matrix = 1;
    dist_coeffs = 1;
    rvecs = replicate (length i) 1;
    tvecs = replicate (length i) 1;
    new_obj_points = [];
  };
  fisheye_calibrate = λ o i size g flag. record {
    camera_matrix = 1;
    dist_coeffs = 1;
    rvecs = replicate (length i) 1;
    tvecs = replicate (length i) 1;
    new_obj_points = [];
  };
}

pub finds-ForEachView : ForEachView whole finds
finds-ForEachView = record {
  rvecs = λ o i size f g flag. length-replicate (length i) 1;
  tvecs = λ o i size f g flag. length-replicate (length i) 1;
  fisheye_rvecs = λ o i size g flag. length-replicate (length i) 1;
  fisheye_tvecs = λ o i size g flag. length-replicate (length i) 1;
}

abbrev pub boards : Pictures whole finds
boards = record {
  Picture = ℕ;
  is_empty = λ p. false;
  size = λ p. record { width = pos 8; height = pos 6 };
  flip = λ p. p;
  find_chessboard_corners = λ p size fast. some (p ∷ []);
  find_circles_grid = λ p size asymmetric. none;
  corner_sub_pix = λ p win points. points;
  milli = pos 1;
  per_second = pos 1;
}

abbrev pub seen_at : ℤ → ℕ → Round whole finds boards
seen_at at key = record { view = 5; clock = at; clock_after = at; key = key }

abbrev int_of : Option (Value whole) → ℤ
int_of (some (int n)) = n
int_of _ = pos 0

abbrev bool_of : Option (Value whole) → Bool
bool_of (some (bool b)) = b
bool_of _ = false

abbrev real_of : Option (Value whole) → ℤ
real_of (some (real f)) = f
real_of _ = pos 0

abbrev string_of : Option (Value whole) → Text
string_of (some (string t)) = t
string_of _ = []

abbrev pub reader : Reader whole
reader = record { to_int = int_of; to_bool = bool_of; to_real = real_of; to_string = string_of }

reader-IsReader : IsReader whole reader
reader-IsReader = record {
  int_written = λ n. refl;
  bool_written = λ b. refl;
  real_written = λ f. refl;
  string_written = λ t. refl;
  bool_missing = refl;
}

-- The calibration of two views of two points.
abbrev calibration : Calibration whole finds
calibration = record {
  camera = record {
    camera_matrix = 6;
    dist_coeffs = 7;
    rvecs = 1 ∷ 2 ∷ [];
    tvecs = 3 ∷ 4 ∷ [];
    new_obj_points = [];
  };
  reproj_errs = pos 1 ∷ pos 1 ∷ [];
  total_avg_err = pos 1;
  ok = true;
}

abbrev three_numbers : ℕ → List ℤ
three_numbers n = pos n ∷ pos n ∷ pos n ∷ []

abbrev keeps_all : Settings whole
keeps_all = record settings { write_points = true; write_extrinsics = true }

abbrev two_views : List (List ℕ)
two_views = (1 ∷ 2 ∷ []) ∷ (3 ∷ 4 ∷ []) ∷ []

abbrev picture_size : Size
picture_size = record { width = pos 8; height = pos 6 }

save_camera_params-Holds_example :
    (file : File whole finds) × (save_camera_params whole finds three_numbers constants keeps_all
        picture_size list_name two_views calibration
      ≡ done file)
    × Holds whole finds 0 three_numbers keeps_all two_views calibration file
save_camera_params-Holds_example =
    save_camera_params-Holds whole finds 0 three_numbers constants keeps_all picture_size list_name
      2 two_views calibration refl (refl, (refl, tt))
