-- ===== src/Calib/Finished.antt =====
-- The calibration program (Calib/Program) from its settings' file to its end.
use robot_arm.Base.{ℕ, suc, ◌≡◌, true, false, ◌&&◌, List, [], ◌∷◌, map, if◌then◌else◌, take}
use robot_arm.Floats.{Floats}
use robot_arm.Calib.{Settings}
use robot_arm.Calib.Errors.{Opencv}
use robot_arm.Calib.Capture.{Pictures, size_of_int}
use robot_arm.Calib.Pictures.{Counted}
use robot_arm.Calib.Program.{is_image_list, quits, Outcome, refused, running, finished, Desk}

-- How many pictures are shown at most: one for each key up to the first that quits, and one more
-- where none does.
abbrev pub asked : List ℕ → ℕ
asked [] = 1
asked (k ∷ ks) = if quits k then 1 else suc (asked ks)

module _ (fl : Floats) (cv : Opencv fl) (pics : Pictures fl cv) where
  open fl use {Double}
  open pics use {Picture, is_empty}

  abbrev pub nonempty : List Picture → List Picture
  nonempty [] = []
  nonempty (v ∷ vs) = if is_empty v then nonempty vs else v ∷ nonempty vs

  -- What the program has come to, for its settings.
  abbrev pub Fine : Desk fl cv pics → Settings fl → Outcome fl cv pics → Type 0
  Fine d s refused = s.good_input ≡ false
  Fine d s (running t) = (s.good_input ≡ true) × Counted fl cv (size_of_int s.nr_frames) t
  Fine d s (finished t shown) =
      (s.good_input ≡ true)
      × Counted fl cv (size_of_int s.nr_frames) t
      × (shown ≡ (
          if is_image_list s.input_type && t.show_undistorted
          then take (asked d.keys) (map (d.remap t) (nonempty (map d.imread s.image_list)))
          else []))
