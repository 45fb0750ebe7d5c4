-- ===== src/Calib/Program.antt =====
-- `calibrate_camera` of Windows/XNlib/include/cam_calib.hpp from the file of its settings to its
-- end: the settings are read (Calib/Stored), the loop runs (Calib/Capture), and the pictures of a
-- list are shown.
use robot_arm.Base.{
  ℕ, ◌==◌, Bool, true, false, ◌&&◌, ◌||◌, Option, none, some, List, [], ◌∷◌, ℤ, if◌then◌else◌,
}
use robot_arm.Floats.{Floats}
use robot_arm.Ws.Run.{Run, done, ◌>>=◌}
use robot_arm.Calib.{Text, Constants, Settings, InputType, image_list}
use robot_arm.Calib.Stored.{Key, Value, Reader, read}
use robot_arm.Calib.Errors.{Opencv}
use robot_arm.Calib.Capture.{Pictures, Session, Next, again, stop, Round, calibrate_camera}

abbrev pub is_image_list : InputType → Bool
is_image_list image_list = true
is_image_list _ = false

-- ESC, 'q' and 'Q'
abbrev pub quits : ℕ → Bool
quits c = (c == 27) || ((c == 113) || (c == 81))

module _ (fl : Floats) (cv : Opencv fl) (pics : Pictures fl cv) where
  open fl use {Double}
  open pics use {Picture, is_empty}

  -- The pictures that are shown of the files in the list, each with `remap`; a key is read for each.
  -- Without one the program waits.
  unfoldable pub show_pictures :
      (Text → Picture) → (Picture → Picture) → List Text → List ℕ → List Picture
  show_pictures imread remap [] keys = []
  show_pictures imread remap (n ∷ ns) [] =
      let rest = show_pictures imread remap ns [] in
      if is_empty (imread n) then rest else remap (imread n) ∷ []
  show_pictures imread remap (n ∷ ns) (k ∷ ks) =
      let same = show_pictures imread remap ns (k ∷ ks) in
      let next = show_pictures imread remap ns ks in
      if is_empty (imread n) then same else remap (imread n) ∷ (if quits k then [] else next)

  -- What the program has come to: the exit with -1, the loop, or the pictures that it has shown at
  -- its end.
  pub data Outcome : Type 0 where
    refused : Outcome
    running : Session fl cv → Outcome
    finished : Session fl cv → List Picture → Outcome

  -- The library and the user: what the files hold, the pictures in files, the maps of the last
  -- calibration, and the keys at the end.
  pub record Desk : Type 0 where
    pub files : Text → Option (List Text)
    pub imread : Text → Picture
    pub remap : Session fl cv → Picture → Picture
    pub keys : List ℕ

  unfoldable pub show_results : Desk → Settings fl → Session fl cv → List Picture
  show_results d s t =
      if is_image_list s.input_type && t.show_undistorted
      then show_pictures d.imread (d.remap t) s.image_list d.keys
      else []

  abbrev pub outcome_of : Desk → Settings fl → Next fl cv → Outcome
  outcome_of d s (again t) = running t
  outcome_of d s (stop t) = finished t (show_results d s t)

  -- `fs["Settings"] >> s`: a file without the node gives the settings of the constructor.
  unfoldable pub load_settings :
      Constants
      → Double
      → Desk
      → Reader fl
      → Option (List (Key × Value fl))
      → Settings fl
      → Settings fl
  load_settings cs tiny d rd none blank = record blank { good_input = false }
  load_settings cs tiny d rd (some held) blank =
      read fl cs tiny d.files rd held (record blank { good_input = false })

  -- `node` is `none` if the file of the settings does not open.
  unfoldable pub calibrate_program :
      Constants
      → Double
      → Desk
      → Reader fl
      → Option (Option (List (Key × Value fl)))
      → Settings fl
      → ℤ
      → List (Round fl cv pics)
      → Run Outcome
  calibrate_program cs tiny d rd none blank win rs = done refused
  calibrate_program cs tiny d rd (some node) blank win rs =
      let s = load_settings cs tiny d rd node blank in
      elim (calibrate_camera fl cv pics cs s win rs) [
        | none ↦ done refused
        | some loop ↦ loop >>= λ n. done (outcome_of d s n)
      ]
