-- ===== src/Calib/Examples/Program.antt =====
-- The calibration program on a file of settings with a list of three pictures.
use robot_arm.Base.{ℕ, true, Option, some, List, [], ◌∷◌, pos}
use robot_arm.Gpio.Examples.Servos.{whole}
use robot_arm.Calib.{Text}
use robot_arm.Calib.Stored.{Key, Value, write}
use robot_arm.Calib.Capture.{Round}
use robot_arm.Calib.Program.{Desk}
use robot_arm.Calib.Examples.{settings, boards, seen_at, finds}

abbrev three_names : Text → Option (List Text)
three_names t = some ((1 ∷ []) ∷ (2 ∷ []) ∷ (3 ∷ []) ∷ [])

abbrev first_code : Text → ℕ
first_code [] = 0
first_code (c ∷ t) = c

abbrev desk : Desk whole finds boards
desk = record { files = three_names; imread = first_code; remap = λ t v. v; keys = 0 ∷ 113 ∷ [] }

abbrev held : List (Key × Value whole)
held = write whole (record settings { show_undistorted = true })

abbrev pictures : List (Round whole finds boards)
pictures =
    seen_at (pos 1) 103
    ∷ seen_at (pos 2) 0
    ∷ seen_at (pos 3) 0
    ∷ seen_at (pos 4) 0
    ∷ seen_at (pos 5) 27
    ∷ []
