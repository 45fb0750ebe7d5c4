-- ===== src/Search/Examples.antt =====
-- The theorems on the sweep at concrete inputs.
use robot_arm.Base.{◌≡◌, refl, inl, pos, ◌+ℤ◌, ◌≤ℤ◌, int_laws}
use robot_arm.Ws.Run.{done}
use robot_arm.Gpio.Examples.Servos.{whole, servo, smooth-InRange}
use robot_arm.Search.{Search, search}
use robot_arm.Search.Sweep.{IsSearch, search-IsSearch}

abbrev sweep : Search whole
sweep = record {
  dir = pos 1;
  servo_cam_x = servo;
  servo_cam_y = servo;
  cam_ang_orig = record { x = pos 0; y = pos 0 };
  cam_ang_diff = record { x = pos 0; y = pos 0 };
}

sweep-IsSearch : IsSearch whole (pos 500) (pos 2500) sweep
sweep-IsSearch = record { dir = inl refl; range = smooth-InRange }

wide : pos 500 +ℤ pos 299 ≤ℤ pos 2500
wide = omega int_laws

search-IsSearch_example :
    (s' : Search whole) × (search whole 20 sweep ≡ done s') × IsSearch whole (pos 500) (pos 2500) s'
search-IsSearch_example = search-IsSearch whole 20 (pos 500) (pos 2500) sweep wide sweep-IsSearch
