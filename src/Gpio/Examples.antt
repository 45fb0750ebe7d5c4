-- ===== src/Gpio/Examples.antt =====
-- The theorems on the encoder and the camera at concrete inputs.
pub mod Servos
use robot_arm.Base.{ℕ, ◌<◌, ◌≡◌, refl, true, some, List, [], ◌∷◌, pos, negsuc, ◌+ℤ◌, ◌/ℤ◌, arith}
use robot_arm.Gpio.Rotary.{RotaryEncoder, rotary_encoder, red_mode_detent, red_mode_step}
use robot_arm.Gpio.Rotary.Turns.{
  Turn, forward, backward, q00, q11, alert, InSync, follow, arrives, net, follow-net,
}
use robot_arm.Gpio.Rotary.Reports.{UpToDate, alerts, alerts-UpToDate}
use robot_arm.Gpio.Camera.{
  ov2640, ov5642, Size, size, set_jpeg_size, Arducam, arducam, jpeg_size, set_quality,
}
use robot_arm.Gpio.Camera.Sizes.{pixels, quality_monotone, resolution_stale, quality_ignored}

abbrev encoder : RotaryEncoder
encoder = record {
  pin_a = 4;
  pin_b = 5;
  lev_a = 0;
  lev_b = 0;
  state_old = 0;
  step = pos 7;
  mode = red_mode_detent;
  glitch = 1000;
  has_callback = true;
  calls = pos 1 ∷ [];
}

encoder-InSync : InSync q00 encoder
encoder-InSync = record { pins = omega arith; a = refl; b = refl; state = refl }

abbrev turns : List Turn
turns = forward ∷ forward ∷ backward ∷ []

follow-net_example :
    InSync (arrives turns q00) (follow turns q00 encoder)
    × ((follow turns q00 encoder).step ≡ pos 7 +ℤ net turns)
follow-net_example = follow-net turns q00 encoder encoder-InSync

encoder-UpToDate : UpToDate (pos 0) encoder
unfolding ◌/ℤ◌
encoder-UpToDate = record { listens = refl; current = refl }

alerts-UpToDate_example : UpToDate (pos 0) (alerts ((4, 1) ∷ (5, 2) ∷ (5, 1) ∷ []) encoder)
alerts-UpToDate_example =
    alerts-UpToDate (pos 0) ((4, 1) ∷ (5, 2) ∷ (5, 1) ∷ []) encoder encoder-UpToDate

abbrev camera : Arducam
camera = arducam ov5642 (size 320 240)

vga : jpeg_size ov2640 4 ≡ some (size 640 480)
unfolding jpeg_size
vga = refl

uxga : jpeg_size ov2640 8 ≡ some (size 1600 1200)
unfolding jpeg_size
uxga = refl

quality_ignored_example :
    ((q : ℕ) → 9 < q → set_quality ov5642 (pos q) camera ≡ (camera, negsuc 0))
    × ((q : ℕ) → set_quality ov5642 (negsuc q) camera ≡ (camera, negsuc 0))
    × (set_quality ov5642 (pos 9) camera ≡ (camera, pos 0))
quality_ignored_example = quality_ignored ov5642 camera
