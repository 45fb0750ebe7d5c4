-- ===== src/Gpio/Camera.antt =====
-- `Arducam` of RaspberryPi/src/XNlib/xn_gpio.hpp: the choice of a picture size by quality. What the
-- sensor is told (`OV…_set_JPEG_size`) is a log.
pub mod Sizes
use robot_arm.Base.{
  ℕ, zero, suc, Bool, List, [], ◌∷◌, ◌++◌, Option, none, some, ℤ, pos, negsuc, if◌then◌else◌, ltb_ℤ,
  ◌||◌,
}

pub data Sensor : Type 0 where
  ov2640 ov5640 ov5642 unknown : Sensor

pub record Size : Type 0 where
  pub width : ℕ
  pub height : ℕ

abbrev pub size : ℕ → ℕ → Size
size w h = record { width = w; height = h }

-- The calls of the camera's library: `set_jpeg_size` names the sensor's function and the constant
-- that it is called with, `spi_init` has the frequency and the flags.
pub data Command : Type 0 where
  pio_init arducam_cs_init sccb_bus_init arducam_bus_detect reset_firmware : Command
  spi_init : ℕ → ℕ → Command
  arducam_init : Sensor → Command
  set_jpeg_size : Sensor → Size → Command

-- `resolution` is a `vec2`, of whole numbers in every assignment of the source.
pub record Arducam : Type 0 where
  pub resolution : Size
  pub commands : List Command

-- The constructor, which leaves `resolution` as memory holds it. `sensor` is the `sensor_model` that
-- the library detects.
pub arducam : Sensor → Size → Arducam
arducam sensor resolution = record {
  resolution = resolution;
  commands =
      pio_init
      ∷ arducam_cs_init
      ∷ sccb_bus_init
      ∷ spi_init 4000000 0
      ∷ arducam_bus_detect
      ∷ reset_firmware
      ∷ arducam_init sensor
      ∷ [];
}

pub get_resolution : Arducam → Size
get_resolution c = c.resolution

-- The sizes of the branches, by sensor and quality; none where no branch sets one.
unfoldable pub jpeg_size : Sensor → ℕ → Option Size
jpeg_size ov2640 zero = some (size 160 120)
jpeg_size ov5640 zero = some (size 320 240)
jpeg_size ov5642 zero = some (size 320 240)
jpeg_size ov2640 (suc zero) = some (size 176 144)
jpeg_size ov5640 (suc zero) = some (size 352 288)
jpeg_size ov5642 (suc zero) = some (size 640 480)
jpeg_size ov2640 (suc (suc zero)) = some (size 320 240)
jpeg_size ov5640 (suc (suc zero)) = some (size 640 480)
jpeg_size ov5642 (suc (suc zero)) = some (size 1024 768)
jpeg_size ov2640 (suc (suc (suc zero))) = some (size 352 288)
jpeg_size ov5640 (suc (suc (suc zero))) = some (size 800 480)
jpeg_size ov5642 (suc (suc (suc zero))) = some (size 1280 960)
jpeg_size ov2640 (suc (suc (suc (suc zero)))) = some (size 640 480)
jpeg_size ov5640 (suc (suc (suc (suc zero)))) = some (size 1024 768)
jpeg_size ov5642 (suc (suc (suc (suc zero)))) = some (size 1600 1200)
jpeg_size ov2640 (suc (suc (suc (suc (suc zero))))) = some (size 800 600)
jpeg_size ov5640 (suc (suc (suc (suc (suc zero))))) = some (size 1280 960)
jpeg_size ov5642 (suc (suc (suc (suc (suc zero))))) = some (size 2048 1536)
jpeg_size ov2640 (suc (suc (suc (suc (suc (suc zero)))))) = some (size 1024 768)
jpeg_size ov5640 (suc (suc (suc (suc (suc (suc zero)))))) = some (size 1600 1200)
jpeg_size ov5642 (suc (suc (suc (suc (suc (suc zero)))))) = some (size 2592 1944)
jpeg_size ov2640 (suc (suc (suc (suc (suc (suc (suc zero))))))) = some (size 1280 1024)
jpeg_size ov5640 (suc (suc (suc (suc (suc (suc (suc zero))))))) = some (size 2048 1536)
jpeg_size ov2640 (suc (suc (suc (suc (suc (suc (suc (suc zero)))))))) = some (size 1600 1200)
jpeg_size ov5640 (suc (suc (suc (suc (suc (suc (suc (suc zero)))))))) = some (size 2592 1944)
jpeg_size _ _ = none

-- Only the branches for the OV2640 assign `resolution`.
pub apply_size : Sensor → Option Size → Arducam → Arducam
apply_size sensor none c = c
apply_size ov2640 (some s) c = record {
  resolution = s;
  commands = c.commands ++ set_jpeg_size ov2640 s ∷ [];
}
apply_size sensor (some s) c = record c { commands = c.commands ++ set_jpeg_size sensor s ∷ [] }

-- -1 out of range, else 0.
pub set_quality : Sensor → ℤ → Arducam → Arducam × ℤ
set_quality sensor (negsuc q) c = (c, negsuc 0)
set_quality sensor (pos q) c =
    if ltb_ℤ (pos 9) (pos q)
    then (c, negsuc 0)
    else (apply_size sensor (jpeg_size sensor q) c, pos 0)
