-- ===== src/Gpio.antt =====
-- The drivers of RaspberryPi/src/XNlib/xn_gpio.hpp.
pub mod Rotary
pub mod Camera
pub mod Servo
pub mod Stepper
pub mod Smooth
pub mod Examples
