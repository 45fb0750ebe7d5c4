-- ===== src/Motor.antt =====
-- RaspberryPi/src/stepper.cpp: the program that turns a stepper motor to an angle along a ramp of
-- waves, with the rotary encoder telling where the motor is.
pub mod Wave
pub mod Thread
pub mod Heap
pub mod Journey
pub mod Ids
pub mod Text
pub mod Main
pub mod Resumed
mod Examples
