-- ===== src/Gpio/Stepper.antt =====
-- `Stepper` of RaspberryPi/src/XNlib/xn_gpio.hpp. The calls of pigpio and the waits are a log.
use robot_arm.Base.{ℕ, List, [], ◌∷◌, ◌++◌, ℤ, pos}
use robot_arm.Floats.{Floats}

pub data StepDir : Type 0 where
  step_reverse step_forward : StepDir

abbrev pub level_of : StepDir → ℕ
level_of step_reverse = 0
level_of step_forward = 1

pub data PinCall (Double : Type 0) : Type 0 where
  set_output : ℤ → PinCall Double
  pwm : ℤ → ℤ → PinCall Double
  set_pwm_range : ℤ → ℕ → PinCall Double
  set_pwm_frequency : ℤ → ℕ → PinCall Double
  write_pin : ℤ → ℕ → PinCall Double
  sleep : Double → PinCall Double

module _ (fl : Floats) where
  open fl use {Float, Double, of_int, to_int, mul}

  pub record Stepper : Type 0 where
    pub pin_dir : ℤ
    pub pin_step : ℤ
    pub pin_ms1 : ℤ
    pub pin_ms2 : ℤ
    pub pin_ms3 : ℤ
    pub freq : ℕ
    pub dutycycle_range : ℕ
    pub dutycycle : Float
    pub dir : StepDir
    pub step_duration : Double
    pub calls : List (PinCall Double)

  pub set_duty_cycle : Float → Stepper → Stepper
  set_duty_cycle ds s = record s {
    dutycycle = ds;
    calls = s.calls ++ pwm s.pin_step (to_int (mul (of_int (pos s.dutycycle_range)) ds)) ∷ [];
  }

  pub set_duty_cycle_range : ℕ → Stepper → Stepper
  set_duty_cycle_range dsr s = record s {
    dutycycle_range = dsr;
    calls = s.calls ++ set_pwm_range s.pin_step dsr ∷ [];
  }

  pub set_dir : StepDir → Stepper → Stepper
  set_dir dir s = record s { dir = dir; calls = s.calls ++ write_pin s.pin_dir (level_of dir) ∷ [] }

  pub set_freq : ℕ → Stepper → Stepper
  set_freq f s = record s { freq = f; calls = s.calls ++ set_pwm_frequency s.pin_step f ∷ [] }

  -- The members' initial values are 255, STEP_FORWARD and 0.01, which is `step_duration`.
  pub stepper :
      (pin_dir pin_step : ℤ) → Float → ℕ → (pin_ms1 pin_ms2 pin_ms3 : ℤ) → Double → Stepper
  stepper pin_dir pin_step dutycycle freq pin_ms1 pin_ms2 pin_ms3 step_duration = set_freq freq (
      set_duty_cycle dutycycle (record {
        pin_dir = pin_dir;
        pin_step = pin_step;
        pin_ms1 = pin_ms1;
        pin_ms2 = pin_ms2;
        pin_ms3 = pin_ms3;
        freq = freq;
        dutycycle_range = 255;
        dutycycle = dutycycle;
        dir = step_forward;
        step_duration = step_duration;
        calls = set_output pin_dir ∷ set_output pin_step ∷ [];
      }))

  pub single_step_thread : Stepper → Stepper
  single_step_thread s =
      let s' = set_duty_cycle (of_int (pos 0)) s in
      record s' {
        calls =
            s'.calls
            ++ write_pin s.pin_step 1
              ∷ sleep s.step_duration
              ∷ write_pin s.pin_step 0
              ∷ sleep s.step_duration
              ∷ [];
      }
