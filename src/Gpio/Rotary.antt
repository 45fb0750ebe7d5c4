-- ===== src/Gpio/Rotary.antt =====
-- `RotaryEncoder` of RaspberryPi/src/XNlib/xn_gpio.hpp: a quadrature decoder over two pins. Levels
-- are 0 and 1, so `lev_a << 1 | lev_b` is `2 * lev_a + lev_b`. The user's callback is a log of its
-- arguments.
pub mod Turns
pub mod Reports
use robot_arm.Base.{
  ℕ, ◌+◌, ◌*◌, Bool, true, false, not, List, [], ◌∷◌, ◌++◌, get_or, ℤ, pos, negsuc, ◌+ℤ◌, ◌/ℤ◌,
  eqb_ℤ, ◌==◌, if◌then◌else◌,
}

abbrev pub red_mode_detent : ℕ
red_mode_detent = 0

abbrev pub red_mode_step : ℕ
red_mode_step = 1

-- pigpio's level of an alert that reports a watchdog timeout.
abbrev pub pi_timeout : ℕ
pi_timeout = 2

pub record RotaryEncoder : Type 0 where
  pub pin_a : ℕ
  pub pin_b : ℕ
  pub lev_a : ℕ
  pub lev_b : ℕ
  pub state_old : ℕ
  pub step : ℤ
  pub mode : ℕ
  pub glitch : ℕ
  pub has_callback : Bool
  pub calls : List ℤ

-- The arguments `mode` and `step`, what `gpioRead` gives for the two pins, and what the memory of
-- the field `mode` held: the constructor does not store its argument `mode`.
pub rotary_encoder : ℕ → ℕ → Bool → (mode : ℕ) → (step : ℤ) → ℕ → ℕ → (memory : ℕ) → RotaryEncoder
rotary_encoder pin_a pin_b has_callback mode step read_a read_b memory = record {
  pin_a = pin_a;
  pin_b = pin_b;
  lev_a = 0;
  lev_b = 0;
  state_old = 2 * read_a + read_b;
  step = step;
  mode = memory;
  glitch = 1000;
  has_callback = has_callback;
  calls = [];
}

abbrev pub transits : List ℤ
transits =
    pos 0
    ∷ negsuc 0
    ∷ pos 1
    ∷ pos 0
    ∷ pos 1
    ∷ pos 0
    ∷ pos 0
    ∷ negsuc 0
    ∷ negsuc 0
    ∷ pos 0
    ∷ pos 0
    ∷ pos 1
    ∷ pos 0
    ∷ pos 1
    ∷ negsuc 0
    ∷ pos 0
    ∷ []

-- The level that an alert reports, put into the encoder.
unfoldable pub store_level : ℕ → ℕ → RotaryEncoder → RotaryEncoder
store_level gpio level e =
    if gpio == e.pin_a then record e { lev_a = level } else record e { lev_b = level }

-- The position moves by `inc`, which is not 0, and the callback is told.
unfoldable pub advance : ℕ → ℤ → RotaryEncoder → RotaryEncoder
advance state_new inc e =
    let step = e.step +ℤ inc in
    let detent = e.step /ℤ pos 4 in
    record e {
      state_old = state_new;
      step = step;
      calls =
          if e.has_callback
          then (if e.mode == red_mode_detent
              then (if eqb_ℤ detent (step /ℤ pos 4)
                  then e.calls
                  else e.calls ++ (step /ℤ pos 4) ∷ [])
              else e.calls ++ step ∷ [])
          else e.calls;
    }

pub callback_internal : ℕ → ℕ → RotaryEncoder → RotaryEncoder
callback_internal gpio level e =
    let e' = store_level gpio level e in
    let state_new = 2 * e'.lev_a + e'.lev_b in
    let inc = get_or transits (4 * e'.state_old + state_new) (pos 0) in
    if level == pi_timeout then e else if eqb_ℤ inc (pos 0) then e' else advance state_new inc e'
