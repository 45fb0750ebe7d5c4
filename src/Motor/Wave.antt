-- ===== src/Motor/Wave.antt =====
-- The waves of RaspberryPi/src/stepper.cpp: `pulse_create`, `wavechain_curve`, `wavechain_linear`.
-- pigpio keeps the waves; it is a parameter.
use robot_arm.Base.{
  ℕ, zero, suc, ◌-◌, ◌%◌, ◌^◌, List, [], ◌∷◌, ◌++◌, map, ℤ, pos, negsuc, eqb_ℤ, if◌then◌else◌,
  length, get_or,
}
use robot_arm.Floats.{Floats}

-- `gpioPulse_t`
pub record Pulse : Type 0 where
  pub gpio_on : ℕ
  pub gpio_off : ℕ
  pub us_delay : ℤ

-- What pigpio keeps between two calls, and its calls, in the source's words.
pub record Pigpio : Type 1 where
  pub Waves : Type 0
  pub wave_clear : Waves → Waves
  pub wave_add_new : Waves → Waves
  pub wave_add_generic : List Pulse → Waves → Waves
  pub wave_create : Waves → Waves × ℤ
  pub wave_chain : List ℕ → Waves → Waves
  pub wave_delete : ℤ → Waves → Waves
  pub wave_tx_stop : Waves → Waves
  pub wave_get_micros : Waves → ℤ
  pub gpio_terminate : Waves → Waves

-- The pulses of the loop, `n` times on and off.
unfoldable pub pulses : ℕ → ℤ → ℤ → ℕ → List Pulse
pulses pin us_high us_low zero = []
pulses pin us_high us_low (suc n) =
    record { gpio_on = 2 ^ pin; gpio_off = 0; us_delay = us_high }
    ∷ record { gpio_on = 0; gpio_off = 2 ^ pin; us_delay = us_low }
    ∷ pulses pin us_high us_low n

-- An `int` stored in a `char`, as the byte that pigpio reads.
abbrev pub byte_of : ℤ → ℕ
byte_of (pos n) = n % 256
byte_of (negsuc n) = 255 - n % 256

-- The bytes of the chain: every wave once, then the last one for ever.
unfoldable pub chain_of : List ℤ → List ℕ
chain_of wid =
    map byte_of wid ++ 255 ∷ 0 ∷ byte_of (get_or wid (length wid - 1) (pos 0)) ∷ 255 ∷ 3 ∷ []

module _ (pg : Pigpio) where
  open pg use {Waves, wave_clear, wave_add_new, wave_add_generic, wave_create, wave_chain}

  unfoldable pub pulse_create : ℕ → ℤ → ℕ → ℤ → Waves → Waves × ℤ
  pulse_create pin us_high num_pulses us_low w =
      let low = if eqb_ℤ us_low (negsuc 0) then us_high else us_low in
      wave_create (wave_add_generic (pulses pin us_high low num_pulses) (wave_add_new w))

  -- The loop over the delays: the waves' ids in order.
  unfoldable pub create_all : ℕ → ℕ → List ℤ → Waves → Waves × List ℤ
  create_all pin ppf [] w = (w, [])
  create_all pin ppf (us ∷ delays) w =
      let (w₁, wid) = pulse_create pin us ppf (negsuc 0) w in
      let (w₂, rest) = create_all pin ppf delays w₁ in (w₂, wid ∷ rest)

module _ (fl : Floats) where
  open fl use {Float, of_int, to_int, add, sub, mul, div}

  -- The delay at the height `t` of the curve, between the two ends.
  pub delay_at : ℤ → ℤ → Float → ℤ
  delay_at us_start us_end t =
      to_int (add (mul (sub (of_int (pos 1)) t) (of_int us_start)) (mul t (of_int us_end)))

  -- The heights 0, 1/n, …, of `n` steps.
  unfoldable pub heights : ℕ → ℕ → ℕ → List Float
  heights n i zero = []
  heights n i (suc k) = div (of_int (pos i)) (of_int (pos n)) ∷ heights n (suc i) k

module _ (fl : Floats) (pg : Pigpio) where
  open fl use {Float}
  open pg use {Waves, wave_clear, wave_chain}

  unfoldable pub wavechain_curve : ℕ → List Float → ℤ → ℤ → ℕ → Waves → Waves × List ℤ
  unfolding create_all
  wavechain_curve pin curve_vals us_start us_end ppf w =
      let (w', wid) =
        create_all pg pin ppf (map (delay_at fl us_start us_end) curve_vals) (wave_clear w) in
      (wave_chain (chain_of wid) w', wid)

  pub wavechain_linear : ℕ → ℕ → ℤ → ℤ → Waves → Waves × List ℤ
  wavechain_linear pin num_freqs us_start us_end w =
      let (w', wid) =
        create_all pg pin 2 (map (delay_at fl us_start us_end) (heights fl num_freqs 0 num_freqs))
          w in
      (wave_chain (chain_of wid) w', wid)
