-- ===== src/Gpio/Camera/Sizes.antt =====
-- What a quality of `Arducam::setQuality` means.
use robot_arm.Base.{
  ℕ, zero, suc, ◌*◌, ◌<◌, ◌≡◌, refl, ap, inl, inr, Bool, true, false, ◌&&◌, Option, none, some, [],
  ◌∷◌, ◌++◌, ℤ, pos, negsuc, arith, ltb, ltb_ℤ, ◌-◌, ◌≢◌, Bool-cases, Option-cases,
}
use native.Mathlib.Decide.{dec_lt}
use robot_arm.Gpio.Camera.{
  Sensor, ov2640, ov5640, ov5642, unknown, Size, set_jpeg_size, Arducam, jpeg_size, apply_size,
  set_quality,
}

abbrev pub pixels : Size → ℕ
pixels s = s.width * s.height

-- The sizes of two qualities, where both have one, are in order.
smaller : Option Size → Option Size → Bool
smaller (some a) (some b) = ltb (pixels a) (pixels b)
smaller _ _ = true

all_below : ℕ → (ℕ → Bool) → Bool
all_below zero p = true
all_below (suc n) p = p n && all_below n p

all_below_lem : (n : ℕ) (p : ℕ → Bool) (x : ℕ) → all_below n p ≡ true → x < n → p x ≡ true
unfolding all_below
all_below_lem zero p x h lt = absurd (omega arith)
all_below_lem (suc n) p x h lt = ground (arith, all_below_lem n p x)

-- Every pair of qualities of a sensor, the first the lower.
ordered : Sensor → Bool
ordered sensor =
    all_below 9 λ q'. all_below q' λ q. smaller (jpeg_size sensor q) (jpeg_size sensor q')

ordered_table : (sensor : Sensor) → ordered sensor ≡ true
unfolding ordered all_below smaller jpeg_size
ordered_table ov2640 = refl
ordered_table ov5640 = refl
ordered_table ov5642 = refl
ordered_table unknown = refl

jpeg_size-none :
    (sensor : Sensor) (q : ℕ)
    → jpeg_size sensor (suc (suc (suc (suc (suc (suc (suc (suc (suc q))))))))) ≡ none
unfolding jpeg_size
jpeg_size-none ov2640 q = refl
jpeg_size-none ov5640 q = refl
jpeg_size-none ov5642 q = refl
jpeg_size-none unknown q = refl

jpeg_size-lt_nine : (sensor : Sensor) (q : ℕ) (s : Size) → jpeg_size sensor q ≡ some s → q < 9
jpeg_size-lt_nine sensor q s e = elim (dec_lt q 9) [
  | yes h ↦ h
  | no h ↦
      let from_nine : q ≡ suc (suc (suc (suc (suc (suc (suc (suc (suc (q - 9))))))))) =
        omega arith in
      absurd (cc (jpeg_size-none sensor (q - 9), ap (jpeg_size sensor) from_nine))
]

-- On each sensor, of two qualities that have a size, the higher one has more pixels.
pub quality_monotone :
    (sensor : Sensor) (q q' : ℕ) (a b : Size)
    → q < q'
    → jpeg_size sensor q ≡ some a
    → jpeg_size sensor q' ≡ some b
    → pixels a < pixels b
unfolding smaller ordered
quality_monotone sensor q q' a b lt ea eb =
    let row = all_below_lem 9 _ q' (ordered_table sensor) (jpeg_size-lt_nine sensor q' b eb) in
    let cell = all_below_lem q' _ q row lt in ground (arith, cell)

is_set : Option Size → Bool
is_set none = false
is_set (some s) = true

all_set : all_below 9 (λ q. is_set (jpeg_size ov2640 q)) ≡ true
unfolding all_below is_set jpeg_size
all_set = refl

in_range : (q : ℕ) → q < 9 → ltb_ℤ (pos 9) (pos q) ≡ false
in_range q h = ground arith

-- On the OV2640 each quality from 0 to 8 succeeds, and the resolution that is recorded is the one
-- that the sensor is told.
ov2640_resolution :
    (q : ℕ) (c : Arducam)
    → q < 9
    → (s : Size) × (jpeg_size ov2640 q ≡ some s)
      × (set_quality ov2640 (pos q) c ≡ (
        record { resolution = s; commands = c.commands ++ set_jpeg_size ov2640 s ∷ [] },
        pos 0,
      ))
unfolding set_quality
ov2640_resolution q c h = elim (Option-cases (jpeg_size ov2640 q)) [
  | inl e ↦
      absurd
        (cc (all_below_lem 9 (λ q. is_set (jpeg_size ov2640 q)) q all_set h, ap is_set e, set_none))
  | inr (s, e) ↦ (s, e, rw (in_range q h, e) (unfold apply_size in refl))
]
  where
    set_none : is_set none ≡ false
    set_none = unfold is_set in refl

-- On a sensor other than the OV2640 no quality changes the resolution that is recorded.
pub resolution_stale :
    (sensor : Sensor) (q : ℤ) (c : Arducam)
    → sensor ≢ ov2640
    → (set_quality sensor q c).0.resolution ≡ c.resolution
unfolding set_quality apply_size
resolution_stale sensor (negsuc q) c ne = refl
resolution_stale sensor (pos q) c ne = elim (Bool-cases (ltb_ℤ (pos 9) (pos q))) [
  | inl out ↦ rw out refl
  | inr inside ↦ rw inside (kept sensor (jpeg_size sensor q) ne)
]
  where
    kept :
        (sensor : Sensor) (o : Option Size)
        → sensor ≢ ov2640
        → (apply_size sensor o c).resolution ≡ c.resolution
    kept ov2640 none ne = refl
    kept ov5640 none ne = refl
    kept ov5642 none ne = refl
    kept unknown none ne = refl
    kept ov2640 (some s) ne = absurd (ne refl)
    kept ov5640 (some s) ne = refl
    kept ov5642 (some s) ne = refl
    kept unknown (some s) ne = refl

-- A quality out of range is refused, and quality 9 is accepted; neither does anything.
pub quality_ignored :
    (sensor : Sensor) (c : Arducam)
    → ((q : ℕ) → 9 < q → set_quality sensor (pos q) c ≡ (c, negsuc 0))
      × ((q : ℕ) → set_quality sensor (negsuc q) c ≡ (c, negsuc 0))
      × (set_quality sensor (pos 9) c ≡ (c, pos 0))
unfolding set_quality apply_size
quality_ignored sensor c =
    (λ q h. rw (out_of_range q h), λ q. refl, rw (jpeg_size-none sensor 0) (unset sensor))
  where
    out_of_range : (q : ℕ) → 9 < q → ltb_ℤ (pos 9) (pos q) ≡ true
    out_of_range q h = ground arith

    unset : (sensor : Sensor) → ◌≡◌ {A = Arducam × ℤ} (apply_size sensor none c, pos 0) (c, pos 0)
    unset ov2640 = refl
    unset ov5640 = refl
    unset ov5642 = refl
    unset unknown = refl
