-- ===== src/Gpio/Smooth/Bounds.antt =====
-- The widths that `SmoothServo::update` tells its servo.
use robot_arm.Base.{
  ℕ, ◌≡◌, refl, ◌≢◌, inl, inr, List, [], ◌∷◌, ◌++◌, ℤ, ◌-ℤ◌, ◌/ℤ◌, ◌≤ℤ◌, ◌<ℤ◌, arith, eqb_ℤ,
  Bool-cases, eq_of_eqb_ℤ, ne_of_eqb_ℤ,
}
use robot_arm.Ws.Run.{Run, done, ◌>>=◌}
use robot_arm.Floats.{Floats}
use robot_arm.Gpio.Servo.{ServoAngular, store_width, set_width}
use robot_arm.Gpio.Servo.Quotient.{quotient-nonzero}
use robot_arm.Gpio.Smooth.{
  clamp, SmoothServo, ang_to_width_corrected, next_width, approach, update, zero_f,
}

pub clamp-bounds : (n lo hi : ℤ) → lo ≤ℤ hi → (lo ≤ℤ clamp n lo hi) × (clamp n lo hi ≤ℤ hi)
unfolding clamp
clamp-bounds n lo hi h = ground arith

-- Each width that was commanded is in the range.
abbrev pub AllWithin : ℤ → ℤ → List (ℕ × ℤ) → Type 0
AllWithin lo hi [] = Unit
AllWithin lo hi ((_, w) ∷ calls) = ((lo ≤ℤ w) × (w ≤ℤ hi)) × AllWithin lo hi calls

AllWithin-snoc :
    (lo hi : ℤ) (calls : List (ℕ × ℤ)) (pin : ℕ) (w : ℤ)
    → AllWithin lo hi calls
    → lo ≤ℤ w
    → w ≤ℤ hi
    → AllWithin lo hi (calls ++ (pin, w) ∷ [])
AllWithin-snoc lo hi [] pin w all above below = ((above, below), tt)
AllWithin-snoc lo hi (c ∷ calls) pin w (h, all) above below =
    (h, AllWithin-snoc lo hi calls pin w all above below)

module _ (fl : Floats) where
  open fl use {Float}

  pub record InRange (lo hi : ℤ) (s : ServoAngular fl) : Type 0 where
    pub min_width : s.min_width ≡ lo
    pub max_width : s.max_width ≡ hi
    pub above : lo ≤ℤ s.cur_width
    pub below : s.cur_width ≤ℤ hi
    pub commanded : AllWithin lo hi s.calls

  pub set_width-InRange :
      (lo hi w : ℤ) (s : ServoAngular fl)
      → lo <ℤ hi
      → InRange lo hi s
      → lo ≤ℤ w
      → w ≤ℤ hi
      → (s' : ServoAngular fl) × (set_width fl w s ≡ done s')
        × InRange lo hi s'
        × (s'.calls ≡ s.calls ++ (s.ctl_pin, s'.cur_width) ∷ [])
        × (s'.cur_width ≡ w)
  unfolding set_width store_width
  set_width-InRange lo hi w s range i above below =
      let wide : s.min_width <ℤ s.max_width = rw (i.min_width, i.max_width) range in
      (
        store_width fl w ((w -ℤ s.min_width) /ℤ (s.max_width -ℤ s.min_width)) s,
        rw (quotient-nonzero (w -ℤ s.min_width) s.min_width s.max_width wide) refl,
        record {
          min_width = i.min_width;
          max_width = i.max_width;
          above = above;
          below = below;
          commanded = AllWithin-snoc lo hi s.calls s.ctl_pin w i.commanded above below;
        },
        refl,
        refl,
      )

  next_width-bounds :
      (lo hi : ℤ) (t : Float) (s : SmoothServo fl)
      → lo <ℤ hi
      → InRange lo hi s.servo
      → (lo ≤ℤ next_width fl t s) × (next_width fl t s ≤ℤ hi)
  unfolding next_width
  next_width-bounds lo hi t s range i =
      rw (i.min_width, i.max_width) (clamp-bounds _ lo hi (omega arith))

  approach-InRange :
      (lo hi : ℤ) (dt : Float) (s : SmoothServo fl)
      → lo <ℤ hi
      → InRange lo hi s.servo
      → (s' : SmoothServo fl) × (approach fl dt s ≡ done s')
        × InRange lo hi s'.servo
        × (s'.servo.calls ≡ s.servo.calls ++ (s.servo.ctl_pin, s'.servo.cur_width) ∷ [])
  unfolding approach
  approach-InRange lo hi dt s range i =
      let t = fl.add s.t dt in
      let (above, below) = next_width-bounds lo hi t s range i in
      let (servo, e, i', one, _) =
        set_width-InRange lo hi (next_width fl t s) s.servo range i above below in
      (
        record s { servo = servo; t = t; target_prev = s.target_angle; targetw_prev = s.targetw },
        rw e refl,
        i',
        one,
      )

  -- What a call of `update` does: nothing where the width is the target's, else one command.
  pub record Updated (lo hi : ℤ) (s s' : SmoothServo fl) : Type 0 where
    pub range : InRange lo hi s'.servo
    pub rests :
        s.servo.cur_width ≡ ang_to_width_corrected fl s.target_angle s
        → (s'.servo ≡ s.servo) × (s'.t ≡ zero_f fl)
    pub moves :
        s.servo.cur_width ≢ ang_to_width_corrected fl s.target_angle s
        → s'.servo.calls ≡ s.servo.calls ++ (s.servo.ctl_pin, s'.servo.cur_width) ∷ []

  -- A call of `update` on a servo whose width and earlier commands are in its range, which is not
  -- empty, ends without a fault and in the range; it changes nothing of the servo where the width
  -- is the target's, and tells the servo its new width, once, where it is not.
  pub update_lem :
      (lo hi : ℤ) (dt : Float) (s : SmoothServo fl)
      → lo <ℤ hi
      → InRange lo hi s.servo
      → (s' : SmoothServo fl) × (update fl dt s ≡ done s') × Updated lo hi s s'
  unfolding update
  update_lem lo hi dt s range i =
      let w = ang_to_width_corrected fl s.target_angle s in
      let s₁ = record s { targetw = w } in
      elim (Bool-cases (eqb_ℤ s.servo.cur_width w)) [
        | inl rests ↦ (
          record s₁ { targetw_prev = w; prev_reached_targetw = w; t = zero_f fl },
          rw rests refl,
          record {
            range = i;
            rests = λ _. (refl, refl);
            moves = λ ne. absurd (ne (eq_of_eqb_ℤ s.servo.cur_width w rests));
          },
        )
        | inr moves ↦
            let ne = ne_of_eqb_ℤ s.servo.cur_width w moves in
            elim (Bool-cases (eqb_ℤ w s.targetw_prev)) [
              | inl same ↦
                  let (s', e, i', one) = approach-InRange lo hi dt s₁ range i in
                  (
                    s',
                    rw (moves, same) e,
                    record { range = i'; rests = λ eq. absurd (ne eq); moves = λ _. one },
                  )
              | inr new ↦
                  let (s', e, i', one) =
                    approach-InRange lo hi dt
                      (record s₁ { prev_reached_targetw = s.servo.cur_width; t = zero_f fl }) range
                      i in
                  (
                    s',
                    rw (moves, new) e,
                    record { range = i'; rests = λ eq. absurd (ne eq); moves = λ _. one },
                  )
            ]
      ]

  -- What happens to a smooth servo: a new target, or a tick of its thread.
  pub data Input : Type 0 where
    aim : Float → Input
    tick : Float → Input

  pub run : List Input → SmoothServo fl → Run (SmoothServo fl)
  run [] s = done s
  run (aim a ∷ is) s = run is (record s { target_angle = a })
  run (tick dt ∷ is) s = do s' ← update fl dt s; run is s'

  -- Whatever the floating-point operations do, the targets and the time steps, a smooth servo
  -- whose width and earlier commands are in its range, which is not empty, runs without a fault,
  -- and its width and every width that it is told stay in that range.
  pub run-InRange :
      (lo hi : ℤ) (is : List Input) (s : SmoothServo fl)
      → lo <ℤ hi
      → InRange lo hi s.servo
      → (s' : SmoothServo fl) × (run is s ≡ done s') × InRange lo hi s'.servo
  unfolding run
  run-InRange lo hi [] s range i = (s, refl, i)
  run-InRange lo hi (aim a ∷ is) s range i =
      run-InRange lo hi is (record s { target_angle = a }) range i
  run-InRange lo hi (tick dt ∷ is) s range i =
      let (s₁, e, u) = update_lem lo hi dt s range i in
      let (s₂, e₂, i₂) = run-InRange lo hi is s₁ range u.range in (s₂, rw e e₂, i₂)
