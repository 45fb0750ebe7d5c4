-- ===== src/Motor/Resumed.antt =====
-- What the stepper program finds when it starts again behind an interrupt (Motor/Main).
use robot_arm.Base.{
  ℕ, zero, suc, ◌≡◌, refl, ap, ◌∙◌, Bool, true, false, some, List, [], ◌∷◌, ℤ, All, eqb_ℤ,
  replicate, arith, eqb_ℤ_refl,
}
use robot_arm.Floats.{Floats}
use robot_arm.Ws.Run.{done}
use robot_arm.Motor.Wave.{Pigpio}
use robot_arm.Motor.Thread.{Globals, Thread, initial, phase_to_radians, arrive, step}
use robot_arm.Motor.Text.{print_int, atoi-print_int, getlines-print_int}
use robot_arm.Motor.Main.{
  Stage, setting_up, typing, joining, over, load_position, read_line, Event, main_acts,
  encoder_turns, thread_round, interrupted, Program, main_begin, act, stop, happen, course,
}

module _ (fl : Floats) where
  open fl use {of_int, mul}

  -- The motor at rest at a position.
  abbrev pub resting_at : ℤ → Globals fl
  resting_at n = record {
    cpos = n;
    tpos = n;
    cur_angle = mul (of_int n) (phase_to_radians fl);
    target_angle = mul (of_int n) (phase_to_radians fl);
  }

  load_position-print_int : (n : ℤ) → load_position fl (some (print_int n)) ≡ resting_at n
  unfolding load_position read_line
  load_position-print_int n = rw (getlines-print_int n, atoi-print_int n) refl

  abbrev pub is_interrupt : Event fl → Bool
  is_interrupt (interrupted opens) = true
  is_interrupt (main_acts t) = false
  is_interrupt (encoder_turns n) = false
  is_interrupt thread_round = false

module _ (fl : Floats) (pg : Pigpio) where
  open pg use {Waves}

  -- The file is that of another state, and no thread runs.
  abbrev pub Ended : Program fl pg → Program fl pg → Type 0
  Ended p q = (q.running ≡ false) × (q.file ≡ p.file)

  act-Ended :
      (t : fl.Float) (stage : Stage) (p : Program fl pg)
      → p.stage ≡ stage
      → p.running ≡ false
      → Ended p (act fl pg t p)
  unfolding act
  act-Ended t setting_up p s r = rw s (r, refl)
  act-Ended t typing p s r = rw s (r, refl)
  act-Ended t joining p s r = rw s (r, refl)
  act-Ended t over p s r = rw s (r, refl)

  happen-Ended :
      (pin : ℕ) (e : Event fl) (p : Program fl pg)
      → p.running ≡ false
      → is_interrupt fl e ≡ false
      → (q : Program fl pg) × (happen fl pg pin e p ≡ done q) × Ended p q
  unfolding happen
  happen-Ended pin (main_acts t) p r i = (act fl pg t p, refl, act-Ended t p.stage p refl r)
  happen-Ended pin (encoder_turns n) p r i = (_, refl, (r, refl))
  happen-Ended pin thread_round p r i = (p, simp (r), (r, refl))
  happen-Ended pin (interrupted opens) p r i = cc

  course-Ended :
      (pin : ℕ) (es : List (Event fl)) (p : Program fl pg)
      → p.running ≡ false
      → All (λ e. is_interrupt fl e ≡ false) es
      → (q : Program fl pg) × (course fl pg pin es p ≡ done q) × Ended p q
  unfolding course
  course-Ended pin [] p r h = (p, refl, (r, refl))
  course-Ended pin (e ∷ es) p r (i, h) =
      let (p₁, d₁, (r₁, f₁)) = happen-Ended pin e p r i in
      let (q, d, (r₂, f₂)) = course-Ended pin es p₁ r₁ h in rw d₁ (q, d, (r₂, f₂ ∙ f₁))

  step_rest :
      (pin : ℕ) (g : Globals fl) (t : Thread fl pg)
      → eqb_ℤ g.cpos g.tpos ≡ true
      → t.prev_moving ≡ false
      → step fl pg pin g t ≡ done t
  unfolding step arrive
  step_rest pin g t e m = simp (e, m)

  round_rest :
      (pin : ℕ) (p : Program fl pg)
      → step fl pg pin p.globals p.thread ≡ done p.thread
      → happen fl pg pin thread_round p ≡ done p
  unfolding happen
  round_rest pin p e = rw e (ground arith)

  rest_lem :
      (pin k : ℕ) (p : Program fl pg)
      → happen fl pg pin thread_round p ≡ done p
      → course fl pg pin (replicate k thread_round) p ≡ done p
  unfolding course
  rest_lem pin zero p e = refl
  rest_lem pin (suc k) p e = rw e (rest_lem pin k p e)

  -- The program at a position, and its thread makes its rounds without a move.
  abbrev pub RestsAt : ℕ → ℤ → Program fl pg → Type 0
  RestsAt pin n p =
      (p.globals ≡ resting_at fl n)
      × ((k : ℕ) → course fl pg pin (replicate k thread_round) p ≡ done p)

  main_begin-RestsAt :
      (pin : ℕ) (n : ℤ) (w : Waves) → RestsAt pin n (main_begin fl pg w (some (print_int n)))
  unfolding main_begin initial
  main_begin-RestsAt pin n w =
      let e = load_position-print_int fl n in
      let same = ap (λ g. eqb_ℤ g.cpos g.tpos) e ∙ eqb_ℤ_refl n in
      (e, λ k. rest_lem pin k _ (round_rest pin _ (step_rest pin _ _ same refl)))

  -- Behind an interrupt that could open the file, a round of the thread that is in progress then
  -- taken as made before it: whatever the encoder, main and the thread do till the program is over, it
  -- runs without a fault and starts no more rounds of the thread. A program that starts again with
  -- the file then takes the motor to be where it was at the interrupt, also where it has gone on
  -- since, and has it rest there: however many rounds the thread makes, nothing moves.
  pub stop-main_begin :
      (pin : ℕ) (p : Program fl pg) (es : List (Event fl)) (w : Waves)
      → All (λ e. is_interrupt fl e ≡ false) es
      → (q : Program fl pg) × (course fl pg pin (interrupted true ∷ es) p ≡ done q)
        × (q.running ≡ false)
        × RestsAt pin p.globals.cpos (main_begin fl pg w q.file)
  unfolding course happen stop
  stop-main_begin pin p es w h =
      let (q, d, (r, f)) = course-Ended pin es (stop fl pg true p) refl h in
      (q, d, r, rw f (main_begin-RestsAt pin p.globals.cpos w))
