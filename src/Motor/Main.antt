-- ===== src/Motor/Main.antt =====
-- `stop` and `main` of RaspberryPi/src/stepper.cpp around the thread (Motor/Thread): the file with
-- the position, the angles that are typed, the encoder and the interrupt, in any order. A round of
-- the thread is one event: it neither reads nor writes what the handler writes, `run` and the file,
-- so that an interrupt in the midst of a round is as one behind it. The encoder's and the motor's
-- constructors are those of Gpio.
use robot_arm.Base.{ℕ, Bool, true, false, Option, none, some, List, [], ◌∷◌, ℤ, pos, if◌then◌else◌}
use robot_arm.Floats.{Floats}
use robot_arm.Ws.Run.{Run, done, ◌>>=◌}
use robot_arm.Calib.{Text}
use robot_arm.Gpio.Stepper.{step_forward}
use robot_arm.Motor.Wave.{Pigpio}
use robot_arm.Motor.Thread.{Globals, Thread, initial, phase_to_radians, cbf, set_target, step}
use robot_arm.Motor.Text.{print_int, atoi, getlines}

-- Where `main` is. `joining` is left when the thread has ended: `run` is 0 then for ever.
pub data Stage : Type 0 where
  setting_up typing joining over : Stage

module _ (fl : Floats) where
  open fl use {Float, of_int, mul}

  -- The globals without a file.
  abbrev pub at_zero : Globals fl
  at_zero = record {
    cpos = pos 0;
    tpos = pos 0;
    cur_angle = of_int (pos 0);
    target_angle = of_int (pos 0);
  }

  -- A line of rot_pos.txt.
  unfoldable pub read_line : Text → Globals fl → Globals fl
  read_line line g =
      let p = atoi line in
      let angle = mul (of_int p) (phase_to_radians fl) in
      record { cpos = p; tpos = p; cur_angle = angle; target_angle = angle }

  abbrev pub read_lines : List Text → Globals fl → Globals fl
  read_lines [] g = g
  read_lines (l ∷ ls) g = read_lines ls (read_line l g)

  -- rot_pos.txt is read, if it can be opened.
  unfoldable pub load_position : Option Text → Globals fl
  load_position none = at_zero
  load_position (some text) = read_lines (getlines text) at_zero

  pub data Event : Type 0 where
    -- main's next act, with the angle that is typed if it asks for one
    main_acts : Float → Event
    encoder_turns : ℤ → Event
    thread_round : Event
    -- the handler, and whether rot_pos.txt can be opened
    interrupted : Bool → Event

module _ (fl : Floats) (pg : Pigpio) where
  open fl use {Float}
  open pg use {Waves}

  pub record Program : Type 0 where
    pub globals : Globals fl
    pub running : Bool
    pub stage : Stage
    pub file : Option Text
    pub thread : Thread fl pg

  -- `main` up to the start of the thread.
  unfoldable pub main_begin : Waves → Option Text → Program
  main_begin w file = record {
    globals = load_position fl file;
    running = true;
    stage = setting_up;
    file = file;
    thread = initial fl pg w;
  }

  -- `while(run)`
  abbrev pub loop_test : Bool → Stage
  loop_test running = if running then typing else joining

  unfoldable pub act : Float → Program → Program
  act t p = elim p.stage [
    | setting_up ↦ record p {
      thread = record p.thread { dir = some step_forward };
      stage = loop_test p.running;
    }
    | typing ↦ record p { globals = set_target fl t p.globals; stage = loop_test p.running }
    | joining ↦ record p {
      thread = record p.thread { waves = pg.gpio_terminate p.thread.waves };
      stage = over;
    }
    | over ↦ p
  ]

  unfoldable pub stop : Bool → Program → Program
  stop opens p = record p {
    running = false;
    file = if opens then some (print_int p.globals.cpos) else p.file;
  }

  unfoldable pub happen : ℕ → Event fl → Program → Run Program
  happen pin (main_acts t) p = done (act t p)
  happen pin (encoder_turns n) p = done (record p { globals = cbf fl n p.globals })
  happen pin thread_round p =
      if p.running
      then (step fl pg pin p.globals p.thread >>= λ t. done (record p { thread = t }))
      else done p
  happen pin (interrupted opens) p = done (stop opens p)

  unfoldable pub course : ℕ → List (Event fl) → Program → Run Program
  course pin [] p = done p
  course pin (e ∷ es) p = do p' ← happen pin e p; course pin es p'
