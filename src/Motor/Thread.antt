-- ===== src/Motor/Thread.antt =====
-- `step_thread` of RaspberryPi/src/stepper.cpp with the globals it reads, each once a round. The ids
-- of the waves are in an array on the heap; a use of a pointer that is not set, or whose array is
-- deleted, is a `bad_pointer`.
use robot_arm.Base.{
  ℕ, Bool, true, false, not, ◌&&◌, Option, none, some, List, [], ◌∷◌, ◌++◌, map, ℤ, pos, ◌-ℤ◌,
  eqb_ℤ, ltb_ℤ, if◌then◌else◌, length, get_or, set,
}
use robot_arm.Floats.{Floats}
use robot_arm.Ws.Run.{Run, done, bad_pointer, ◌>>=◌}
use robot_arm.Gpio.Smooth.{abs, bezier_curve, solve}
use robot_arm.Gpio.Stepper.{StepDir, step_reverse, step_forward}
use robot_arm.Motor.Wave.{Pigpio, wavechain_curve, heights}

-- `int *wid_current`: without a value until the first assignment.
pub data Pointer : Type 0 where
  unset : Pointer
  at : ℕ → Pointer

-- The arrays allocated so far; a deleted one is `none`.
abbrev pub Heap : Type 0
Heap = List (Option (List ℤ))

abbrev pub defined : Option (List ℤ) → Run (List ℤ)
defined none = bad_pointer
defined (some wid) = done wid

abbrev pub read_array : Pointer → Heap → Run (List ℤ)
read_array unset h = bad_pointer
read_array (at i) h = defined (get_or h i none)

-- `delete[]`
abbrev pub delete_array : Pointer → Heap → Run Heap
delete_array unset h = bad_pointer
delete_array (at i) h = defined (get_or h i none) >>= λ wid. done (set h i none)

module _ (fl : Floats) where
  open fl use {Float, Double, of_int, of_int_d, to_int, mul, div, less, narrow, div_d, pi}

  -- M_PI_2 / 355
  pub phase_to_radians : Float
  phase_to_radians = narrow (div_d (div_d pi (of_int_d (pos 2))) (of_int_d (pos 355)))

  pub record Globals : Type 0 where
    pub cpos : ℤ
    pub tpos : ℤ
    pub cur_angle : Float
    pub target_angle : Float

  -- The encoder's callback.
  pub cbf : ℤ → Globals → Globals
  cbf p g = record g { cur_angle = mul (of_int p) phase_to_radians; cpos = p }

  -- The loop of `main`: a new target is typed in.
  pub set_target : Float → Globals → Globals
  set_target t g = record g { target_angle = t; tpos = to_int (div t phase_to_radians) }

  -- The `ramp_steps` heights of the ramp.
  unfoldable pub bez_buf : List Float
  bez_buf = map (λ t. (solve fl t (bezier_curve fl)).y) (heights fl 200 0 200)

module _ (fl : Floats) (pg : Pigpio) where
  open fl use {less}
  open pg use {Waves, wave_delete, wave_tx_stop, wave_get_micros}

  -- The thread's locals, the heap, the direction and pigpio's waves.
  pub record Thread : Type 0 where
    pub prev_moving : Bool
    pub prev_slow : Bool
    pub wid_current : Pointer
    pub heap : Heap
    pub dir : Option StepDir
    pub waves : Waves

  unfoldable pub initial : Waves → Thread
  initial w = record {
    prev_moving = false;
    prev_slow = false;
    wid_current = unset;
    heap = [];
    dir = none;
    waves = w;
  }

  -- `new int[...]`, filled with `wid`
  abbrev pub alloc : List ℤ → Thread → Thread
  alloc wid t = record t { wid_current = at (length t.heap); heap = t.heap ++ some wid ∷ [] }

  unfoldable pub delete_waves : List ℤ → Waves → Waves
  delete_waves [] w = w
  delete_waves (i ∷ wid) w = delete_waves wid (wave_delete i w)

  -- The target is reached.
  unfoldable pub arrive : Thread → Run Thread
  arrive t = if not t.prev_moving then done t else do
    h ← delete_array t.wid_current t.heap
    done (record t {
      heap = h;
      prev_slow = false;
      prev_moving = false;
      waves = wave_tx_stop t.waves;
    })

  -- The target is near: the ramp down replaces the waves.
  unfoldable pub slow_down : ℕ → Thread → Run Thread
  slow_down pin t =
      let (w, twid) =
        wavechain_curve fl pg pin (bez_buf fl) (wave_get_micros t.waves) (pos 1000) 2 t.waves in
      let t' = alloc twid t in
      do
        wid ← read_array t.wid_current t'.heap
        h ← delete_array t.wid_current t'.heap
        done (record t' { heap = h; prev_slow = true; waves = delete_waves wid w })

  -- The target is far, or the motor slows down already.
  unfoldable pub move_on : ℕ → Globals fl → Thread → Thread
  move_on pin g t =
      let d = if less g.cur_angle g.target_angle then step_reverse else step_forward in
      let (w, wid) = wavechain_curve fl pg pin (bez_buf fl) (pos 1500) (pos 150) 4 t.waves in
      let t' = record (alloc wid t) { waves = w; dir = some d } in
      record (if not t.prev_moving && not t.prev_slow then t' else t) { prev_moving = true }

  -- One round of the loop.
  unfoldable pub step : ℕ → Globals fl → Thread → Run Thread
  step pin g t =
      if eqb_ℤ g.cpos g.tpos
      then arrive t
      else if ltb_ℤ (abs (g.cpos -ℤ g.tpos)) (pos 100) && not t.prev_slow
      then slow_down pin t
      else done (move_on pin g t)

  -- The rounds of a run, with the globals each of them reads.
  unfoldable pub run : ℕ → List (Globals fl) → Thread → Run Thread
  run pin [] t = done t
  run pin (g ∷ gs) t = do t' ← step pin g t; run pin gs t'
