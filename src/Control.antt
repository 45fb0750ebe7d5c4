-- ===== src/Control.antt =====
-- The control loop of RaspberryPi/src/arm_lws.cpp: each round takes the new messages out of the queue
-- and gives each one's value to the servo that its `user_id` names.
pub mod Indices
pub mod Dispatch
pub mod Round
pub mod Start
pub mod Widths
mod Examples
use robot_arm.Base.{
  ℕ, zero, suc, ◌+◌, Bool, true, false, Option, none, some, List, [], ◌∷◌, ℤ, pos, negsuc, ◌-ℤ◌,
  wrap, eqb_ℤ, if◌then◌else◌, ltb, get_elem?, set,
}
use robot_arm.Ws.Run.{Run, done, bad_pointer, ◌>>=◌}
use robot_arm.Ws.Queue.{Mem}
use robot_arm.Ws.Connections.{Connections, get_connections}
use robot_arm.Ws.Message.{Message}
use robot_arm.Ws.MessageQueue.{pop_new_messages}
use robot_arm.Floats.{Floats}
use robot_arm.Gpio.Smooth.{SmoothServo}

-- An array at an index of type `int`.
abbrev pub index : {A : Type 0} → List A → ℤ → Option A
index xs (pos i) = get_elem? xs i
index xs (negsuc i) = none

abbrev pub set_index : {A : Type 0} → List A → ℤ → A → List A
set_index xs (pos i) v = set xs i v
set_index xs (negsuc i) v = xs

module _ (fl : Floats) where
  open fl use {of_int, widen, narrow, of_int_d, mul_d, div_d, pi}

  -- The angle for a width, in the servo's range of 0 to M_PI.
  pub angle_of_value : ℤ → SmoothServo fl → fl.Float
  angle_of_value value s = narrow (
      div_d (mul_d pi (of_int_d (wrap (value -ℤ s.servo.min_width))))
        (widen (of_int (s.servo.max_width -ℤ s.servo.min_width))))

  unfoldable pub aim_at : ℤ → SmoothServo fl → SmoothServo fl
  aim_at value s = record s { target_angle = angle_of_value value s }

  -- One message; `servos_flat[user_id]` behind the array's end is a bad pointer.
  unfoldable pub aim : Message → List (SmoothServo fl) → Run (List (SmoothServo fl))
  aim m servos = elim (index servos m.user_id) [
    | none ↦ bad_pointer
    | some s ↦ done (set_index servos m.user_id (aim_at m.value s))
  ]

  -- The loop over the messages from `i`, with `k` rounds left.
  pub dispatch : ℕ → ℕ → List Message → List (SmoothServo fl) → Run (List (SmoothServo fl))
  dispatch zero i buffer servos = done servos
  dispatch (suc k) i buffer servos = elim (get_elem? buffer i) [
    | none ↦ bad_pointer
    | some m ↦ do servos' ← aim m servos; dispatch k (suc i) buffer servos'
  ]

  -- What a round works on: the buffer of `pop_new_messages`, the queue and the servos.
  pub record Control : Type 0 where
    pub buffer : List Message
    pub mem : Mem Message
    pub servos : List (SmoothServo fl)

  pub control_round : Connections → Control → Run Control
  control_round connections c = if eqb_ℤ (get_connections connections) (pos 0) then done c else (do
    (r, mem) ← pop_new_messages c.buffer c.mem
    servos ← if ltb 0 r.length then dispatch r.length 0 r.buffer c.servos else done c.servos
    done (record { buffer = r.buffer; mem = mem; servos = servos }))
