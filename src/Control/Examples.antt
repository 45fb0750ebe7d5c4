-- ===== src/Control/Examples.antt =====
-- The theorems on the control loop at concrete inputs: two servos, two clients.
use robot_arm.Base.{
  ℕ, ◌≡◌, refl, ◌<◌, false, none, some, [], ◌∷◌, ℤ, pos, negsuc, eqb_ℤ, arith, ◌==◌, if◌then◌else◌,
  zero, suc, ◌-◌, sym, ap, length, replicate,
}
use robot_arm.Ws.Run.{done, bad_pointer}
use robot_arm.Ws.Queue.{null, Heap, Mem}
use robot_arm.Ws.Queue.Chain.{Cells, Chain, has, first, last, IsQueue}
use robot_arm.Ws.Connections.{get_connections}
use robot_arm.Ws.Message.{Message, user_websocket, no_motion}
use robot_arm.Ws.MessageQueue.{max_msg_buffer_size}
use robot_arm.Ws.Examples.{pair, pair_cells, pair-IsQueue, two_clients, no_message}
use robot_arm.Gpio.Examples.Servos.{whole, smooth}
use robot_arm.Control.{Control, control_round}
use robot_arm.Base.{List, ◌-ℤ◌, ◌+ℤ◌, ◌*ℤ◌, ◌/ℤ◌, ◌≤ℤ◌, ◌+◌, int_laws}
use robot_arm.Gpio.Smooth.{SmoothServo}
use robot_arm.Control.Start.{Turn, batch, thread_tick, servos_flat, turns}
use robot_arm.Control.Widths.{AllInRange, IsPart, IsAngle, IsRounding, servos_flat-turns}
use robot_arm.Control.Round.{Rounded, control_round_lem, control_round-stray}

abbrev servo_message : ℤ → Message
servo_message user_id = record {
  value = pos 900;
  timestamp = 0;
  user_id = user_id;
  user_type = user_websocket;
  motion = no_motion;
}

abbrev two_servos : Mem Message → Control whole
two_servos mem = record {
  buffer = replicate max_msg_buffer_size no_message;
  mem = mem;
  servos = smooth ∷ smooth ∷ [];
}

connected : eqb_ℤ (get_connections two_clients) (pos 0) ≡ false
unfolding get_connections
connected = ground arith

abbrev good : Control whole
good = two_servos (pair (servo_message (pos 1)) (servo_message (pos 0)))

control_round_example :
    (c' : Control whole) × (control_round whole two_clients good ≡ done c')
    × Rounded whole (servo_message (pos 1) ∷ servo_message (pos 0) ∷ []) good c'
control_round_example =
    control_round_lem whole two_clients good
      (pair_cells (servo_message (pos 1)) (servo_message (pos 0))) connected
      (pair-IsQueue (servo_message (pos 1)) (servo_message (pos 0))) refl (omega arith)
      (omega arith, (omega arith, tt))

abbrev bad : Control whole
bad = two_servos (pair (servo_message (pos 1)) (servo_message (negsuc 0)))

control_round-stray_example : control_round whole two_clients bad ≡ bad_pointer
control_round-stray_example =
    control_round-stray whole two_clients bad
      (pair_cells (servo_message (pos 1)) (servo_message (negsuc 0))) (servo_message (pos 1) ∷ [])
      (servo_message (negsuc 0)) [] connected
      (pair-IsQueue (servo_message (pos 1)) (servo_message (negsuc 0))) refl (omega arith) refl
      (λ e. e)

abbrev single : Message → Mem Message
single v = record {
  heap = λ a. if a == 7 then some (record { next = 0; msg = v }) else none;
  queue = record { head = 7; tail = 7; length = 1 };
}

single-IsQueue : (v : Message) → IsQueue (single v) ((7, v) ∷ [])
single-IsQueue v = record {
  chain = (omega arith, refl, refl, tt);
  head = refl;
  tail = λ ne. refl;
  count = refl;
}

-- A queue of 513 messages, at the addresses 513 down to 1.
abbrev long_heap : Heap Message
long_heap a = some (record { next = a - 1; msg = servo_message (pos 0) })

down : ℕ → Cells Message
down zero = []
down (suc n) = (suc n, servo_message (pos 0)) ∷ down n

first-down : (n : ℕ) → first (down n) ≡ n
unfolding down
first-down zero = refl
first-down (suc n) = refl

has-down : (n a : ℕ) → n < a → has a (down n) ≡ false
unfolding down
has-down zero a h = refl
has-down (suc n) a h = ground (arith, has-down n a)

down-Chain : (n : ℕ) → Chain long_heap (down n)
unfolding down
down-Chain zero = tt
down-Chain (suc n) = (omega arith, has-down n (suc n) (omega arith), next_cell, down-Chain n)
  where
    next_cell :
        long_heap (suc n) ≡ some (record { next = first (down n); msg = servo_message (pos 0) })
    next_cell =
        ap (λ (p : ℕ). some (record { next = p; msg = servo_message (pos 0) }))
          (omega (arith, first-down n))

last-down : (p n : ℕ) → last p (down (suc n)) ≡ 1
unfolding down
last-down p zero = refl
last-down p (suc n) = last-down (suc (suc n)) n

length-down : (n : ℕ) → length (down n) ≡ n
unfolding down
length-down zero = refl
length-down (suc n) = ap suc (length-down n)

long : Mem Message
long = record { heap = long_heap; queue = record { head = 513; tail = 1; length = 513 } }

long-IsQueue : IsQueue long (down 513)
unfolding long
long-IsQueue = record {
  chain = down-Chain 513;
  head = sym (first-down 513);
  tail = λ ne. sym (last-down null 512);
  count = sym (length-down 513);
}

-- Whole numbers round a part of pi, which is 3, down to 0 or 1.
part_lem : (a : ℤ) → IsAngle whole a → IsPart whole ((a -ℤ pos 0) /ℤ (pos 3 -ℤ pos 0))
unfolding ◌-ℤ◌ ◌/ℤ◌
part_lem (negsuc n) (h, k) = absurd (ground arith)
part_lem (pos zero) h = (refl, refl)
part_lem (pos (suc zero)) h = (refl, refl)
part_lem (pos (suc (suc zero))) h = (refl, refl)
part_lem (pos (suc (suc (suc zero)))) h = (refl, refl)
part_lem (pos (suc (suc (suc (suc n))))) (h, k) = absurd (ground arith)

none_of : (n : ℕ) → pos n *ℤ pos 0 ≡ pos 0
unfolding ◌*ℤ◌
none_of n = ground arith

one_of : (n : ℕ) → pos n *ℤ pos 1 ≡ pos n
unfolding ◌*ℤ◌
one_of n = ground arith

scaled_lem :
    (m n : ℕ) (t : ℤ)
    → IsPart whole t
    → (pos m ≤ℤ pos m +ℤ pos n *ℤ t) × (pos m +ℤ pos n *ℤ t ≤ℤ pos (m + n))
scaled_lem m n (negsuc t) (h, k) = absurd (ground arith)
scaled_lem m n (pos zero) h = rw (none_of n) (omega int_laws, omega int_laws)
scaled_lem m n (pos (suc zero)) h = rw (one_of n) (omega int_laws, omega int_laws)
scaled_lem m n (pos (suc (suc t))) (h, k) = absurd (ground arith)

whole-IsRounding : IsRounding whole
whole-IsRounding = record { part = part_lem; scaled = λ m n t small h. scaled_lem m n t h }

abbrev some_turns : List (Turn whole)
some_turns =
    thread_tick 2 (pos 1)
    ∷ batch (servo_message (pos 2) ∷ servo_message (pos 5) ∷ [])
    ∷ thread_tick 5 (pos 1)
    ∷ thread_tick 9 (pos 1)
    ∷ []

servos_flat-turns_example :
    (servos : List (SmoothServo whole)) × (turns whole some_turns (servos_flat whole) ≡ done servos)
    × (length servos ≡ 6)
    × AllInRange whole servos
unfolding ◌*ℤ◌ ◌/ℤ◌
servos_flat-turns_example =
    servos_flat-turns whole whole-IsRounding some_turns (refl, refl) (refl, refl) (refl, refl)
      ((omega arith, (omega arith, tt)), tt)
