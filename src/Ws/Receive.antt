-- ===== src/Ws/Receive.antt =====
-- What a client's packet becomes: `ws_recv_msg` and `ws_recv_motion_event` of
-- RaspberryPi/src/ws/protocol_lws_minimal.c, and `get_motion_data` of ws_ring_server.c.
pub mod Packet
use robot_arm.Base.{
  ℕ, zero, suc, ◌+◌, ◌-◌, ◌*◌, ◌%◌, ◌^◌, Bool, Option, none, some, List, [], ◌∷◌, ℤ, pos, negsuc,
  to_i32, if◌then◌else◌, ltb, length, get_elem?, set,
}
use robot_arm.Ws.Run.{Run, done, bad_pointer, ◌>>=◌}
use robot_arm.Ws.Queue.{Ptr, Mem}
use robot_arm.Ws.MessageQueue.{enq_msg}
use robot_arm.Ws.Message.{Vec3, Message, msg_motion_vector, user_websocket, no_motion}

-- The answers of `malloc` during one call: whether the payload was allocated, what the allocated
-- memory held, and the address of the queue element.
pub record Alloc : Type 0 where
  pub payload : Bool
  pub junk : ℕ → ℕ
  pub element : Ptr

-- The payload after the `memcpy`: the input, then whatever the memory held.
abbrev pub payload_byte : List ℕ → (ℕ → ℕ) → ℕ → ℕ
payload_byte [] junk i = junk i
payload_byte (b ∷ bs) junk zero = b
payload_byte (b ∷ bs) junk (suc i) = payload_byte bs (λ j. junk (suc j)) i

-- `((int32_t *) payload)[i]` on a little-endian machine, as its 32-bit pattern.
abbrev pub word : (ℕ → ℕ) → ℕ → ℕ
word byte i =
    byte (4 * i) + 2 ^ 8 * byte (4 * i + 1) + 2 ^ 16 * byte (4 * i + 2) + 2 ^ 24 * byte (4 * i + 3)

-- `x - 1` on a 32-bit pattern.
abbrev pub pred32 : ℕ → ℕ
pred32 w = (w + 2 ^ 32 - 1) % 2 ^ 32

-- The message that a packet becomes.
abbrev pub message_of : List ℕ → (ℕ → ℕ) → Message
message_of input junk = record {
  value = to_i32 (word (payload_byte input junk) 0);
  timestamp = 0;
  user_id = to_i32 (pred32 (word (payload_byte input junk) 1));
  user_type = user_websocket;
  motion = no_motion;
}

-- 1 and nothing queued where the payload cannot be allocated, else 0 and one message.
pub ws_recv_msg : Alloc → List ℕ → Mem Message → Run (ℕ × Mem Message)
ws_recv_msg a input m =
    if a.payload
    then (do m' ← enq_msg m a.element (message_of input a.junk); done (0, m'))
    else done (1, m)

abbrev pub max_players : ℕ
max_players = 16

-- `motion_msg[player]`; an index outside the array is a bad pointer.
unfoldable pub set_motion : List Vec3 → ℤ → Vec3 → Run (List Vec3)
set_motion motions (pos i) v =
    if ltb i (length motions) then done (set motions i v) else bad_pointer
set_motion motions (negsuc i) v = bad_pointer

unfoldable pub get_motion_data : List Vec3 → ℤ → Run Vec3
get_motion_data motions (pos i) = elim (get_elem? motions i) [
  | none ↦ bad_pointer
  | some v ↦ done v
]
get_motion_data motions (negsuc i) = bad_pointer

-- `packet` gives the pattern of each integer of the packet.
pub ws_recv_motion_event :
    Ptr → (ℕ → ℕ) → List Vec3 → Mem Message → Run (ℕ × List Vec3 × Mem Message)
unfolding set_motion
ws_recv_motion_event element packet motions m =
    let player = to_i32 (pred32 (packet 1)) in
    let v : Vec3 = record { x = to_i32 (packet 2); y = to_i32 (packet 3); z = to_i32 (packet 4) } in
    do
      motions' ← set_motion motions player v
      m' ← enq_msg m element (record {
        value = msg_motion_vector;
        timestamp = 0;
        user_id = player;
        user_type = user_websocket;
        motion = v;
      })
      done (0, motions', m')
