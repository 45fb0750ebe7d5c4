-- ===== src/Ws/Receive/Packet.antt =====
-- `ws_recv_msg` against the layout of a client's packet.
use robot_arm.Base.{
  ℕ, ◌/◌, ◌%◌, ◌^◌, ◌<◌, ◌≡◌, ◌≢◌, true, none, List, [], ◌∷◌, ◌++◌, ℤ, pos, negsuc, ◌-ℤ◌, IsI32,
  to_i32, of_i32, to_i32-of_i32, of_i32-lt, neg_part, arith, inl, inr, Bool-cases, if◌then◌else◌,
}
use mathlib.Core.List.{append-nil}
use robot_arm.Ws.Run.{done}
use robot_arm.Ws.Queue.{null, Mem}
use robot_arm.Ws.Queue.Chain.{Cells, IsQueue}
use robot_arm.Ws.MessageQueue.Refinement.{enq_msg_lem}
use robot_arm.Ws.Message.{Message, user_websocket, no_motion}
use robot_arm.Ws.Receive.{Alloc, message_of, payload_byte, word, pred32, ws_recv_msg}

-- An `int32_t` as the client's Int32Array lays it out.
abbrev pub le_bytes : ℕ → List ℕ
le_bytes w = w % 2 ^ 8 ∷ w / 2 ^ 8 % 2 ^ 8 ∷ w / 2 ^ 16 % 2 ^ 8 ∷ w / 2 ^ 24 ∷ []

-- The packet of a slider or a button: the message's value and the player's number.
abbrev pub packet_of : ℤ → ℤ → List ℕ
packet_of value player = le_bytes (of_i32 value) ++ le_bytes (of_i32 player)

word_zero :
    (v p : ℕ) (junk : ℕ → ℕ)
    → v < 2 ^ 32
    → word (payload_byte (le_bytes v ++ le_bytes p) junk) 0 ≡ v
word_zero v p junk h = omega arith

word_one :
    (v p : ℕ) (junk : ℕ → ℕ)
    → p < 2 ^ 32
    → word (payload_byte (le_bytes v ++ le_bytes p) junk) 1 ≡ p
word_one v p junk h = omega arith

-- The player's number less one, as the code computes it on the pattern.
pred32_lem : (p : ℤ) → IsI32 p → neg_part p < 2 ^ 31 → to_i32 (pred32 (of_i32 p)) ≡ p -ℤ pos 1
unfolding to_i32 of_i32 ◌-ℤ◌
pred32_lem (pos n) h k = ground arith
pred32_lem (negsuc n) h k = ground arith

-- Whatever the packet, one message is queued, or none where its payload cannot be allocated.
pub ws_recv_msg-queues :
    (a : Alloc) (input : List ℕ) (m : Mem Message) (xs : Cells Message)
    → IsQueue m xs
    → a.element ≢ null
    → m.heap a.element ≡ none
    → (r : ℕ) × (m' : Mem Message) × (ws_recv_msg a input m ≡ done (r, m'))
      × IsQueue m' (xs ++ (if a.payload then (a.element, message_of input a.junk) ∷ [] else []))
unfolding ws_recv_msg
ws_recv_msg-queues a input m xs is ne unused = elim (Bool-cases a.payload) [
  | inl ok ↦
      let (m', e, is') = enq_msg_lem m xs a.element (message_of input a.junk) is ne unused in
      (0, m', rw (ok, e), rw ok is')
  | inr oom ↦ (1, m, rw oom, rw (oom, append-nil) is)
]

-- Decoding undoes encoding: the packet of a 32-bit value and a 32-bit player number above -2^31
-- puts one message with that value and with the player number less one behind a well-formed queue,
-- where the payload can be allocated and `malloc` gives a fresh queue element.
pub ws_recv_msg_lem :
    (a : Alloc) (value player : ℤ) (m : Mem Message) (xs : Cells Message)
    → IsI32 value
    → IsI32 player
    → neg_part player < 2 ^ 31
    → IsQueue m xs
    → a.payload ≡ true
    → a.element ≢ null
    → m.heap a.element ≡ none
    → (m' : Mem Message) × (ws_recv_msg a (packet_of value player) m ≡ done (0, m'))
      × IsQueue m' (
          xs
          ++ (
            a.element,
            record {
              value = value;
              timestamp = 0;
              user_id = player -ℤ pos 1;
              user_type = user_websocket;
              motion = no_motion;
            },
          )
            ∷ [])
unfolding ws_recv_msg
ws_recv_msg_lem a value player m xs hv hp hn is ok ne unused =
    let (m', e, is') = enq_msg_lem m xs a.element _ is ne unused in
    (
      m',
      rw (
        ok,
        word_zero (of_i32 value) (of_i32 player) a.junk (of_i32-lt value hv),
        word_one (of_i32 value) (of_i32 player) a.junk (of_i32-lt player hp),
        to_i32-of_i32 value hv,
        pred32_lem player hp hn,
        e,
      ),
      is',
    )
