-- ===== src/Ws/Life.antt =====
-- The life of the server: `init_msg_q` of RaspberryPi/src/ws/message_queue.c, PROTOCOL_INIT of
-- `callback_minimal` (RaspberryPi/src/ws/protocol_lws_minimal.c), then callbacks on the thread of the
-- server and calls of `pop_new_messages` on that of the control loop, and PROTOCOL_DESTROY. What the
-- library makes and destroys with the ring is a parameter.
pub mod Course
use robot_arm.Base.{ℕ, Option, none, some, List, [], ◌∷◌, ◌++◌, map}
use robot_arm.Ws.Run.{Run, done, ◌>>=◌}
use robot_arm.Ws.Queue.{Ptr, Heap}
use robot_arm.Ws.MessageQueue.{init_msg_q, pop_new_messages}
use robot_arm.Ws.Connections.{initial}
use robot_arm.Ws.Message.{Message}
use robot_arm.Ws.Lws.{Lws, Msg}
use robot_arm.Ws.Server.{Session, free_payload, Server}
use robot_arm.Ws.Callback.{Reason, Env, callback_minimal}

abbrev pub ring_buffer_length : ℕ
ring_buffer_length = 8

module _ (lws : Lws) where
  open lws use {Ring}

  -- PROTOCOL_INIT behind `lws_ring_create`, on the memory that `init_msg_q` leaves: the state, zero but
  -- for the ring, or no state where there is no ring, and the callback returns 1. `sessions` is what
  -- the library will allocate for the clients.
  abbrev pub with_ring : (Ptr → Session) → Heap Message → Option Ring → Option (Server Ring)
  with_ring sessions heap none = none
  with_ring sessions heap (some ring) = some (record {
    ring = ring;
    sessions = sessions;
    pss_list = [];
    connections = initial;
    mem = init_msg_q heap;
    log = [];
  })

  unfoldable pub protocol_init :
      (ℕ → Option Ring) → (Ptr → Session) → Heap Message → Option (Server Ring)
  protocol_init ring_create sessions heap = with_ring sessions heap (ring_create ring_buffer_length)

  -- PROTOCOL_DESTROY: the library passes each message that is left in the ring to
  -- `__minimal_destroy_message`.
  unfoldable pub protocol_destroy : (Ring → List Msg) → Server Ring → Server Ring
  protocol_destroy held s = record s { log = s.log ++ map free_payload (held s.ring) }

  -- What happens to the server: a callback, or the control loop's `pop_new_messages`, where the static
  -- buffer holds what is given.
  pub data Happening : Type 0 where
    called : Env → Reason → Happening
    popped : List Message → Happening

  unfoldable pub happen : Happening → Server Ring → Run (Server Ring)
  happen (called env reason) s = callback_minimal lws env reason s
  happen (popped buffer) s = do
    (r, mem) ← pop_new_messages buffer s.mem
    done (record s { mem = mem })

  unfoldable pub life : List Happening → Server Ring → Run (Server Ring)
  life [] s = done s
  life (h ∷ hs) s = do s' ← happen h s; life hs s'
