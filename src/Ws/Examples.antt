-- ===== src/Ws/Examples.antt =====
-- The theorems on the queue, the table and the packets at concrete inputs, and the values they are
-- tried on.
mod Visits
mod Start
use robot_arm.Base.{
  ℕ, ◌+◌, ◌≡◌, refl, ◌≢◌, ◌<◌, ◌≤◌, ◌-ℤ◌, true, false, Option, none, some, List, [], ◌∷◌, ◌++◌, ℤ,
  pos, negsuc, arith, ◌==◌, if◌then◌else◌, length, take, drop, replicate, IsI32,
}
use robot_arm.Ws.Run.{done}
use robot_arm.Ws.Queue.{Ptr, null, Elt, Heap, Mem, enq, queue_destroy}
use robot_arm.Ws.Queue.Chain.{Cells, has, IsQueue}
use robot_arm.Ws.Queue.Fifo.{queue_destroy_lem}
use robot_arm.Ws.MessageQueue.{MessageList, max_msg_buffer_size, pop_new_messages}
use robot_arm.Ws.MessageQueue.Pop.{messages, pop_new_messages-report}
use robot_arm.Ws.MessageQueue.Refinement.{Call, send, receive, sent, Delivers, run-Delivers}
use robot_arm.Ws.Connections.{
  no_id, table_size, Connections, initial, occupied, insert_id, remove_id,
}
use robot_arm.Ws.Connections.Slots.{holds}
use robot_arm.Ws.Connections.Table.{
  IsTable, count-bounds, Inserted, insert_id_lem, remove-insert, Removed, remove_id_lem,
}
use robot_arm.Ws.Message.{Message, user_websocket, no_motion}
use robot_arm.Ws.Receive.{Alloc, ws_recv_msg}
use robot_arm.Ws.Receive.Packet.{packet_of, ws_recv_msg_lem}

-- Two elements, at the addresses 1 and 2.
abbrev pub pair_heap : {A : Type 0} → A → A → Heap A
pair_heap v w a =
    if a == 1
    then some (record { next = 2; msg = v })
    else if a == 2
    then some (record { next = 0; msg = w })
    else none

abbrev pub pair : {A : Type 0} → A → A → Mem A
pair v w = record { heap = pair_heap v w; queue = record { head = 1; tail = 2; length = 2 } }

abbrev pub pair_cells : {A : Type 0} → A → A → Cells A
pair_cells v w = (1, v) ∷ (2, w) ∷ []

pub pair-IsQueue : {A : Type 0} (v w : A) → IsQueue (pair v w) (pair_cells v w)
pair-IsQueue v w = record {
  chain = (ground arith, refl, refl, (ground arith, refl, refl, tt));
  head = refl;
  tail = λ ne. refl;
  count = refl;
}

-- A `malloc` with the addresses 1 to 4.
abbrev malloc : Heap ℕ → Ptr
malloc h = elim (h 1) [
  | none ↦ 1
  | some _ ↦ elim (h 2) [
    | none ↦ 2
    | some _ ↦ elim (h 3) [ none ↦ 3 | some _ ↦ elim (h 4) [ none ↦ 4 | some _ ↦ 0 ] ]
  ]
]

malloc-fresh : (h : Heap ℕ) → malloc h ≢ null → h (malloc h) ≡ none
malloc-fresh h ne = ground arith

abbrev calls : List (Call ℕ)
calls = send 30 ∷ receive ∷ send 40 ∷ send 50 ∷ []

abbrev buffer : List ℕ
buffer = replicate max_msg_buffer_size 0

run-Delivers_example :
    Delivers malloc calls [] buffer (pair 10 20) ([] ++ (messages (pair_cells 10 20) ++ sent calls))
run-Delivers_example =
    run-Delivers malloc malloc-fresh calls [] buffer (pair 10 20) (pair_cells 10 20)
      (pair-IsQueue 10 20) refl

pop_new_messages-report_example :
    (r : MessageList ℕ) × (m' : Mem ℕ) × (pop_new_messages buffer (pair 10 20) ≡ done (r, m'))
    × (2 ≤ max_msg_buffer_size → (take r.length r.buffer ≡ 10 ∷ 20 ∷ []) × IsQueue m' [])
    × (max_msg_buffer_size < 2
        → (length r.buffer < r.length)
          × (r.buffer ≡ take max_msg_buffer_size (10 ∷ 20 ∷ []))
          × IsQueue m' (drop max_msg_buffer_size (pair_cells 10 20)))
pop_new_messages-report_example =
    pop_new_messages-report buffer (pair 10 20) (pair_cells 10 20) (pair-IsQueue 10 20) refl

queue_destroy_example :
    (m' : Mem ℕ) × (queue_destroy 3 (pair 10 20) ≡ done m')
    × IsQueue m' []
    × ((a : Ptr)
        → m'.heap a ≡ (if has {A = ℕ} a (pair_cells 10 20) then none else pair_heap 10 20 a))
queue_destroy_example =
    queue_destroy_lem 3 (pair 10 20) (pair_cells 10 20) (pair-IsQueue 10 20) (omega arith)

-- Two clients, in the first and the third slot.
abbrev pub two_clients : Connections
two_clients = record { first_time = false; ids = 11 ∷ 0 ∷ 12 ∷ replicate 17 no_id; count = pos 2 }

pub two_clients-IsTable : IsTable two_clients
unfolding occupied
two_clients-IsTable = record {
  size = refl;
  count = refl;
  distinct = ground arith;
  unused = λ e. ground arith;
}

abbrev pub two_occupied : occupied two_clients.ids < table_size
unfolding occupied
two_occupied = omega arith

insert_id_example :
    Inserted 13 two_clients two_clients-IsTable
      (insert_id 13 two_clients).0
      (insert_id 13 two_clients).1
insert_id_example = insert_id_lem 13 two_clients two_clients-IsTable (omega arith) refl

remove_id_example : Removed 12 two_clients two_clients-IsTable (remove_id 12 two_clients)
remove_id_example = remove_id_lem 12 two_clients two_clients-IsTable (omega arith)

count-bounds_example : (n : ℕ) × (pos 2 ≡ pos n) × (n ≤ table_size)
count-bounds_example = count-bounds two_clients two_clients-IsTable

abbrev pub no_message : Message
no_message = record {
  value = pos 0;
  timestamp = 0;
  user_id = pos 0;
  user_type = user_websocket;
  motion = no_motion;
}

abbrev pub alloc : Alloc
alloc = record { payload = true; junk = λ _. 0; element = 3 }

ws_recv_msg_example :
    (m' : Mem Message) × (ws_recv_msg alloc
        (packet_of (negsuc 6) (pos 2))
        (pair no_message no_message)
      ≡ done (0, m'))
    × IsQueue m' (
        pair_cells no_message no_message
        ++ (
          3,
          record {
            value = negsuc 6;
            timestamp = 0;
            user_id = pos 2 -ℤ pos 1;
            user_type = user_websocket;
            motion = no_motion;
          },
        )
          ∷ [])
ws_recv_msg_example =
    ws_recv_msg_lem alloc (negsuc 6) (pos 2) (pair no_message no_message)
      (pair_cells no_message no_message) (omega arith) (omega arith) (omega arith)
      (pair-IsQueue no_message no_message) refl (omega arith) refl
