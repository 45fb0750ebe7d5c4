-- ===== src/Ws/MessageQueue.antt =====
-- The message queue that the websocket thread fills and the control loop empties:
-- `enq_msg` and `pop_new_messages` of RaspberryPi/src/ws/message_queue.c. Both hold `binary_sem` from
-- their first to their last access, so each is one step here.
pub mod Pop
pub mod Refinement
use robot_arm.Base.{ℕ, zero, suc, ◌+◌, ◌-◌, List, set, if◌then◌else◌, ltb}
use robot_arm.Ws.Run.{Run, done, ◌>>=◌}
use robot_arm.Ws.Queue.{Heap, queue_create, queue_destroy, Ptr, Mem, enq, deq}

abbrev pub max_msg_buffer_size : ℕ
max_msg_buffer_size = 512

pub record MessageList (A : Type 0) : Type 0 where
  pub buffer : List A
  pub length : ℕ

module _ {A : Type 0} where
  -- The initialisation of the mutex, and its end, are not steps of the memory.
  unfoldable pub init_msg_q : Heap A → Mem A
  init_msg_q h = queue_create h

  pub destroy_msg_q : ℕ → Mem A → Run (Mem A)
  destroy_msg_q fuel m = queue_destroy fuel m

  -- `e` is what `malloc` returns in `enq`.
  pub enq_msg : Mem A → Ptr → A → Run (Mem A)
  enq_msg m e msg = enq m e msg

  pub get_message_queue_size : Mem A → ℕ
  get_message_queue_size m = m.queue.length

  -- The loop from `i`, with `k` rounds left.
  pub copy_messages : ℕ → ℕ → List A → Mem A → Run (List A × Mem A)
  copy_messages zero i buffer m = done (buffer, m)
  copy_messages (suc k) i buffer m = do
    (msg, m') ← deq m
    copy_messages k (suc i) (set buffer i msg) m'

  -- `buffer` is the static array, which keeps its contents from one call to the next.
  pub pop_new_messages : List A → Mem A → Run (MessageList A × Mem A)
  unfolding copy_messages
  pop_new_messages buffer m =
      let n = m.queue.length in
      do
        (buffer', m') ←
            copy_messages (if ltb n max_msg_buffer_size then n else max_msg_buffer_size) 0 buffer m
        done (record { buffer = buffer'; length = n }, m')
