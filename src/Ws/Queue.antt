-- ===== src/Ws/Queue.antt =====
-- The linked-list queue of RaspberryPi/src/ws/message_queue.c over an explicit heap of list
-- elements. The element type is a parameter; the program's is `Message`. An address that `malloc`
-- returns is an argument, null when memory is exhausted. The one `struct queue` is a record.
pub mod Chain
pub mod Fifo
use robot_arm.Base.{ℕ, zero, suc, ◌+◌, ◌-◌, Bool, Option, none, some, ◌==◌, if◌then◌else◌}
use robot_arm.Ws.Run.{Run, done, assert_failed, bad_pointer, out_of_fuel, ◌>>=◌}

abbrev pub Ptr : Type 0
Ptr = ℕ

abbrev pub null : Ptr
null = 0

pub record Elt (A : Type 0) : Type 0 where
  pub next : Ptr
  pub msg : A

pub record Queue : Type 0 where
  pub head : Ptr
  pub tail : Ptr
  pub length : ℕ

abbrev pub Heap : Type 0 → Type 0
Heap A = Ptr → Option (Elt A)

-- The queue and the elements that it points into.
pub record Mem (A : Type 0) : Type 0 where
  pub heap : Heap A
  pub queue : Queue

unfoldable pub write : {A : Type 0} → Heap A → Ptr → Option (Elt A) → Heap A
write h p c a = if a == p then c else h a

pub queue_empty : Queue → Bool
queue_empty q = q.head == null

module _ {A : Type 0} where
  -- `*p`: null and addresses that hold no element cannot be read.
  unfoldable pub load : Heap A → Ptr → Run (Elt A)
  load h p = if p == null then bad_pointer else elim (h p) [ none ↦ bad_pointer | some e ↦ done e ]

  unfoldable pub queue_create : Heap A → Mem A
  queue_create h = record { heap = h; queue = record { head = null; tail = null; length = 0 } }

  -- `e` is what `malloc` returns. The new element is written first, then linked behind the tail.
  pub enq : Mem A → Ptr → A → Run (Mem A)
  unfolding load write
  enq m e msg =
      let h : Heap A = write m.heap e (some (record { next = null; msg = msg })) in
      if e == null
      then assert_failed
      else if m.queue.head == null
      then done
          (record { heap = h; queue = record { head = e; tail = e; length = m.queue.length + 1 } })
      else (do
        t ← load h m.queue.tail
        done (record {
          heap = write h m.queue.tail (some (record t { next = e }));
          queue = record m.queue { tail = e; length = m.queue.length + 1 };
        }))

  pub deq : Mem A → Run (A × Mem A)
  unfolding queue_empty load write
  deq m = if queue_empty m.queue then assert_failed else do
    e ← load m.heap m.queue.head
    done (
      e.msg,
      record {
        heap = write m.heap m.queue.head none;
        queue = record m.queue { head = e.next; length = m.queue.length - 1 };
      },
    )

  -- The loop of `queueDestroy`; `free(q)` ends the queue's life and is not a step of the heap.
  pub queue_destroy : ℕ → Mem A → Run (Mem A)
  queue_destroy zero m = out_of_fuel
  queue_destroy (suc k) m =
      if queue_empty m.queue then done m else do (_, m') ← deq m; queue_destroy k m'
