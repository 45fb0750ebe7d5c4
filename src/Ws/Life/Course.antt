-- ===== src/Ws/Life/Course.antt =====
-- The server from its start on (Ws/Life), and the messages that are in its queue.
use robot_arm.Base.{
  ℕ, ◌≡◌, refl, ◌≢◌, Option, none, some, some-injective, List, [], ◌∷◌, ◌++◌, length, drop,
}
use mathlib.Core.Path.{subst}
use robot_arm.Ws.Run.{Run, done, assert_failed, bad_pointer, divided_by_zero, out_of_fuel}
use robot_arm.Ws.Queue.{Ptr, Heap, null, queue_create}
use robot_arm.Ws.Queue.Chain.{Cells}
use robot_arm.Ws.MessageQueue.{max_msg_buffer_size, init_msg_q}
use robot_arm.Ws.MessageQueue.Pop.{pop_new_messages_lem}
use robot_arm.Ws.Connections.Table.{IsTable-initial}
use robot_arm.Ws.Message.{Message}
use robot_arm.Ws.Lws.{Lws}
use robot_arm.Ws.Server.{Session, Server}
use robot_arm.Ws.Callback.Handlers.{IsServer}
use robot_arm.Ws.Callback.Invariant.{posts, IsCall, callback_minimal-IsServer}
use robot_arm.Ws.Life.{
  Happening, called, popped, ring_buffer_length, with_ring, protocol_init, happen, life,
}

module _ (lws : Lws) where
  open lws use {Ring}

  -- What the queue holds after it: the callback's messages are behind, and `pop_new_messages` takes up
  -- to 512 from the front.
  abbrev pub queued_by : Happening lws → Server Ring → Cells Message → Cells Message
  queued_by (called env reason) s xs = xs ++ posts lws env reason s
  queued_by (popped buffer) s xs = drop max_msg_buffer_size xs

  -- What the library, `malloc` and the static buffer promise of one happening.
  abbrev pub IsHappening : Happening lws → Server Ring → Type 0
  IsHappening (called env reason) s =
      IsCall lws reason s × (env.alloc.element ≢ null) × (s.mem.heap env.alloc.element ≡ none)
  IsHappening (popped buffer) s = length buffer ≡ max_msg_buffer_size

  -- The same along a life.
  abbrev pub IsLife : List (Happening lws) → Server Ring → Type 0
  IsLife [] s = Unit
  IsLife (h ∷ hs) s =
      IsHappening h s × ((s' : Server Ring) → happen lws h s ≡ done s' → IsLife hs s')

  abbrev then_queued : Run (Server Ring) → (Server Ring → Cells Message) → Cells Message
  then_queued (done s) f = f s
  then_queued assert_failed f = []
  then_queued bad_pointer f = []
  then_queued divided_by_zero f = []
  then_queued out_of_fuel f = []

  -- What the queue holds in the end.
  abbrev pub queued : List (Happening lws) → Server Ring → Cells Message → Cells Message
  queued [] s xs = xs
  queued (h ∷ hs) s xs = then_queued (happen lws h s) (λ s'. queued hs s' (queued_by h s xs))

  happen-IsServer :
      (h : Happening lws) (s : Server Ring) (xs : Cells Message)
      → IsServer s xs
      → IsHappening h s
      → (s' : Server Ring) × (happen lws h s ≡ done s') × IsServer s' (queued_by h s xs)
  unfolding happen
  happen-IsServer (called env reason) s xs is (c, nn, unused) =
      callback_minimal-IsServer lws env reason s xs is c nn unused
  happen-IsServer (popped buffer) s xs is full =
      let (r, m', e, p) = pop_new_messages_lem buffer s.mem xs is.queue full in
      (
        record s { mem = m' },
        rw e refl,
        record { table = is.table; queue = p.left; distinct = is.distinct; alive = is.alive },
      )

  life-IsServer :
      (hs : List (Happening lws)) (s : Server Ring) (xs : Cells Message)
      → IsServer s xs
      → IsLife hs s
      → (s' : Server Ring) × (life lws hs s ≡ done s') × IsServer s' (queued hs s xs)
  unfolding life
  life-IsServer [] s xs is l = (s, refl, is)
  life-IsServer (h ∷ hs) s xs is (l, ls) =
      let (s₁, e₁, is₁) = happen-IsServer h s xs is l in
      let (s₂, e₂, is₂) = life-IsServer hs s₁ (queued_by h s xs) is₁ (ls s₁ e₁) in
      rw e₁ (s₂, e₂, is₂)

  with_ring-IsServer :
      (sessions : Ptr → Session) (heap : Heap Message) (made : Option Ring) (s : Server Ring)
      → with_ring lws sessions heap made ≡ some s
      → IsServer s []
  unfolding init_msg_q queue_create
  with_ring-IsServer sessions heap none s e = absurd cc
  with_ring-IsServer sessions heap (some ring) s e =
      subst (λ (t : Server Ring). IsServer t []) (some-injective _ _ e)
        (record {
          table = IsTable-initial;
          queue = record { chain = tt; head = refl; tail = λ ne. absurd (ne refl); count = refl };
          distinct = tt;
          alive = tt;
        })

  -- A server that starts, the ring being made, lives through any callbacks and calls of
  -- `pop_new_messages`, in any order, without a fault, if the library calls it as it promises, `malloc`
  -- gives fresh queue elements and the static buffer has its 512 places. It is well-formed at the end,
  -- and its queue holds what the callbacks posted, in order, less what was popped.
  pub protocol_init-IsServer :
      (ring_create : ℕ → Option Ring) (sessions : Ptr → Session) (heap : Heap Message)
      (hs : List (Happening lws)) (s : Server Ring)
      → protocol_init lws ring_create sessions heap ≡ some s
      → IsLife hs s
      → (s' : Server Ring) × (life lws hs s ≡ done s') × IsServer s' (queued hs s [])
  unfolding protocol_init
  protocol_init-IsServer ring_create sessions heap hs s e l =
      life-IsServer hs s [] (with_ring-IsServer sessions heap (ring_create ring_buffer_length) s e)
        l
