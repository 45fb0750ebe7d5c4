-- ===== src/Ws/Callback/Handlers.antt =====
-- What it is for the server to be well formed, and each callback against it.
use robot_arm.Base.{
  ℕ, ◌≡◌, refl, sym, ◌≢◌, inl, inr, false, none, some, List, [], ◌∷◌, ◌++◌, ℤ, arith, ◌==◌,
  if◌then◌else◌, Bool-cases, Option-cases,
}
use mathlib.Core.List.{append-nil}
use mathlib.Core.Path.{subst}
use robot_arm.Ws.Run.{done}
use robot_arm.Ws.Queue.{Ptr, null, Mem}
use robot_arm.Ws.Queue.Chain.{Cells, IsQueue}
use robot_arm.Ws.MessageQueue.Refinement.{enq_msg_lem}
use robot_arm.Ws.Connections.{no_id, insert_id, remove_id}
use robot_arm.Ws.Connections.Slots.{holds}
use robot_arm.Ws.Connections.Table.{IsTable, insert_id_lem, remove_id_lem}
use robot_arm.Ws.Message.{Message}
use robot_arm.Ws.Receive.{message_of}
use robot_arm.Ws.Receive.Packet.{ws_recv_msg-queues}
use robot_arm.Ws.Lws.{Lws, Msg}
use robot_arm.Ws.Server.{
  Server, want_writable, update, ll_fwd_remove, ws_write, cull_lagging_clients,
}
use robot_arm.Ws.Server.Broadcast.{broadcast-keeps, write-keeps}
use robot_arm.Ws.Callback.Sessions.{
  NoRepeat, AllAlive, NoRepeat-remove, AllAlive-remove, NoRepeat-survivors, AllAlive-agree,
  AllAlive-update, AllAlive-survivors,
}
use robot_arm.Ws.Server.Laggards.{listed}
use robot_arm.Ws.Server.Cull.{Culled, cull_lagging_clients_lem}
use robot_arm.Ws.Callback.{
  Env, disconnect_message, on_established, on_closed, on_writeable, make_room, on_receive,
}

-- `xs` are the queued messages; no live session is marked as culled.
pub record IsServer {Ring : Type 0} (s : Server Ring) (xs : Cells Message) : Type 0 where
  pub table : IsTable s.connections
  pub queue : IsQueue s.mem xs
  pub distinct : NoRepeat s.pss_list
  pub alive : AllAlive s.sessions s.pss_list

module _ (lws : Lws) where
  open lws use {
    Ring, get_count_free_elements, get_oldest_tail, get_element, insert,
    consume_and_update_oldest_tail,
  }

  cull-IsServer :
      (s : Server Ring) (xs : Cells Message)
      → IsServer s xs
      → IsServer (cull_lagging_clients lws s) xs
  cull-IsServer s xs is =
      let c : Culled lws s (cull_lagging_clients lws s) = cull_lagging_clients_lem lws s in
      record {
        table = subst IsTable (sym c.connections) is.table;
        queue = subst (λ (m : Mem Message). IsQueue m xs) (sym c.mem) is.queue;
        distinct = rw c.pss_list (NoRepeat-survivors s.sessions _ s.pss_list is.distinct);
        alive = rw c.pss_list (
            AllAlive-survivors s.sessions (cull_lagging_clients lws s).sessions _ s.pss_list
              s.pss_list (λ q. (c.flags q).0) is.alive);
      }

  make_room-IsServer :
      (s : Server Ring) (xs : Cells Message) → IsServer s xs → IsServer (make_room lws s) xs
  unfolding make_room
  make_room-IsServer s xs is = elim (Bool-cases (get_count_free_elements s.ring == 0)) [
    | inl full ↦ rw full (cull-IsServer s xs is)
    | inr room ↦ rw room is
  ]

  make_room-mem : (s : Server Ring) → (make_room lws s).mem ≡ s.mem
  unfolding make_room
  make_room-mem s = elim (Bool-cases (get_count_free_elements s.ring == 0)) [
    | inl full ↦ rw full (cull_lagging_clients_lem lws s).mem
    | inr room ↦ rw room refl
  ]

  IsServer-agree :
      (s s' : Server Ring) (xs : Cells Message)
      → (s'.connections ≡ s.connections)
        × (s'.mem ≡ s.mem)
        × (s'.pss_list ≡ s.pss_list)
        × (s'.sessions ≡ s.sessions)
      → IsServer s xs
      → IsServer s' xs
  IsServer-agree s s' xs (c, m, l, f) is = record {
    table = subst IsTable (sym c) is.table;
    queue = subst (λ (m : Mem Message). IsQueue m xs) (sym m) is.queue;
    distinct = rw l is.distinct;
    alive = rw (l, f) is.alive;
  }

  pub on_established-IsServer :
      (env : Env) (wsi : ℕ) (pss : Ptr) (s : Server Ring) (xs : Cells Message)
      → wsi ≢ no_id
      → holds wsi s.connections.ids ≡ false
      → listed pss s.pss_list ≡ false
      → (s.sessions pss).culled ≡ false
      → IsServer s xs
      → IsServer (on_established lws env wsi pss s) xs
  unfolding on_established
  on_established-IsServer env wsi pss s xs ne new fresh alive is =
      let joined : Server Ring = record s {
        sessions =
            update s.sessions pss
              (record (s.sessions pss) { wsi = wsi; tail = get_oldest_tail s.ring });
        pss_list = pss ∷ s.pss_list;
        connections = (insert_id wsi s.connections).0;
      } in
      IsServer-agree joined _ xs (broadcast-keeps lws joined env.alloc.payload _) (record {
        table = (insert_id_lem wsi s.connections is.table ne new).table;
        queue = is.queue;
        distinct = (fresh, is.distinct);
        alive = (
          ground (arith, alive),
          AllAlive-update s.sessions pss
              (record (s.sessions pss) { wsi = wsi; tail = get_oldest_tail s.ring }) s.pss_list refl
              is.alive,
        );
      })

  pub on_closed-IsServer :
      (env : Env) (wsi : ℕ) (pss : Ptr) (s : Server Ring) (xs : Cells Message)
      → wsi ≢ no_id
      → env.alloc.element ≢ null
      → s.mem.heap env.alloc.element ≡ none
      → IsServer s xs
      → (s' : Server Ring) × (on_closed lws env wsi pss s ≡ done s')
        × IsServer s' (xs ++ (env.alloc.element, disconnect_message) ∷ [])
  unfolding on_closed
  on_closed-IsServer env wsi pss s xs ne nn unused is =
      let (m, e, q) =
        enq_msg_lem s.mem xs env.alloc.element disconnect_message is.queue nn unused in
      (
        record s {
          pss_list = ll_fwd_remove pss s.pss_list;
          connections = remove_id wsi s.connections;
          mem = m;
        },
        rw e refl,
        record {
          table = (remove_id_lem wsi s.connections is.table ne).table;
          queue = q;
          distinct = NoRepeat-remove pss s.pss_list is.distinct;
          alive = AllAlive-remove s.sessions pss s.pss_list is.alive;
        },
      )

  write-IsServer :
      (s : Server Ring) (pss : Ptr) (wsi : ℕ) (msg : Msg) (written : ℤ) (xs : Cells Message)
      → IsServer s xs
      → IsServer (ws_write lws s pss wsi msg written).0 xs
  write-IsServer s pss wsi msg written xs is =
      let (c, m, l, f) = write-keeps lws s pss wsi msg written in
      record {
        table = subst IsTable (sym c) is.table;
        queue = subst (λ (m : Mem Message). IsQueue m xs) (sym m) is.queue;
        distinct = rw l is.distinct;
        alive = rw l (
            AllAlive-agree s.sessions (ws_write lws s pss wsi msg written).0.sessions s.pss_list f
              is.alive);
      }

  pub on_writeable-IsServer :
      (env : Env) (wsi : ℕ) (pss : Ptr) (s : Server Ring) (xs : Cells Message)
      → IsServer s xs
      → IsServer (on_writeable lws env wsi pss s) xs
  unfolding on_writeable
  on_writeable-IsServer env wsi pss s xs is = elim (Bool-cases (s.sessions pss).culled) [
    | inl gone ↦ rw gone is
    | inr live ↦ rw live (elim (Option-cases (get_element s.ring (s.sessions pss).tail)) [
      | inl e ↦ rw e is
      | inr (msg, e) ↦ rw e (
          asked (ws_write lws s pss wsi msg env.written).0
            (write-IsServer s pss wsi msg env.written xs is))
    ])
  ]
    where
      asked :
          (s' : Server Ring)
          → IsServer s' xs
          → IsServer
              (elim (get_element s'.ring (s'.sessions pss).tail) [
                | none ↦ s'
                | some _ ↦ record s' { log = s'.log ++ want_writable (s'.sessions pss).wsi ∷ [] }
              ])
              xs
      asked s' is' = elim (Option-cases (get_element s'.ring (s'.sessions pss).tail)) [
        | inl e ↦ rw e is'
        | inr (msg, e) ↦ rw e (record {
          table = is'.table;
          queue = is'.queue;
          distinct = is'.distinct;
          alive = is'.alive;
        })
      ]

  -- What a received packet adds to the queue.
  abbrev pub posted : Env → List ℕ → Server Ring → Cells Message
  posted env input s =
      if get_count_free_elements (make_room lws s).ring == 0
      then []
      else if env.alloc.payload
      then (env.alloc.element, message_of input env.alloc.junk) ∷ []
      else []

  pub on_receive-IsServer :
      (env : Env) (input : List ℕ) (s : Server Ring) (xs : Cells Message)
      → env.alloc.element ≢ null
      → s.mem.heap env.alloc.element ≡ none
      → IsServer s xs
      → (s' : Server Ring) × (on_receive lws env input s ≡ done s')
        × IsServer s' (xs ++ posted env input s)
  unfolding on_receive
  on_receive-IsServer env input s xs nn unused is =
      elim (Bool-cases (get_count_free_elements (make_room lws s).ring == 0)) [
        | inl full ↦
            (make_room lws s, rw full refl, rw (full, append-nil) (make_room-IsServer s xs is))
        | inr room ↦
            let is' = make_room-IsServer s xs is in
            let (r, m, e, q) =
              ws_recv_msg-queues env.alloc input (make_room lws s).mem xs is'.queue nn
                (rw make_room-mem unused) in
            (
              record (make_room lws s) { mem = m },
              rw (room, e),
              rw room (record {
                table = is'.table;
                queue = q;
                distinct = is'.distinct;
                alive = is'.alive;
              }),
            )
      ]
