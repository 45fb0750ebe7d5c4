-- ===== src/Ws/Callback.antt =====
-- `callback_minimal` of RaspberryPi/src/ws/protocol_lws_minimal.c, one function for each reason.
pub mod Sessions
pub mod Handlers
pub mod Invariant
pub mod Clients
use robot_arm.Base.{
  ℕ, ◌+◌, Bool, true, false, Option, none, some, List, [], ◌∷◌, ◌++◌, ℤ, pos, negsuc, ◌+ℤ◌,
  if◌then◌else◌, ◌==◌,
}
use robot_arm.Ws.Run.{Run, done, ◌>>=◌}
use robot_arm.Ws.Queue.{Ptr}
use robot_arm.Ws.MessageQueue.{enq_msg}
use robot_arm.Ws.Connections.{insert_id, remove_id}
use robot_arm.Ws.Message.{Message, msg_disconnect, user_websocket, no_motion}
use robot_arm.Ws.Receive.{Alloc, ws_recv_msg}
use robot_arm.Ws.Lws.{Lws, Msg}
use robot_arm.Ws.Server.{
  Session, Event, want_writable, Server, update, ll_fwd_remove, ws_write, ws_broadcast_int,
  cull_lagging_clients,
}

-- The reasons that the callback handles, with what the library passes: `wsi`, the session's pointer
-- and a received message. PROTOCOL_INIT and PROTOCOL_DESTROY are in Ws/Life.
pub data Reason : Type 0 where
  established : ℕ → Ptr → Reason
  closed : ℕ → Ptr → Reason
  server_writeable : ℕ → Ptr → Reason
  receive : List ℕ → Reason
  other : Reason

-- The answers of `malloc` and of `lws_write` during one call.
pub record Env : Type 0 where
  pub alloc : Alloc
  pub written : ℤ

-- The message that tells the control loop that a client has left.
abbrev pub disconnect_message : Message
disconnect_message = record {
  value = msg_disconnect;
  timestamp = 0;
  user_id = pos 0;
  user_type = user_websocket;
  motion = no_motion;
}

module _ (lws : Lws) where
  open lws use {Ring, get_count_free_elements, get_oldest_tail, get_element}

  -- The new client joins the live sessions and the table, and its number is broadcast.
  pub on_established : Env → ℕ → Ptr → Server Ring → Server Ring
  on_established env wsi pss s =
      let session = record (s.sessions pss) { wsi = wsi; tail = get_oldest_tail s.ring } in
      let (connections, index) = insert_id wsi s.connections in
      (ws_broadcast_int lws
        (record s {
          sessions = update s.sessions pss session;
          pss_list = pss ∷ s.pss_list;
          connections = connections;
        })
        env.alloc.payload (index +ℤ pos 1)).0

  pub on_closed : Env → ℕ → Ptr → Server Ring → Run (Server Ring)
  on_closed env wsi pss s = do
    mem ← enq_msg s.mem env.alloc.element disconnect_message
    done (record s {
      pss_list = ll_fwd_remove pss s.pss_list;
      connections = remove_id wsi s.connections;
      mem = mem;
    })

  -- One message from the ring to one client, and a request to come back if there are more.
  pub on_writeable : Env → ℕ → Ptr → Server Ring → Server Ring
  on_writeable env wsi pss s =
      if (s.sessions pss).culled then s else elim (get_element s.ring (s.sessions pss).tail) [
        | none ↦ s
        | some pmsg ↦
            let s' = (ws_write lws s pss wsi pmsg env.written).0 in
            elim (get_element s'.ring (s'.sessions pss).tail) [
              | none ↦ s'
              | some _ ↦ record s' { log = s'.log ++ want_writable (s'.sessions pss).wsi ∷ [] }
            ]
      ]

  -- The ring is made room in, though a received message does not go into it; without room the
  -- message is dropped.
  unfoldable pub make_room : Server Ring → Server Ring
  make_room s = if get_count_free_elements s.ring == 0 then cull_lagging_clients lws s else s

  pub on_receive : Env → List ℕ → Server Ring → Run (Server Ring)
  on_receive env input s =
      let s' = make_room s in
      if get_count_free_elements s'.ring == 0
      then done s'
      else (do (_, mem) ← ws_recv_msg env.alloc input s'.mem; done (record s' { mem = mem }))

  pub callback_minimal : Env → Reason → Server Ring → Run (Server Ring)
  callback_minimal env (established wsi pss) s = done (on_established env wsi pss s)
  callback_minimal env (closed wsi pss) s = on_closed env wsi pss s
  callback_minimal env (server_writeable wsi pss) s = done (on_writeable env wsi pss s)
  callback_minimal env (receive input) s = on_receive env input s
  callback_minimal env other s = done s
