-- ===== src/Ws/Callback/Invariant.antt =====
-- `callback_minimal` against the well-formed server, and the messages that it posts.
use robot_arm.Base.{◌≡◌, refl, ◌≢◌, false, none, [], ◌∷◌, ◌++◌}
use mathlib.Core.List.{append-nil}
use robot_arm.Ws.Run.{done}
use robot_arm.Ws.Queue.{null}
use robot_arm.Ws.Queue.Chain.{Cells}
use robot_arm.Ws.Connections.{no_id}
use robot_arm.Ws.Connections.Slots.{holds}
use robot_arm.Ws.Message.{Message}
use robot_arm.Ws.Lws.{Lws}
use robot_arm.Ws.Server.{Server}
use robot_arm.Ws.Server.Laggards.{listed}
use robot_arm.Ws.Callback.{
  Reason, established, closed, server_writeable, receive, other, Env, disconnect_message,
  on_established, on_writeable, callback_minimal,
}
use robot_arm.Ws.Callback.Handlers.{
  IsServer, posted, on_established-IsServer, on_closed-IsServer, on_writeable-IsServer,
  on_receive-IsServer,
}

module _ (lws : Lws) where
  open lws use {
    Ring, get_count_free_elements, get_oldest_tail, get_element, insert,
    consume_and_update_oldest_tail,
  }

  -- What a callback adds to the queue.
  abbrev pub posts : Env → Reason → Server Ring → Cells Message
  posts env (established wsi pss) s = []
  posts env (closed wsi pss) s = (env.alloc.element, disconnect_message) ∷ []
  posts env (server_writeable wsi pss) s = []
  posts env (receive input) s = posted lws env input s
  posts env other s = []

  -- What the library guarantees of a call: a new client's connection and session are new, and the
  -- session's memory is zero.
  abbrev pub IsCall : Reason → Server Ring → Type 0
  IsCall (established wsi pss) s =
      (wsi ≢ no_id)
      × (holds wsi s.connections.ids ≡ false)
      × (listed pss s.pss_list ≡ false)
      × ((s.sessions pss).culled ≡ false)
  IsCall (closed wsi pss) s = wsi ≢ no_id
  IsCall (server_writeable wsi pss) s = Unit
  IsCall (receive input) s = Unit
  IsCall other s = Unit

  -- Where the library calls it as it promises and `malloc` gives a fresh queue element, every
  -- callback on a well-formed server ends without a fault, in a well-formed server whose queue
  -- holds what it held, followed by what the callback posts.
  pub callback_minimal-IsServer :
      (env : Env) (reason : Reason) (s : Server Ring) (xs : Cells Message)
      → IsServer s xs
      → IsCall reason s
      → env.alloc.element ≢ null
      → s.mem.heap env.alloc.element ≡ none
      → (s' : Server Ring) × (callback_minimal lws env reason s ≡ done s')
        × IsServer s' (xs ++ posts env reason s)
  unfolding callback_minimal
  callback_minimal-IsServer env (established wsi pss) s xs is (ne, new, fresh, alive) nn unused = (
    on_established lws env wsi pss s,
    refl,
    rw append-nil (on_established-IsServer lws env wsi pss s xs ne new fresh alive is),
  )
  callback_minimal-IsServer env (closed wsi pss) s xs is ne nn unused =
      on_closed-IsServer lws env wsi pss s xs ne nn unused is
  callback_minimal-IsServer env (server_writeable wsi pss) s xs is _ nn unused = (
    on_writeable lws env wsi pss s,
    refl,
    rw append-nil (on_writeable-IsServer lws env wsi pss s xs is),
  )
  callback_minimal-IsServer env (receive input) s xs is _ nn unused =
      on_receive-IsServer lws env input s xs nn unused is
  callback_minimal-IsServer env other s xs is _ nn unused = (s, refl, rw append-nil is)
