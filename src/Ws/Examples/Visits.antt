-- ===== src/Ws/Examples/Visits.antt =====
-- The theorems on the server's callbacks at concrete inputs: a ring of eight messages, two clients.
use robot_arm.Base.{
  ◌+◌, ◌-◌, ◌≡◌, refl, false, List, [], ◌∷◌, ◌++◌, pos, pos_part, arith, ◌==◌, none, some,
  replicate, if◌then◌else◌, length, get_elem?,
}
use robot_arm.Ws.Run.{done}
use robot_arm.Ws.Queue.{Ptr, Heap, queue_create}
use robot_arm.Ws.MessageQueue.{max_msg_buffer_size, init_msg_q}
use robot_arm.Ws.Message.{Message}
use robot_arm.Ws.Life.{Happening, called, popped, protocol_init, life}
use robot_arm.Ws.Life.Course.{IsLife, queued, protocol_init-IsServer}
use robot_arm.Ws.Queue.Chain.{IsQueue}
use robot_arm.Ws.Connections.{initial}
use robot_arm.Ws.Lws.{Lws, Msg}
use robot_arm.Ws.Server.{Session, Server, int_msg, cull_lagging_clients}
use robot_arm.Ws.Server.Cull.{Culled, cull_lagging_clients_lem}
use robot_arm.Ws.Callback.{
  established, Env, disconnect_message, on_established, on_closed, callback_minimal,
}
use robot_arm.Ws.Callback.Invariant.{posts, callback_minimal-IsServer}
use robot_arm.Ws.Callback.Handlers.{IsServer}
use robot_arm.Ws.Callback.Clients.{closed-established}
use robot_arm.Ws.Examples.{
  pair, pair_cells, pair-IsQueue, two_clients, two_clients-IsTable, two_occupied, no_message, alloc,
}

-- A ring that keeps every message; its positions count from 0.
abbrev pub lws : Lws
lws = record {
  Ring = List Msg;
  get_count_free_elements = λ ring. 8 - length ring;
  get_count_waiting_elements = λ ring tail. length ring - tail;
  get_oldest_tail = λ ring. 0;
  insert = λ ring m. if 8 - length ring == 0 then (ring, 0) else (ring ++ m ∷ [], 1);
  get_element = λ ring tail. get_elem? ring tail;
  consume_and_update_oldest_tail = λ ring tail n tails. (ring, tail + pos_part n);
}

-- The session at 1 lags, the one at 2 does not.
abbrev pub sessions : Ptr → Session
sessions p = record { wsi = 10 + p; tail = p - 1; culled = false }

abbrev full_ring : List Msg
full_ring = int_msg (pos 1) ∷ int_msg (pos 2) ∷ []

abbrev server : Server (List Msg)
server = record {
  ring = full_ring;
  sessions = sessions;
  pss_list = 2 ∷ 1 ∷ [];
  connections = two_clients;
  mem = pair no_message no_message;
  log = [];
}

server-IsServer : IsServer server (pair_cells no_message no_message)
server-IsServer = record {
  table = two_clients-IsTable;
  queue = pair-IsQueue no_message no_message;
  distinct = (refl, (refl, tt));
  alive = (refl, (refl, tt));
}

abbrev pub env : Env
env = record { alloc = alloc; written = pos 4 }

callback_minimal_example :
    (s' : Server (List Msg)) × (callback_minimal lws env (established 13 3) server ≡ done s')
    × IsServer s' (pair_cells no_message no_message ++ posts lws env (established 13 3) server)
callback_minimal_example =
    callback_minimal-IsServer lws env (established 13 3) server (pair_cells no_message no_message)
      server-IsServer (omega arith, refl, refl, refl) (omega arith) refl

cull_lagging_clients_example : Culled lws server (cull_lagging_clients lws server)
cull_lagging_clients_example = cull_lagging_clients_lem lws server

closed-established_example :
    (s' : Server (List Msg)) × (on_closed lws env 13 3 (on_established lws env 13 3 server)
      ≡ done s')
    × (s'.pss_list ≡ 2 ∷ 1 ∷ [])
    × (s'.connections ≡ two_clients)
    × IsQueue s'.mem (pair_cells no_message no_message ++ (3, disconnect_message) ∷ [])
closed-established_example =
    closed-established lws env env 13 3 server (pair_cells no_message no_message)
      two_clients-IsTable (pair-IsQueue no_message no_message) (omega arith) refl two_occupied
      (omega arith) refl

abbrev fresh_heap : Heap Message
fresh_heap a = none

abbrev buffer : List Message
buffer = replicate max_msg_buffer_size no_message

-- A client comes, and the control loop looks into the queue.
abbrev visit : List (Happening lws)
visit = called env (established 13 3) ∷ popped buffer ∷ []

abbrev started : Server (List Msg)
started = record {
  ring = [];
  sessions = sessions;
  pss_list = [];
  connections = initial;
  mem = init_msg_q fresh_heap;
  log = [];
}

started_lem : protocol_init lws (λ n. some []) sessions fresh_heap ≡ some started
unfolding protocol_init
started_lem = refl

visit-IsLife : IsLife lws visit started
unfolding init_msg_q queue_create
visit-IsLife = (((omega arith, refl, refl, refl), omega arith, refl), λ s e. (refl, λ s' e'. tt))

protocol_init-IsServer_example :
    (s' : Server (List Msg)) × (life lws visit started ≡ done s')
    × IsServer s' (queued lws visit started [])
protocol_init-IsServer_example =
    protocol_init-IsServer lws (λ n. some []) sessions fresh_heap visit started started_lem
      visit-IsLife
