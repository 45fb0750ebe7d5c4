-- ===== src/Ws/Server.antt =====
-- The websocket protocol of RaspberryPi/src/ws: `callback_minimal` of protocol_lws_minimal.c and the
-- functions of lws_gibberish.c that it calls. The library's ring buffer is the parameter `lws`. The
-- sessions are a store, addressed by pointer, and the list of live sessions, which the source threads
-- through the sessions' `pss_list` fields, is a list of pointers. What the code asks of the library,
-- and the payloads that it frees, are a log.
pub mod Laggards
pub mod Cull
pub mod Broadcast
use robot_arm.Base.{
  ℕ, zero, suc, ◌+◌, ◌-◌, ◌*◌, ◌/◌, ◌%◌, ◌^◌, Bool, true, false, Option, none, some, List, [], ◌∷◌,
  ◌++◌, map, ℤ, pos, negsuc, ◌+ℤ◌, ◌-ℤ◌, of_i32, if◌then◌else◌, ltb, ltb_ℤ, ◌==◌, length,
}
use robot_arm.Ws.Run.{Run, done, bad_pointer, ◌>>=◌}
use robot_arm.Ws.Queue.{Ptr, Mem}
use robot_arm.Ws.MessageQueue.{enq_msg}
use robot_arm.Ws.Connections.{Connections, insert_id, remove_id}
use robot_arm.Ws.Message.{Message, msg_disconnect, user_websocket, no_motion}
use robot_arm.Ws.Receive.{Alloc, ws_recv_msg}
use robot_arm.Ws.Lws.{Lws, Msg}

-- `struct per_session_data__minimal`; `wsi` names the client's connection.
pub record Session : Type 0 where
  pub wsi : ℕ
  pub tail : ℕ
  pub culled : Bool

pub data Event : Type 0 where
  want_writable : ℕ → Event
  kill : ℕ → Event
  write : ℕ → Msg → Event
  free_payload : Msg → Event

-- What the callbacks read and write: `struct per_vhost_data__minimal`, the sessions, the table of
-- connections and the message queue.
pub record Server (Ring : Type 0) : Type 0 where
  pub ring : Ring
  pub sessions : Ptr → Session
  pub pss_list : List Ptr
  pub connections : Connections
  pub mem : Mem Message
  pub log : List Event

abbrev pub update : (Ptr → Session) → Ptr → Session → Ptr → Session
update f p v q = if p == q then v else f q

-- `lws_ll_fwd_remove`.
unfoldable pub ll_fwd_remove : Ptr → List Ptr → List Ptr
ll_fwd_remove p [] = []
ll_fwd_remove p (q ∷ qs) = if q == p then qs else q ∷ ll_fwd_remove p qs

-- `lws_callback_on_writable` for each session of the list.
abbrev pub ask_all : (Ptr → Session) → List Ptr → List Event
ask_all sessions [] = []
ask_all sessions (p ∷ ps) = want_writable (sessions p).wsi ∷ ask_all sessions ps

abbrev pub tails : (Ptr → Session) → List Ptr → List ℕ
tails sessions [] = []
tails sessions (p ∷ ps) = (sessions p).tail ∷ tails sessions ps

-- The four bytes of an `int32_t`, in memory order.
abbrev pub int_bytes : ℤ → List ℕ
int_bytes n =
    of_i32 n % 2 ^ 8 ∷ of_i32 n / 2 ^ 8 % 2 ^ 8 ∷ of_i32 n / 2 ^ 16 % 2 ^ 8 ∷ of_i32 n / 2 ^ 24 ∷ []

abbrev pub int_msg : ℤ → Msg
int_msg n = record { payload = some (int_bytes n); len = 4 }

module _ (lws : Lws) where
  open lws use {
    Ring, get_count_free_elements, get_count_waiting_elements, get_oldest_tail, insert, get_element,
    consume_and_update_oldest_tail,
  }

  -- `written` is what `lws_write` returns. A short write returns -1 and consumes nothing.
  pub ws_write : Server Ring → Ptr → ℕ → Msg → ℤ → Server Ring × ℤ
  ws_write s receiver wsi msg written =
      let log = s.log ++ write wsi msg ∷ [] in
      let (ring, tail) =
        consume_and_update_oldest_tail s.ring (s.sessions receiver).tail (pos 1)
          (tails s.sessions s.pss_list) in
      if ltb_ℤ written (pos msg.len) then (record s { log = log }, negsuc 0) else (
        record s {
          ring = ring;
          sessions = update s.sessions receiver (record (s.sessions receiver) { tail = tail });
          log = log;
        },
        written,
      )

  -- Into the ring, for all live sessions; 1 and the payload freed where the ring is full.
  pub ws_broadcast : Server Ring → Msg → Server Ring × ℤ
  ws_broadcast s amsg =
      let (ring, inserted) = insert s.ring amsg in
      if inserted == 0
      then (record s { log = s.log ++ free_payload amsg ∷ [] }, pos 1)
      else (record s { ring = ring; log = s.log ++ ask_all s.sessions s.pss_list }, pos 0)

  pub ws_send : Server Ring → Ptr → Msg → Server Ring × ℤ
  ws_send s receiver amsg =
      let (ring, inserted) = insert s.ring amsg in
      if inserted == 0 then (record s { log = s.log ++ free_payload amsg ∷ [] }, pos 1) else (
        record s { ring = ring; log = s.log ++ want_writable (s.sessions receiver).wsi ∷ [] },
        pos 0,
      )

  -- `allocated` says whether `malloc` gave a payload. What `ws_broadcast` returns is not looked at.
  pub ws_broadcast_int : Server Ring → Bool → ℤ → Server Ring × ℤ
  unfolding ws_broadcast
  ws_broadcast_int s allocated number =
      if allocated then ((ws_broadcast s (int_msg number)).0, pos 0) else (s, pos 1)

  -- The variables of the loop of `cull_lagging_clients`; `kept` is what it leaves of the list so far.
  pub record Culling : Type 0 where
    pub sessions : Ptr → Session
    pub kept : List Ptr
    pub old_pss : Option Ptr
    pub most : ℕ
    pub log : List Event

  pub cull_step : Ring → ℕ → Ptr → Culling → Culling
  cull_step ring oldest_tail p c =
      let m = get_count_waiting_elements ring (c.sessions p).tail in
      if (c.sessions p).tail == oldest_tail
      then record c {
        sessions = update c.sessions p (record (c.sessions p) { culled = true });
        old_pss = some p;
        log = c.log ++ kill (c.sessions p).wsi ∷ [];
      }
      else record c { kept = c.kept ++ p ∷ []; most = if ltb c.most m then m else c.most }

  pub cull_loop : Ring → ℕ → List Ptr → Culling → Culling
  cull_loop ring oldest_tail [] c = c
  cull_loop ring oldest_tail (p ∷ ps) c =
      cull_loop ring oldest_tail ps (cull_step ring oldest_tail p c)

  -- What is done once the loop has ended.
  pub cull_finish : ℕ → Server Ring → Culling → Server Ring
  cull_finish before s c =
      let s' = record s { sessions = c.sessions; pss_list = c.kept; log = c.log } in
      elim c.old_pss [
        | none ↦ s'
        | some p ↦
            let (ring, tail) =
              consume_and_update_oldest_tail s.ring (c.sessions p).tail (pos before -ℤ pos c.most)
                (tails c.sessions c.kept) in
            record s' {
              ring = ring;
              sessions = update c.sessions p (record (c.sessions p) { tail = tail });
            }
      ]

  pub cull_lagging_clients : Server Ring → Server Ring
  unfolding cull_finish
  cull_lagging_clients s =
      let oldest_tail = get_oldest_tail s.ring in
      let before = get_count_waiting_elements s.ring oldest_tail in
      cull_finish before s (
        cull_loop s.ring oldest_tail s.pss_list
          (record { sessions = s.sessions; kept = []; old_pss = none; most = 0; log = s.log }))
