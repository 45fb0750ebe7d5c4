-- ===== src/Ws/Callback/Clients.antt =====
-- A client's visit: the number that it is given, and what its departure leaves behind.
use robot_arm.Base.{
  ℕ, ◌+◌, ◌<◌, ◌≡◌, refl, sym, ap, ◌∙◌, ◌≢◌, true, false, none, List, [], ◌∷◌, ◌++◌, ℤ, pos, negsuc,
  ◌+ℤ◌, arith, ◌==◌, if◌then◌else◌, eq_refl, eq_of_==_true, ne_of_==_false, Bool-cases, inl, inr,
}
use mathlib.Core.Path.{subst}
use robot_arm.Ws.Run.{done}
use robot_arm.Ws.Queue.{Ptr, null, Mem}
use robot_arm.Ws.Queue.Chain.{Cells, IsQueue}
use robot_arm.Ws.MessageQueue.Refinement.{enq_msg_lem}
use robot_arm.Ws.Connections.{no_id, table_size, occupied, insert_id, remove_id}
use robot_arm.Ws.Connections.Slots.{holds, first_free, occupied-le}
use robot_arm.Ws.Connections.Table.{IsTable, insert_id_lem, remove-insert}
use robot_arm.Ws.Message.{Message}
use robot_arm.Ws.Lws.{Lws}
use robot_arm.Ws.Server.{Server, update, ll_fwd_remove, ws_broadcast_int}
use robot_arm.Ws.Server.Broadcast.{broadcast-keeps}
use robot_arm.Ws.Callback.{Env, disconnect_message, on_established, on_closed}

ll_fwd_remove_head : (p : Ptr) (ps : List Ptr) → ll_fwd_remove p (p ∷ ps) ≡ ps
unfolding ll_fwd_remove
ll_fwd_remove_head p ps = rw (eq_refl p)

module _ (lws : Lws) where
  open lws use {Ring, get_oldest_tail}

  -- The server with the new client in it, before its number is broadcast.
  pub joined : ℕ → Ptr → Server Ring → Server Ring
  joined wsi pss s = record s {
    sessions =
        update s.sessions pss
          (record (s.sessions pss) { wsi = wsi; tail = get_oldest_tail s.ring });
    pss_list = pss ∷ s.pss_list;
    connections = (insert_id wsi s.connections).0;
  }

  -- The number broadcast to a new client is its slot plus one, and 0 where the table is full.
  pub number : ℕ → Server Ring → ℤ
  number wsi s = (insert_id wsi s.connections).1 +ℤ pos 1

  next_number : (n : ℕ) → pos n +ℤ pos 1 ≡ pos (n + 1)
  unfolding ◌+ℤ◌
  next_number n = ground arith

  no_number : negsuc 0 +ℤ pos 1 ≡ pos 0
  unfolding ◌+ℤ◌
  no_number = refl

  number_lem :
      (wsi : ℕ) (s : Server Ring)
      → IsTable s.connections
      → wsi ≢ no_id
      → holds wsi s.connections.ids ≡ false
      → number wsi s ≡ (
          if occupied s.connections.ids == table_size
          then pos 0
          else pos (first_free s.connections.ids + 1))
  unfolding number
  number_lem wsi s t ne new =
      let i = insert_id_lem wsi s.connections t ne new in
      elim (Bool-cases (occupied s.connections.ids == table_size)) [
        | inl all ↦
            rw all (ap (λ (n : ℤ). n +ℤ pos 1) (i.full (eq_of_==_true _ _ all)).0 ∙ no_number)
        | inr some_free ↦
            let room : occupied s.connections.ids < table_size = omega (
              arith,
              ne_of_==_false (occupied s.connections.ids) table_size some_free,
              occupied-le s.connections.ids,
              t.size,
            ) in
            rw some_free (
              ap (λ (n : ℤ). n +ℤ pos 1) (i.free room).0
              ∙ next_number (first_free s.connections.ids))
      ]

  -- On a well-formed table, a client with a new connection that is not null is told the number of
  -- its slot plus one; where the table is full it is told 0 and the ids stay, else the table holds
  -- the connection from then on.
  on_established-number :
      (env : Env) (wsi : ℕ) (pss : Ptr) (s : Server Ring)
      → IsTable s.connections
      → wsi ≢ no_id
      → holds wsi s.connections.ids ≡ false
      → (on_established lws env wsi pss s
          ≡ (ws_broadcast_int lws (joined wsi pss s) env.alloc.payload (
              if occupied s.connections.ids == table_size
              then pos 0
              else pos (first_free s.connections.ids + 1))).0)
        × (occupied s.connections.ids ≡ table_size
            → (joined wsi pss s).connections.ids ≡ s.connections.ids)
        × (occupied s.connections.ids < table_size
            → holds wsi (joined wsi pss s).connections.ids ≡ true)
  unfolding on_established joined number
  on_established-number env wsi pss s t ne new =
      let i = insert_id_lem wsi s.connections t ne new in
      (
        ap (λ (n : ℤ). (ws_broadcast_int lws (joined wsi pss s) env.alloc.payload n).0)
            (number_lem wsi s t ne new),
        λ full. (i.full full).1,
        λ room. (i.free room).2,
      )

  -- With a well-formed table that has room, a well-formed queue, a new connection that is not null
  -- and a fresh queue element, a client that comes and goes leaves the list of sessions, the ids
  -- and their count as they were, and one disconnect message behind the queue.
  pub closed-established :
      (env env' : Env) (wsi : ℕ) (pss : Ptr) (s : Server Ring) (xs : Cells Message)
      → IsTable s.connections
      → IsQueue s.mem xs
      → wsi ≢ no_id
      → holds wsi s.connections.ids ≡ false
      → occupied s.connections.ids < table_size
      → env'.alloc.element ≢ null
      → s.mem.heap env'.alloc.element ≡ none
      → (s' : Server Ring) × (on_closed lws env' wsi pss (on_established lws env wsi pss s)
          ≡ done s')
        × (s'.pss_list ≡ s.pss_list)
        × (s'.connections ≡ record s.connections { first_time = false })
        × IsQueue s'.mem (xs ++ (env'.alloc.element, disconnect_message) ∷ [])
  unfolding on_established on_closed joined number
  closed-established env env' wsi pss s xs t q ne new room nn unused =
      let j = joined wsi pss s in
      let u = (ws_broadcast_int lws j env.alloc.payload (number wsi s)).0 in
      let (c, m, l, f) = broadcast-keeps lws j env.alloc.payload (number wsi s) in
      let q₀ : IsQueue u.mem xs = subst (λ (k : Mem Message). IsQueue k xs) (sym m) q in
      let free : u.mem.heap env'.alloc.element ≡ none =
        ap (λ (k : Mem Message). k.heap env'.alloc.element) m ∙ unused in
      let (m', e, q') = enq_msg_lem u.mem xs env'.alloc.element disconnect_message q₀ nn free in
      (
        record u {
          pss_list = ll_fwd_remove pss u.pss_list;
          connections = remove_id wsi u.connections;
          mem = m';
        },
        rw e refl,
        ap (ll_fwd_remove pss) l ∙ ll_fwd_remove_head pss s.pss_list,
        ap (remove_id wsi) c ∙ remove-insert wsi s.connections t ne new room,
        q',
      )
