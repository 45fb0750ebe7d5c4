-- ===== src/Ws/Server/Cull.antt =====
-- What `cull_lagging_clients` does to the sessions, the ring and the rest of the server.
use robot_arm.Base.{
  pos, ◌-ℤ◌, ℕ, ◌≡◌, refl, ap, ◌∙◌, inl, inr, true, Option, none, some, List, [], ◌∷◌, ◌++◌, arith,
  if◌then◌else◌, Option-cases, ◌==◌, Bool-cases,
}
use robot_arm.Ws.Queue.{Ptr}
use robot_arm.Ws.Lws.{Lws}
use robot_arm.Ws.Server.{
  tails, Session, Server, update, Culling, cull_loop, cull_finish, cull_lagging_clients,
}
use robot_arm.Ws.Server.Laggards.{
  laggards, survivors, kills, listed, last_of, mark, worst, Culls, cull_loop_lem,
}

module _ (lws : Lws) where
  open lws use {Ring, get_count_waiting_elements, get_oldest_tail, consume_and_update_oldest_tail}

  -- What `consume_and_update_oldest_tail` does to the ring and the tail of the laggard `last`.
  abbrev pub consumed : Ptr → Server Ring → Ring × ℕ
  consumed last s =
      let t = get_oldest_tail s.ring in
      let left = survivors s.sessions t s.pss_list in
      consume_and_update_oldest_tail s.ring (s.sessions last).tail
        (pos (get_count_waiting_elements s.ring t) -ℤ pos (worst lws s.ring s.sessions 0 left))
        (tails s.sessions left)

  -- The tails afterwards: only that of the last laggard is written back.
  abbrev pub tail_of : Option Ptr → Server Ring → Ptr → ℕ
  tail_of none s q = (s.sessions q).tail
  tail_of (some last) s q = if last == q then (consumed last s).1 else (s.sessions q).tail

  -- The ring once the slots before the worst survivor's are free; `last` is the laggard that
  -- consumes them.
  abbrev pub freed : Option Ptr → Server Ring → Ring
  freed none s = s.ring
  freed (some last) s = (consumed last s).0

  -- What a call of `cull_lagging_clients` makes of the server.
  pub record Culled (s s' : Server Ring) : Type 0 where
    pub pss_list : s'.pss_list ≡ survivors s.sessions (get_oldest_tail s.ring) s.pss_list
    pub log :
        s'.log ≡ s.log ++ kills s.sessions (laggards s.sessions (get_oldest_tail s.ring) s.pss_list)
    pub flags :
        (q : Ptr)
        → ((s'.sessions q).culled ≡ (
            if listed q (laggards s.sessions (get_oldest_tail s.ring) s.pss_list)
            then true
            else (s.sessions q).culled))
          × ((s'.sessions q).wsi ≡ (s.sessions q).wsi)
    pub tails :
        (q : Ptr)
        → (s'.sessions q).tail
          ≡ tail_of (last_of none (laggards s.sessions (get_oldest_tail s.ring) s.pss_list)) s q
    pub ring :
        s'.ring ≡ freed (last_of none (laggards s.sessions (get_oldest_tail s.ring) s.pss_list)) s
    pub connections : s'.connections ≡ s.connections
    pub mem : s'.mem ≡ s.mem

  mark_flags :
      (f : Ptr → Session) (ps : List Ptr) (q : Ptr)
      → ((mark f ps q).culled ≡ (if listed q ps then true else (f q).culled))
        × ((mark f ps q).wsi ≡ (f q).wsi)
  mark_flags f ps q = ground arith

  -- The tail that is written back at the end changes no flag.
  finish_flags :
      (f : Ptr → Session) (p q : Ptr) (tail : ℕ)
      → ((update f p (record (f p) { tail = tail }) q).culled ≡ (f q).culled)
        × ((update f p (record (f p) { tail = tail }) q).wsi ≡ (f q).wsi)
  finish_flags f p q tail = ground arith

  start : Server Ring → Culling lws
  start s = record { sessions = s.sessions; kept = []; old_pss = none; most = 0; log = s.log }

  loop_result :
      (s : Server Ring)
      → Culls lws s.ring
          (get_oldest_tail s.ring)
          s.sessions
          s.pss_list
          (start s)
          (cull_loop lws s.ring (get_oldest_tail s.ring) s.pss_list (start s))
  unfolding start
  loop_result s =
      cull_loop_lem lws s.ring (get_oldest_tail s.ring) s.sessions s.pss_list (start s)
        (λ q. (refl, refl))

  -- Whatever the loop left in `old_pss`, the last part keeps the list, the log and the flags.
  finish_lem :
      (before : ℕ) (s : Server Ring) (c : Culling lws)
      → ((cull_finish lws before s c).pss_list ≡ c.kept)
        × ((cull_finish lws before s c).log ≡ c.log)
        × ((cull_finish lws before s c).connections ≡ s.connections)
        × ((cull_finish lws before s c).mem ≡ s.mem)
        × ((q : Ptr)
            → (((cull_finish lws before s c).sessions q).culled ≡ (c.sessions q).culled)
              × (((cull_finish lws before s c).sessions q).wsi ≡ (c.sessions q).wsi))
  unfolding cull_finish
  finish_lem before s c = elim (Option-cases c.old_pss) [
    | inl e ↦ rw e (refl, refl, refl, refl, λ q. (refl, refl))
    | inr (p, e) ↦ rw e (refl, refl, refl, refl, λ q. finish_flags c.sessions p q _)
  ]

  mark_tail : (f : Ptr → Session) (ps : List Ptr) (q : Ptr) → (mark f ps q).tail ≡ (f q).tail
  mark_tail f ps q = ground arith

  tails-agree :
      (f g : Ptr → Session) (ps : List Ptr)
      → ((q : Ptr) → (f q).tail ≡ (g q).tail)
      → tails f ps ≡ tails g ps
  tails-agree f g [] same = refl
  tails-agree f g (p ∷ ps) same = cc (same p, tails-agree f g ps same)

  -- The ring that the last part leaves, from what the loop has found.
  finish_ring :
      (s : Server Ring) (c : Culling lws) (o : Option Ptr)
      → c.old_pss ≡ o
      → Culls lws s.ring (get_oldest_tail s.ring) s.sessions s.pss_list (start s) c
      → (cull_finish lws (get_count_waiting_elements s.ring (get_oldest_tail s.ring)) s c).ring
        ≡ freed o s
  unfolding cull_finish start
  finish_ring s c none e r = rw e refl
  finish_ring s c (some p) e r =
      let t = get_oldest_tail s.ring in
      let same : (q : Ptr) → (c.sessions q).tail ≡ (s.sessions q).tail = λ q.
        ap (λ (v : Session). v.tail) (r.sessions q)
        ∙ mark_tail s.sessions (laggards s.sessions t s.pss_list) q in
      let kept : c.kept ≡ survivors s.sessions t s.pss_list = r.kept in
      rw (e, r.most, same p, tails-agree c.sessions s.sessions c.kept same, kept) refl

  -- The tails that the last part leaves.
  finish_tails :
      (s : Server Ring) (c : Culling lws) (o : Option Ptr)
      → c.old_pss ≡ o
      → Culls lws s.ring (get_oldest_tail s.ring) s.sessions s.pss_list (start s) c
      → (q : Ptr)
      → ((cull_finish lws (get_count_waiting_elements s.ring (get_oldest_tail s.ring)) s c).sessions
          q).tail
        ≡ tail_of o s q
  unfolding cull_finish start
  finish_tails s c none e r q =
      let t = get_oldest_tail s.ring in
      rw e (
        ap (λ (v : Session). v.tail) (r.sessions q)
        ∙ mark_tail s.sessions (laggards s.sessions t s.pss_list) q)
  finish_tails s c (some last) e r q =
      let t = get_oldest_tail s.ring in
      let same : (p : Ptr) → (c.sessions p).tail ≡ (s.sessions p).tail = λ p.
        ap (λ (v : Session). v.tail) (r.sessions p)
        ∙ mark_tail s.sessions (laggards s.sessions t s.pss_list) p in
      let kept : c.kept ≡ survivors s.sessions t s.pss_list = r.kept in
      elim (Bool-cases (last == q)) [
        | inl this ↦
            rw (e, this, r.most, same last, tails-agree c.sessions s.sessions c.kept same, kept)
              refl
        | inr other ↦ rw (e, other) (same q)
      ]

  -- For any ring: the sessions whose tail is the oldest leave the list, are marked as culled and
  -- their connections are killed, in order; the others stay in the list, in order, and of a session
  -- that does not go nothing changes; the last of those that go consumes the slots before the worst
  -- survivor's, and its tail alone is written back; the table and the queue are untouched.
  pub cull_lagging_clients_lem : (s : Server Ring) → Culled s (cull_lagging_clients lws s)
  unfolding cull_lagging_clients start
  cull_lagging_clients_lem s =
      let t = get_oldest_tail s.ring in
      let c = cull_loop lws s.ring t s.pss_list (start s) in
      let r = loop_result s in
      let (list, log, connections, mem, flags) =
        finish_lem (get_count_waiting_elements s.ring t) s c in
      record {
        pss_list = list ∙ r.kept;
        log = log ∙ r.log;
        flags = λ q.
            let (a, b) = flags q in
            let (a', b') = mark_flags s.sessions (laggards s.sessions t s.pss_list) q in
            (
              a ∙ ap (λ (v : Session). v.culled) (r.sessions q) ∙ a',
              b ∙ ap (λ (v : Session). v.wsi) (r.sessions q) ∙ b',
            );
        tails = finish_tails s c _ r.old_pss r;
        ring = finish_ring s c _ r.old_pss r;
        connections = connections;
        mem = mem;
      }
