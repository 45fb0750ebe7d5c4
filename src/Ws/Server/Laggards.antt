-- ===== src/Ws/Server/Laggards.antt =====
-- What the loop of `cull_lagging_clients` leaves behind.
use Prim.Native.Nat.{max}
use robot_arm.Base.{
  ℕ, ◌≡◌, refl, sym, ap, ◌∙◌, inl, inr, Bool, true, false, ◌||◌, Option, some, List, [], ◌∷◌, ◌++◌,
  arith, ltb, ◌==◌, if◌then◌else◌, Bool-cases,
}
use mathlib.Core.List.{append_assoc, append-nil}
use robot_arm.Ws.Queue.{Ptr}
use robot_arm.Ws.Lws.{Lws}
use robot_arm.Ws.Server.{Session, Event, kill, update, Culling, cull_step, cull_loop}

-- The sessions of the list that lag, and those that do not, in order.
abbrev pub laggards : (Ptr → Session) → ℕ → List Ptr → List Ptr
laggards view t [] = []
laggards view t (p ∷ ps) = if (view p).tail == t then p ∷ laggards view t ps else laggards view t ps

abbrev pub survivors : (Ptr → Session) → ℕ → List Ptr → List Ptr
survivors view t [] = []
survivors view t (p ∷ ps) =
    if (view p).tail == t then survivors view t ps else p ∷ survivors view t ps

abbrev pub kills : (Ptr → Session) → List Ptr → List Event
kills view [] = []
kills view (p ∷ ps) = kill (view p).wsi ∷ kills view ps

abbrev pub listed : Ptr → List Ptr → Bool
listed q [] = false
listed q (p ∷ ps) = (p == q) || listed q ps

abbrev pub last_of : Option Ptr → List Ptr → Option Ptr
last_of o [] = o
last_of o (p ∷ ps) = last_of (some p) ps

abbrev pub mark : (Ptr → Session) → List Ptr → Ptr → Session
mark view ps q = if listed q ps then record (view q) { culled = true } else view q

module _ (lws : Lws) where
  open lws use {Ring, get_count_waiting_elements, get_oldest_tail, consume_and_update_oldest_tail}

  -- The most elements that wait for a session of the list.
  abbrev pub worst : Ring → (Ptr → Session) → ℕ → List Ptr → ℕ
  worst ring view n [] = n
  worst ring view n (p ∷ ps) =
      worst ring view (max n (get_count_waiting_elements ring (view p).tail)) ps

  -- The loop's variables against the sessions as they were, `view`.
  pub record Culls (ring : Ring) (t : ℕ) (view : Ptr → Session) (ps : List Ptr) (c c' : Culling lws)
      : Type 0 where
    pub kept : c'.kept ≡ c.kept ++ survivors view t ps
    pub log : c'.log ≡ c.log ++ kills view (laggards view t ps)
    pub most : c'.most ≡ worst ring view c.most (survivors view t ps)
    pub old_pss : c'.old_pss ≡ last_of c.old_pss (laggards view t ps)
    pub sessions : (q : Ptr) → c'.sessions q ≡ mark c.sessions (laggards view t ps) q

  -- Only the flag of a session differs from `view`.
  abbrev Sees : (Ptr → Session) → Culling lws → Type 0
  Sees view c =
      (q : Ptr) → ((c.sessions q).tail ≡ (view q).tail) × ((c.sessions q).wsi ≡ (view q).wsi)

  after_lagging : (Ptr → Session) → Ptr → Culling lws → Culling lws
  after_lagging view p c = record c {
    sessions = update c.sessions p (record (c.sessions p) { culled = true });
    old_pss = some p;
    log = c.log ++ kill (view p).wsi ∷ [];
  }

  after_keeping : Ring → (Ptr → Session) → Ptr → Culling lws → Culling lws
  after_keeping ring view p c = record c {
    kept = c.kept ++ p ∷ [];
    most = max c.most (get_count_waiting_elements ring (view p).tail);
  }

  cull_step-lagging :
      (ring : Ring) (t : ℕ) (view : Ptr → Session) (p : Ptr) (c : Culling lws)
      → Sees view c
      → ((view p).tail == t) ≡ true
      → cull_step lws ring t p c ≡ after_lagging view p c
  unfolding cull_step after_lagging
  cull_step-lagging ring t view p c same lags =
      let here : ((c.sessions p).tail == t) ≡ true = rw (same p).0 lags in
      rw here (
        ap
          (λ (w : ℕ). record c {
            sessions = update c.sessions p (record (c.sessions p) { culled = true });
            old_pss = some p;
            log = c.log ++ kill w ∷ [];
          })
          (same p).1)

  larger : (a b : ℕ) → (if ltb a b then b else a) ≡ max a b
  larger a b = ground arith

  cull_step-keeping :
      (ring : Ring) (t : ℕ) (view : Ptr → Session) (p : Ptr) (c : Culling lws)
      → Sees view c
      → ((view p).tail == t) ≡ false
      → cull_step lws ring t p c ≡ after_keeping ring view p c
  unfolding cull_step after_keeping
  cull_step-keeping ring t view p c same keeps =
      rw ((same p).0, keeps)
        (ap (λ (n : ℕ). record c { kept = c.kept ++ p ∷ []; most = n })
          (larger c.most (get_count_waiting_elements ring (view p).tail)))

  Sees-lagging :
      (view : Ptr → Session) (p : Ptr) (c : Culling lws)
      → Sees view c
      → Sees view (after_lagging view p c)
  unfolding after_lagging
  Sees-lagging view p c same q = ground (arith, same p, same q)

  mark_again :
      (f : Ptr → Session) (p q : Ptr) (ps : List Ptr)
      → mark (update f p (record (f p) { culled = true })) ps q ≡ mark f (p ∷ ps) q
  mark_again f p q ps = ground arith

  Sees-keeping :
      (ring : Ring) (view : Ptr → Session) (p : Ptr) (c : Culling lws)
      → Sees view c
      → Sees view (after_keeping ring view p c)
  unfolding after_keeping
  Sees-keeping ring view p c same q = same q

  module _ {ring : Ring} {t : ℕ} {view : Ptr → Session} {p : Ptr} {ps : List Ptr}
      (c c' : Culling lws) where
    lagging :
        ((view p).tail == t) ≡ true
        → Culls ring t view ps (after_lagging view p c) c'
        → Culls ring t view (p ∷ ps) c c'
    unfolding after_lagging
    lagging lags r = record {
      kept = rw lags r.kept;
      log =
          rw lags
            (r.log ∙ append_assoc c.log (kill (view p).wsi ∷ []) (kills view (laggards view t ps)));
      most = rw lags r.most;
      old_pss = rw lags r.old_pss;
      sessions = λ q. rw lags (r.sessions q ∙ mark_again c.sessions p q (laggards view t ps));
    }

    keeping :
        ((view p).tail == t) ≡ false
        → Culls ring t view ps (after_keeping ring view p c) c'
        → Culls ring t view (p ∷ ps) c c'
    unfolding after_keeping
    keeping keeps r = record {
      kept = rw keeps (r.kept ∙ append_assoc c.kept (p ∷ []) (survivors view t ps));
      log = rw keeps r.log;
      most = rw keeps r.most;
      old_pss = rw keeps r.old_pss;
      sessions = λ q. rw keeps (r.sessions q);
    }

  pub cull_loop_lem :
      (ring : Ring) (t : ℕ) (view : Ptr → Session) (ps : List Ptr) (c : Culling lws)
      → Sees view c
      → Culls ring t view ps c (cull_loop lws ring t ps c)
  unfolding cull_loop
  cull_loop_lem ring t view [] c same = record {
    kept = sym (append-nil c.kept);
    log = sym (append-nil c.log);
    most = refl;
    old_pss = refl;
    sessions = λ q. refl;
  }
  cull_loop_lem ring t view (p ∷ ps) c same = elim (Bool-cases ((view p).tail == t)) [
    | inl lags ↦
        let c₁ = after_lagging view p c in
        let rest = cull_loop_lem ring t view ps c₁ (Sees-lagging view p c same) in
        rw (cull_step-lagging ring t view p c same lags)
          (lagging c (cull_loop lws ring t ps c₁) lags rest)
    | inr keeps ↦
        let c₁ = after_keeping ring view p c in
        let rest = cull_loop_lem ring t view ps c₁ (Sees-keeping ring view p c same) in
        rw (cull_step-keeping ring t view p c same keeps)
          (keeping c (cull_loop lws ring t ps c₁) keeps rest)
  ]
