-- ===== src/Ws/MessageQueue/Refinement.antt =====
-- Sequences of `enq_msg` and `pop_new_messages` calls, in the order in which the mutex lets them run,
-- against the messages sent.
use robot_arm.Base.{
  ℕ, zero, suc, ◌≡◌, refl, ◌≢◌, ◌⊎◌, ◌∙◌, sym, ap, inl, inr, none, List, [], ◌∷◌, ◌++◌, min, arith,
  ◌==◌, Bool-cases, eq_of_==_true, ne_of_==_false, length, take, drop, length-take, length-append,
  length-drop, take-append, take-append-drop,
}
use mathlib.Core.List.{append_assoc, append-nil}
use robot_arm.Ws.Run.{Run, done, assert_failed, ◌>>=◌}
use robot_arm.Ws.Queue.{Ptr, null, Heap, Mem}
use robot_arm.Ws.Queue.Chain.{Cells, IsQueue}
use robot_arm.Ws.Queue.Fifo.{enq_lem, enq-null}
use robot_arm.Ws.MessageQueue.{MessageList, max_msg_buffer_size, enq_msg, pop_new_messages}
use robot_arm.Ws.MessageQueue.Pop.{messages, length-messages, Popped, pop_new_messages_lem}

pub data Call (A : Type 0) : Type 0 where
  send : A → Call A
  receive : Call A

module _ {A : Type 0} where
  pub sent : List (Call A) → List A
  sent [] = []
  sent (send v ∷ cs) = v ∷ sent cs
  sent (receive ∷ cs) = sent cs

  -- What a caller reads: the valid part of the buffer, up to the reported length.
  abbrev pub received : MessageList A → List A
  received r = take (min r.length max_msg_buffer_size) r.buffer

  -- The calls in order, with what they delivered so far in `out`.
  pub run : (Heap A → Ptr) → List (Call A) → List A → List A → Mem A → Run (List A × Mem A)
  run malloc [] out buffer m = done (out, m)
  run malloc (send v ∷ cs) out buffer m = do
    m' ← enq_msg m (malloc m.heap) v
    run malloc cs out buffer m'
  run malloc (receive ∷ cs) out buffer m = do
    (r, m') ← pop_new_messages buffer m
    run malloc cs (out ++ received r) r.buffer m'

  -- A call of `enq_msg` for which `malloc`, on the heap that the calls before it have left, fails.
  pub record Fails (malloc : Heap A → Ptr) (cs : List (Call A)) (out buffer : List A) (m : Mem A)
      : Type 0 where
    pub before : List (Call A)
    pub message : A
    pub behind : List (Call A)
    pub delivered : List A
    pub reached : Mem A
    pub split : cs ≡ before ++ send message ∷ behind
    pub runs : run malloc before out buffer m ≡ done (delivered, reached)
    pub fails : malloc reached.heap ≡ null

  -- The calls end, and what was delivered, followed by what is still queued, is `total`; or the
  -- program stops at a call whose `malloc` fails.
  abbrev pub Delivers : (Heap A → Ptr) → List (Call A) → List A → List A → Mem A → List A → Type 0
  Delivers malloc cs out buffer m total =
      ((o : List A) × (m' : Mem A) × (xs : Cells A) × (run malloc cs out buffer m ≡ done (o, m'))
        × IsQueue m' xs
        × (o ++ messages xs ≡ total))
      ⊎ ((run malloc cs out buffer m ≡ assert_failed) × Fails malloc cs out buffer m)

  messages-snoc :
      (xs : Cells A) (p : Ptr) (v : A) → messages (xs ++ (p, v) ∷ []) ≡ messages xs ++ v ∷ []
  messages-snoc [] p v = refl
  messages-snoc ((q, w) ∷ xs) p v = ap (◌∷◌ w) (messages-snoc xs p v)

  messages-drop : (n : ℕ) (xs : Cells A) → messages (drop n xs) ≡ drop n (messages xs)
  messages-drop zero xs = refl
  messages-drop (suc n) [] = refl
  messages-drop (suc n) ((p, v) ∷ xs) = messages-drop n xs

  received_lem :
      (buffer : List A) (xs : Cells A) (r : MessageList A) (m' : Mem A)
      → Popped buffer xs r m'
      → received r ++ messages (drop max_msg_buffer_size xs) ≡ messages xs
  received_lem buffer xs r m' p =
      let n : length (take max_msg_buffer_size (messages xs))
          ≡ min (length xs) max_msg_buffer_size =
        omega (arith, length-take max_msg_buffer_size (messages xs), length-messages xs) in
      let got : received r ≡ take max_msg_buffer_size (messages xs) =
        rw (p.contents, p.reported, ← n) (take-append (take max_msg_buffer_size (messages xs)) _) in
      ap (λ (vs : List A). vs ++ messages (drop max_msg_buffer_size xs)) got
      ∙ ap (◌++◌ (take max_msg_buffer_size (messages xs))) (messages-drop max_msg_buffer_size xs)
      ∙ take-append-drop max_msg_buffer_size (messages xs)

  pub length-buffer :
      (buffer : List A) (xs : Cells A) (r : MessageList A) (m' : Mem A)
      → length buffer ≡ max_msg_buffer_size
      → Popped buffer xs r m'
      → length r.buffer ≡ max_msg_buffer_size
  length-buffer buffer xs r m' full p =
      let k = min (length xs) max_msg_buffer_size in
      rw p.contents (
        omega (
          arith,
          full,
          length-append {0} (take max_msg_buffer_size (messages xs)) (drop k buffer),
          length-take max_msg_buffer_size (messages xs),
          length-drop k buffer,
          length-messages xs,
        ))

  enq_msg-null : (m : Mem A) (p : Ptr) (v : A) → p ≡ null → enq_msg m p v ≡ assert_failed
  unfolding enq_msg
  enq_msg-null m p v e = rw e (enq-null m v)

  pub enq_msg_lem :
      (m : Mem A) (xs : Cells A) (e : Ptr) (v : A)
      → IsQueue m xs
      → e ≢ null
      → m.heap e ≡ none
      → (m' : Mem A) × (enq_msg m e v ≡ done m') × IsQueue m' (xs ++ (e, v) ∷ [])
  unfolding enq_msg
  enq_msg_lem m xs e v = enq_lem m xs e v

  regroup_sent :
      (out : List A) (xs : Cells A) (p : Ptr) (v : A) (rest : List A)
      → out ++ (messages (xs ++ (p, v) ∷ []) ++ rest) ≡ out ++ (messages xs ++ v ∷ rest)
  regroup_sent out xs p v rest = ap (◌++◌ out) (
      ap (λ (vs : List A). vs ++ rest) (messages-snoc xs p v)
      ∙ append_assoc (messages xs) (v ∷ []) rest)

  regroup_received :
      (out got left rest all : List A)
      → got ++ left ≡ all
      → (out ++ got) ++ (left ++ rest) ≡ out ++ (all ++ rest)
  regroup_received out got left rest all e =
      append_assoc out got (left ++ rest)
      ∙ ap (◌++◌ out) (sym (append_assoc got left rest) ∙ ap (λ (vs : List A). vs ++ rest) e)

  -- A failure behind one more call.
  later :
      {malloc : Heap A → Ptr} {cs : List (Call A)} {out out' buffer buffer' : List A} {m m' : Mem A}
      (c : Call A)
      → (w : Fails malloc cs out buffer m)
      → run malloc (c ∷ w.before) out' buffer' m' ≡ done (w.delivered, w.reached)
      → Fails malloc (c ∷ cs) out' buffer' m'
  later c w runs = record {
    before = c ∷ w.before;
    message = w.message;
    behind = w.behind;
    delivered = w.delivered;
    reached = w.reached;
    split = ap (◌∷◌ c) w.split;
    runs = runs;
    fails = w.fails;
  }

  module _ (malloc : Heap A → Ptr)
      (fresh : (h : Heap A) → malloc h ≢ null → h (malloc h) ≡ none) where
    -- From a well-formed queue and a full-size buffer, where `malloc` returns null or an address
    -- not in use: any sequence of `enq_msg` and `pop_new_messages` calls ends with the messages
    -- delivered, followed by those still queued, equal to those queued at first followed by those
    -- sent, in order; or it stops at a call of `enq_msg` up to which it runs and for which `malloc`
    -- returns null on the heap as it is then. No pointer is bad.
    pub run-Delivers :
        (cs : List (Call A)) (out buffer : List A) (m : Mem A) (xs : Cells A)
        → IsQueue m xs
        → length buffer ≡ max_msg_buffer_size
        → Delivers malloc cs out buffer m (out ++ (messages xs ++ sent cs))
    unfolding run sent
    run-Delivers [] out buffer m xs is full = inl (out, m, xs, refl, is, rw append-nil)
    run-Delivers (send v ∷ cs) out buffer m xs is full = elim (Bool-cases (malloc m.heap == null)) [
      | inl failed ↦
          let is_null = eq_of_==_true (malloc m.heap) null failed in
          inr (
            rw (enq_msg-null m (malloc m.heap) v is_null) refl,
            record {
              before = [];
              message = v;
              behind = cs;
              delivered = out;
              reached = m;
              split = refl;
              runs = refl;
              fails = is_null;
            },
          )
      | inr got ↦
          let ok = ne_of_==_false (malloc m.heap) null got in
          let (m', e, is') = enq_msg_lem m xs (malloc m.heap) v is ok (fresh m.heap ok) in
          elim (run-Delivers cs out buffer m' _ is' full) [
            | inl (o, m'', ys, f, end, all) ↦
                inl (o, m'', ys, rw e f, end, all ∙ regroup_sent out xs (malloc m.heap) v (sent cs))
            | inr (f, w) ↦ inr (rw e f, later (send v) w (rw e w.runs))
          ]
    ]
    run-Delivers (receive ∷ cs) out buffer m xs is full =
        let (r, m', e, p) = pop_new_messages_lem buffer m xs is full in
        let full' = length-buffer buffer xs r m' full p in
        elim (run-Delivers cs (out ++ received r) r.buffer m' _ p.left full') [
          | inl (o, m'', ys, f, end, all) ↦ inl (
            o,
            m'',
            ys,
            rw e f,
            end,
            all
                ∙ regroup_received out (received r) _ (sent cs) (messages xs)
                    (received_lem buffer xs r m' p),
          )
          | inr (f, w) ↦ inr (rw e f, later receive w (rw e w.runs))
        ]
