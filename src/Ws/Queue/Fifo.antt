-- ===== src/Ws/Queue/Fifo.antt =====
-- `enq`, `deq` and `queueDestroy` against the cells that a queue stands for.
use robot_arm.Base.{
  ℕ, zero, suc, ◌+◌, ◌-◌, ◌<◌, ◌≡◌, refl, sym, ap, ◌∙◌, ◌≢◌, true, false, ◌||◌, none, some, [], ◌∷◌,
  ◌++◌, arith, ◌==◌, if◌then◌else◌, length, length-append, ==_false_of_ne,
}
use robot_arm.Ws.Run.{done, assert_failed}
use robot_arm.Ws.Queue.{Ptr, null, Heap, Mem, write, queue_empty, enq, deq, queue_destroy}
use robot_arm.Ws.Queue.Chain.{
  Cells, has, first, last, Chain, IsQueue, Chain-frame, has-last, not-mem_of_none, ne_of_has,
  last_default, write_same, write_other,
}

module _ {A : Type 0} where
  abbrev last_msg : A → Cells A → A
  last_msg v [] = v
  last_msg _ ((_, v) ∷ xs) = last_msg v xs

  last-holds :
      (h : Heap A) (p : Ptr) (v : A) (xs : Cells A)
      → Chain h ((p, v) ∷ xs)
      → h (last p xs) ≡ some (record { next = null; msg = last_msg v xs })
  last-holds h p v [] (ne, new, e, c) = e
  last-holds h p v ((q, w) ∷ xs) (ne, new, e, c) = last-holds h q w xs c

  last-ne_null :
      (h : Heap A) (p : Ptr) (v : A) (xs : Cells A) → Chain h ((p, v) ∷ xs) → last p xs ≢ null
  last-ne_null h p v [] (ne, new, e, c) = ne
  last-ne_null h p v ((q, w) ∷ xs) (ne, new, e, c) = last-ne_null h q w xs c

  has-snoc :
      (a e : Ptr) (msg : A) (xs : Cells A) → has a (xs ++ (e, msg) ∷ []) ≡ (has a xs || (a == e))
  has-snoc a e msg [] = ground arith
  has-snoc a e msg ((p, v) ∷ xs) = ground (arith, has-snoc a e msg xs)

  last-snoc : (p e : Ptr) (msg : A) (xs : Cells A) → last p (xs ++ (e, msg) ∷ []) ≡ e
  last-snoc p e msg [] = refl
  last-snoc p e msg ((q, w) ∷ xs) = last-snoc q e msg xs

  -- `g` differs from `h` at the last element, which now points to `e`, and holds `e`.
  Chain-snoc :
      (h g : Heap A) (p : Ptr) (v : A) (xs : Cells A) (e : Ptr) (msg : A)
      → Chain h ((p, v) ∷ xs)
      → has e ((p, v) ∷ xs) ≡ false
      → e ≢ null
      → g e ≡ some (record { next = null; msg = msg })
      → g (last p xs) ≡ some (record { next = e; msg = last_msg v xs })
      → ((a : Ptr) → has a ((p, v) ∷ xs) ≡ true → a ≢ last p xs → g a ≡ h a)
      → Chain g (((p, v) ∷ xs) ++ (e, msg) ∷ [])
  Chain-snoc h g p v [] e msg (ne, new, held, c) out nn ge gl same =
      (ne, ground arith, gl, (nn, refl, ge, tt))
  Chain-snoc h g p v ((q, w) ∷ xs) e msg (ne, new, held, c) out nn ge gl same =
      let far : p ≢ last q xs = ground (arith, has-last q w xs) in
      (
        ne,
        ground (arith, has-snoc p e msg ((q, w) ∷ xs)),
        ground (arith, same p),
        Chain-snoc h g q w xs e msg c (ground arith) nn ge gl (λ a i d. same a (ground arith) d),
      )

  pub enq_lem :
      (m : Mem A) (xs : Cells A) (e : Ptr) (msg : A)
      → IsQueue m xs
      → e ≢ null
      → m.heap e ≡ none
      → (m' : Mem A) × (enq m e msg ≡ done m') × IsQueue m' (xs ++ (e, msg) ∷ [])
  unfolding enq
  enq_lem m [] e msg is nn unused = (
    record {
      heap = write m.heap e (some (record { next = null; msg = msg }));
      queue = record { head = e; tail = e; length = m.queue.length + 1 };
    },
    rw (==_false_of_ne e null nn, is.head) refl,
    record {
      chain = (nn, refl, (unfold write in ground arith), tt);
      head = refl;
      tail = λ _. refl;
      count = omega (arith, is.count);
    },
  )
  enq_lem m ((p, v) ∷ xs) e msg is nn unused =
      let out = not-mem_of_none m.heap e ((p, v) ∷ xs) is.chain unused in
      let t : Ptr = last p xs in
      let far : t ≢ e = ground (arith, has-last p v xs) in
      let h : Heap A = write m.heap e (some (record { next = null; msg = msg })) in
      let at_last : m.queue.tail ≡ t = is.tail (λ c. cc) in
      (
        record {
          heap = write h m.queue.tail (some (record { next = e; msg = last_msg v xs }));
          queue = record m.queue { tail = e; length = m.queue.length + 1 };
        },
        ground (
          arith,
          is.tail (λ c. cc),
          last-holds m.heap p v xs is.chain,
          last-ne_null m.heap p v xs is.chain,
          far,
        ),
        record {
          chain =
              Chain-snoc m.heap _ p v xs e msg is.chain out nn
                (write_other h m.queue.tail e _ (λ c. far (sym at_last ∙ sym c))
                  ∙ write_same m.heap e _)
                (rw at_last (write_same h t _))
                (λ a i d.
                  write_other h m.queue.tail a _ (λ c. d (c ∙ at_last))
                  ∙ write_other m.heap e a _ (ne_of_has a e ((p, v) ∷ xs) i out));
          head = is.head;
          tail = λ _. sym (last-snoc p e msg xs);
          count = omega (arith, is.count, length-append {0} xs ((e, msg) ∷ []));
        },
      )

  -- `enq` on exhausted memory stops the program.
  pub enq-null : (m : Mem A) (msg : A) → enq m null msg ≡ assert_failed
  unfolding enq
  enq-null m msg = refl

  pub deq_lem :
      (m : Mem A) (p : Ptr) (v : A) (xs : Cells A)
      → IsQueue m ((p, v) ∷ xs)
      → (m' : Mem A) × (deq m ≡ done (v, m')) × IsQueue m' xs × (m'.heap ≡ write m.heap p none)
  unfolding deq
  deq_lem m p v xs is = (
    record {
      heap = write m.heap m.queue.head none;
      queue = record m.queue { head = first xs; length = m.queue.length - 1 };
    },
    ground arith,
    record {
      chain = Chain-frame m.heap _ xs is.chain.3 (λ a i.
          write_other m.heap m.queue.head a none
            (λ c. ne_of_has a p xs i is.chain.1 (c ∙ is.head)));
      head = refl;
      tail = λ ne. is.tail (λ c. cc) ∙ last_default p null xs ne;
      count = omega (arith, is.count);
    },
    ap (λ q. write m.heap q none) is.head,
  )

  pub deq-empty : (m : Mem A) → IsQueue m [] → deq m ≡ assert_failed
  unfolding deq
  deq-empty m is = rw is.head

  pub queue_empty-cons :
      (m : Mem A) (p : Ptr) (v : A) (xs : Cells A)
      → IsQueue m ((p, v) ∷ xs)
      → queue_empty m.queue ≡ false
  unfolding queue_empty
  queue_empty-cons m p v xs is = ground (arith, is.head, is.chain.0)

  pub queue_empty-nil : (m : Mem A) → IsQueue m [] → queue_empty m.queue ≡ true
  unfolding queue_empty
  queue_empty-nil m is = ground (arith, is.head)

  -- On a well-formed queue with fewer elements than rounds, `queueDestroy` ends with an empty
  -- queue: it frees every element of the queue and no other address.
  pub queue_destroy_lem :
      (k : ℕ) (m : Mem A) (xs : Cells A)
      → IsQueue m xs
      → length xs < k
      → (m' : Mem A) × (queue_destroy k m ≡ done m')
        × IsQueue m' []
        × ((a : Ptr) → m'.heap a ≡ (if has a xs then none else m.heap a))
  unfolding queue_destroy
  queue_destroy_lem zero m xs is h = absurd (omega arith)
  queue_destroy_lem (suc k) m [] is h = (m, rw (queue_empty-nil m is), is, λ a. refl)
  queue_destroy_lem (suc k) m ((p, v) ∷ xs) is h =
      let (m₁, e₁, is₁, freed₁) = deq_lem m p v xs is in
      let (m₂, e₂, is₂, freed₂) = queue_destroy_lem k m₁ xs is₁ (omega arith) in
      (m₂, rw (queue_empty-cons m p v xs is, e₁) e₂, is₂, λ a. freed₂ a ∙ destroyed a m₁ freed₁)
    where
      destroyed :
          (a : Ptr) (m₁ : Mem A)
          → m₁.heap ≡ write m.heap p none
          → (if has a xs then none else m₁.heap a)
            ≡ (if has a ((p, v) ∷ xs) then none else m.heap a)
      destroyed a m₁ e = rw (ap (λ (h : Heap A). h a) e) (unfold write in ground arith)
