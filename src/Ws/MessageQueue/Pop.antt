-- ===== src/Ws/MessageQueue/Pop.antt =====
-- What `pop_new_messages` returns.
use robot_arm.Base.{
  ℕ, zero, suc, ◌<◌, ◌≤◌, ◌≡◌, refl, ap, ◌∙◌, List, [], ◌∷◌, ◌++◌, min, arith, length, set, take,
  drop, length-append, length-take, take-length, take-min, drop-min, drop-length, take-append,
  if◌then◌else◌, ltb,
}
use mathlib.Core.List.{append_assoc, append-nil}
use mathlib.Core.Path.{subst}
use robot_arm.Ws.Run.{done}
use robot_arm.Ws.Queue.{Mem}
use robot_arm.Ws.Queue.Chain.{Cells, IsQueue}
use robot_arm.Ws.Queue.Fifo.{deq_lem}
use robot_arm.Ws.MessageQueue.{MessageList, max_msg_buffer_size, copy_messages, pop_new_messages}

cap-min : (a b : ℕ) → (if ltb a b then a else b) ≡ min a b
cap-min a b = ground arith

module _ {A : Type 0} where
  abbrev pub messages : Cells A → List A
  messages [] = []
  messages ((_, v) ∷ xs) = v ∷ messages xs

  pub length-messages : (xs : Cells A) → length (messages xs) ≡ length xs
  length-messages [] = refl
  length-messages ((p, v) ∷ xs) = ap suc (length-messages xs)

  set-middle :
      (pre : List A) (x v : A) (rest : List A)
      → set (pre ++ x ∷ rest) (length pre) v ≡ (pre ++ v ∷ []) ++ rest
  set-middle [] x v rest = refl
  set-middle (y ∷ pre) x v rest = ap (◌∷◌ y) (set-middle pre x v rest)

  copy_messages_lem :
      (k : ℕ) (pre rest : List A) (m : Mem A) (xs : Cells A)
      → IsQueue m xs
      → k ≤ length xs
      → k ≤ length rest
      → (m' : Mem A) × (copy_messages k (length pre) (pre ++ rest) m
          ≡ done (pre ++ (take k (messages xs) ++ drop k rest), m'))
        × IsQueue m' (drop k xs)
  unfolding copy_messages
  copy_messages_lem zero pre rest m xs is h g = (m, refl, is)
  copy_messages_lem (suc k) pre rest m [] is h g = absurd (omega arith)
  copy_messages_lem (suc k) pre [] m xs is h g = absurd (omega arith)
  copy_messages_lem (suc k) pre (r ∷ rest) m ((p, v) ∷ xs) is h g =
      let (m₁, e₁, is₁, _) = deq_lem m p v xs is in
      let (m₂, e₂, is₂) =
        copy_messages_lem k (pre ++ v ∷ []) rest m₁ xs is₁ (omega arith) (omega arith) in
      let n : length (pre ++ v ∷ []) ≡ suc (length pre) =
        omega (arith, length-append {0} pre (v ∷ [])) in
      (
        m₂,
        rw (e₁, set-middle pre r v rest, ← n)
            (e₂
              ∙ ap (λ (b : List A). done (b, m₂))
                  (append_assoc pre (v ∷ []) (take k (messages xs) ++ drop k rest))),
        is₂,
      )

  -- What the caller gets, and what stays queued.
  pub record Popped (buffer : List A) (xs : Cells A) (r : MessageList A) (m' : Mem A) : Type 0 where
    pub reported : r.length ≡ length xs
    pub contents :
        r.buffer
        ≡ take max_msg_buffer_size (messages xs)
          ++ drop (min (length xs) max_msg_buffer_size) buffer
    pub left : IsQueue m' (drop max_msg_buffer_size xs)

  pub pop_new_messages_lem :
      (buffer : List A) (m : Mem A) (xs : Cells A)
      → IsQueue m xs
      → length buffer ≡ max_msg_buffer_size
      → (r : MessageList A) × (m' : Mem A) × (pop_new_messages buffer m ≡ done (r, m'))
        × Popped buffer xs r m'
  unfolding pop_new_messages
  pop_new_messages_lem buffer m xs is full =
      let n = min (length xs) max_msg_buffer_size in
      let (m', e, is') =
        copy_messages_lem n [] buffer m xs is (omega arith) (omega (arith, full)) in
      let rounds =
        cap-min m.queue.length max_msg_buffer_size
        ∙ ap (λ (a : ℕ). min a max_msg_buffer_size) is.count in
      (
        record { buffer = take n (messages xs) ++ drop n buffer; length = m.queue.length },
        m',
        rw (rounds, e),
        record {
          reported = is.count;
          contents =
              ap (λ (vs : List A). vs ++ drop n buffer)
                (rw (← length-messages xs) (take-min max_msg_buffer_size (messages xs)));
          left = subst (IsQueue m') (drop-min max_msg_buffer_size xs) is';
        },
      )

  Popped-all :
      (buffer : List A) (xs : Cells A) (r : MessageList A) (m' : Mem A)
      → Popped buffer xs r m'
      → length xs ≤ max_msg_buffer_size
      → (take r.length r.buffer ≡ messages xs) × IsQueue m' []
  Popped-all buffer xs r m' p h =
      let short : length (messages xs) ≤ max_msg_buffer_size = omega (arith, length-messages xs) in
      (
        rw
            (
              p.contents,
              p.reported,
              take-length max_msg_buffer_size (messages xs) short,
              ← length-messages xs,
            )
            (take-append (messages xs) _),
        rw (← drop-length max_msg_buffer_size xs h) p.left,
      )

  Popped-overrun :
      (buffer : List A) (xs : Cells A) (r : MessageList A) (m' : Mem A)
      → length buffer ≡ max_msg_buffer_size
      → Popped buffer xs r m'
      → max_msg_buffer_size < length xs
      → (length r.buffer < r.length)
        × (r.buffer ≡ take max_msg_buffer_size (messages xs))
        × IsQueue m' (drop max_msg_buffer_size xs)
  Popped-overrun buffer xs r m' full p h =
      let none_left =
        drop-length (min (length xs) max_msg_buffer_size) buffer (omega (arith, full)) in
      let contents : r.buffer ≡ take max_msg_buffer_size (messages xs) =
        p.contents
        ∙ ap (λ (b : List A). take max_msg_buffer_size (messages xs) ++ b) none_left
        ∙ append-nil _ in
      (
        rw contents (omega (arith, p.reported, length-take max_msg_buffer_size (messages xs))),
        contents,
        p.left,
      )

  -- On a well-formed queue, with a buffer of 512 messages, the call succeeds. With at most 512
  -- messages queued, the buffer up to the reported length holds them all, in order, and the queue
  -- is empty; with more, the reported length is beyond the end of the buffer, which holds the
  -- first 512, and the others stay queued.
  pub pop_new_messages-report :
      (buffer : List A) (m : Mem A) (xs : Cells A)
      → IsQueue m xs
      → length buffer ≡ max_msg_buffer_size
      → (r : MessageList A) × (m' : Mem A) × (pop_new_messages buffer m ≡ done (r, m'))
        × (length xs ≤ max_msg_buffer_size → (take r.length r.buffer ≡ messages xs) × IsQueue m' [])
        × (max_msg_buffer_size < length xs
            → (length r.buffer < r.length)
              × (r.buffer ≡ take max_msg_buffer_size (messages xs))
              × IsQueue m' (drop max_msg_buffer_size xs))
  pop_new_messages-report buffer m xs is full =
      let (r, m', e, p) = pop_new_messages_lem buffer m xs is full in
      (r, m', e, Popped-all buffer xs r m' p, Popped-overrun buffer xs r m' full p)
