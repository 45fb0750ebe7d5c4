-- ===== src/Control/Round.antt =====
-- What a round of the control loop does with the queue.
use robot_arm.Base.{
  ℕ, zero, suc, ◌<◌, ◌≤◌, ◌≡◌, refl, sym, ap, ◌∙◌, true, false, some, List, [], ◌∷◌, ◌++◌, pos,
  negsuc, arith, ltb, eqb_ℤ, if◌then◌else◌, length, get_elem?, drop, take-length, drop-length, min,
}
use mathlib.Core.Path.{subst}
use robot_arm.Ws.Run.{done, bad_pointer, ◌>>=◌}
use robot_arm.Ws.Queue.{Ptr, Mem}
use robot_arm.Ws.Queue.Chain.{Cells, IsQueue}
use robot_arm.Ws.Connections.{Connections, get_connections}
use robot_arm.Ws.Message.{Message}
use robot_arm.Ws.MessageQueue.{MessageList, max_msg_buffer_size, pop_new_messages}
use robot_arm.Ws.MessageQueue.Pop.{messages, length-messages, Popped, pop_new_messages_lem}
use robot_arm.Ws.MessageQueue.Refinement.{length-buffer}
use robot_arm.Ws.Callback.{disconnect_message}
use robot_arm.Floats.{Floats}
use robot_arm.Gpio.Smooth.{SmoothServo}
use robot_arm.Control.{aim_at, dispatch, Control, control_round}
use robot_arm.Control.Indices.{Names, map_option}
use robot_arm.Control.Dispatch.{AllName, aimed, dispatch_lem, dispatch-stray, dispatch-overrun}

module _ (fl : Floats) where
  -- What a round has done: the queue is empty, and each servo is aimed by the messages for it, in
  -- order, so that the last one counts.
  pub record Rounded (ms : List Message) (c c' : Control fl) : Type 0 where
    pub queue : IsQueue c'.mem []
    pub buffer : length c'.buffer ≡ max_msg_buffer_size
    pub number : length c'.servos ≡ length c.servos
    pub servos : (k : ℕ) → get_elem? c'.servos k ≡ map_option (aimed fl ms k) (get_elem? c.servos k)

  -- The test for an empty batch changes nothing: the loop then has no rounds.
  guarded :
      (n : ℕ) (buffer : List Message) (servos : List (SmoothServo fl))
      → (if ltb 0 n then dispatch fl n 0 buffer servos else done servos)
        ≡ dispatch fl n 0 buffer servos
  unfolding dispatch
  guarded zero buffer servos = refl
  guarded (suc n) buffer servos = rw (positive n) refl
    where
      positive : (n : ℕ) → ltb 0 (suc n) ≡ true
      positive n = ground arith

  -- A round behind its call of `pop_new_messages`.
  round-pop :
      (connections : Connections) (c : Control fl) (r : MessageList Message) (m' : Mem Message)
      → eqb_ℤ (get_connections connections) (pos 0) ≡ false
      → pop_new_messages c.buffer c.mem ≡ done (r, m')
      → control_round fl connections c ≡ (do
        servos ← dispatch fl r.length 0 r.buffer c.servos
        done (record { buffer = r.buffer; mem = m'; servos = servos }))
  unfolding control_round
  round-pop connections c r m' some_client e =
      rw (some_client, e, guarded r.length r.buffer c.servos) refl

  -- Few messages: they all stand at the front of the buffer.
  front :
      (buffer : List Message) (xs : Cells Message) (r : MessageList Message) (m' : Mem Message)
      → Popped buffer xs r m'
      → length xs ≤ max_msg_buffer_size
      → (rest : List Message) × (r.buffer ≡ messages xs ++ rest)
        × (r.length ≡ length (messages xs))
        × IsQueue m' []
  front buffer xs r m' p few =
      let rest = drop (min (length xs) max_msg_buffer_size) buffer in
      (
        rest,
        p.contents
            ∙ ap (λ (ms : List Message). ms ++ rest)
                (take-length max_msg_buffer_size (messages xs) (omega (arith, length-messages xs))),
        p.reported ∙ sym (length-messages xs),
        subst (IsQueue m') (drop-length max_msg_buffer_size xs few) p.left,
      )

  -- While clients are connected, a round on a well-formed queue of at most 512 messages, each with
  -- the index of a servo, ends without a fault: it empties the queue, and each servo's target is set
  -- by the messages for it, in order, so that the last one counts.
  pub control_round_lem :
      (connections : Connections) (c : Control fl) (xs : Cells Message)
      → eqb_ℤ (get_connections connections) (pos 0) ≡ false
      → IsQueue c.mem xs
      → length c.buffer ≡ max_msg_buffer_size
      → length xs ≤ max_msg_buffer_size
      → AllName (length c.servos) (messages xs)
      → (c' : Control fl) × (control_round fl connections c ≡ done c') × Rounded (messages xs) c c'
  control_round_lem connections c xs some_client is full few names =
      let (r, m', e, p) = pop_new_messages_lem c.buffer c.mem xs is full in
      let (rest, contents, count, empty) = front c.buffer xs r m' p few in
      let (servos, e', n, each) = dispatch_lem fl (messages xs) [] rest c.servos names in
      (
        record { buffer = r.buffer; mem = m'; servos = servos },
        round-pop connections c r m' some_client e ∙ rw (count, contents, e') refl,
        record {
          queue = empty;
          buffer = length-buffer c.buffer xs r m' full p;
          number = n;
          servos = each;
        },
      )

  -- While clients are connected and at most 512 messages are queued, a queued message whose user
  -- id is the index of no servo makes the round use a servo that is not there.
  pub control_round-stray :
      (connections : Connections) (c : Control fl) (xs : Cells Message) (before : List Message)
      (m : Message) (behind : List Message)
      → eqb_ℤ (get_connections connections) (pos 0) ≡ false
      → IsQueue c.mem xs
      → length c.buffer ≡ max_msg_buffer_size
      → length xs ≤ max_msg_buffer_size
      → messages xs ≡ before ++ m ∷ behind
      → (Names (length c.servos) m.user_id → ⊥)
      → control_round fl connections c ≡ bad_pointer
  control_round-stray connections c xs before m behind some_client is full few split stray =
      let (r, m', e, p) = pop_new_messages_lem c.buffer c.mem xs is full in
      let (rest, contents, count, empty) = front c.buffer xs r m' p few in
      round-pop connections c r m' some_client e
      ∙ rw (count, contents, split, dispatch-stray fl before m behind [] rest c.servos stray) refl

  -- While clients are connected, a round on more than 512 queued messages reads behind its buffer, or
  -- has used a servo that is not there before it comes to that.
  pub control_round-overrun :
      (connections : Connections) (c : Control fl) (xs : Cells Message)
      → eqb_ℤ (get_connections connections) (pos 0) ≡ false
      → IsQueue c.mem xs
      → length c.buffer ≡ max_msg_buffer_size
      → max_msg_buffer_size < length xs
      → control_round fl connections c ≡ bad_pointer
  control_round-overrun connections c xs some_client is full many =
      let (r, m', e, p) = pop_new_messages_lem c.buffer c.mem xs is full in
      let n = length-buffer c.buffer xs r m' full p in
      round-pop connections c r m' some_client e
      ∙ rw (dispatch-overrun fl r.length r.buffer [] c.servos (omega (arith, n, p.reported))) refl

  not_empty :
      (servos : List (SmoothServo fl)) (s : SmoothServo fl)
      → get_elem? servos 0 ≡ some s
      → 0 < length servos
  not_empty [] s e = absurd cc
  not_empty (t ∷ servos) s e = omega arith

  -- While another client is connected, a client that has left behind it one disconnect message sets
  -- the target of the servo 0, to the angle for the width -1.
  pub control_round-departed :
      (connections : Connections) (c : Control fl) (p : Ptr) (s : SmoothServo fl)
      → eqb_ℤ (get_connections connections) (pos 0) ≡ false
      → IsQueue c.mem ((p, disconnect_message) ∷ [])
      → length c.buffer ≡ max_msg_buffer_size
      → get_elem? c.servos 0 ≡ some s
      → (c' : Control fl) × (control_round fl connections c ≡ done c')
        × (get_elem? c'.servos 0 ≡ some (aim_at fl (negsuc 0) s))
  unfolding aimed
  control_round-departed connections c p s some_client is full first_servo =
      let (c', e, rounded) =
        control_round_lem connections c ((p, disconnect_message) ∷ []) some_client is full
          (omega arith) (not_empty c.servos s first_servo, tt) in
      (c', e, rounded.servos 0 ∙ ap (map_option (aimed fl (disconnect_message ∷ []) 0)) first_servo)
