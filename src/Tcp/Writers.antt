-- ===== src/Tcp/Writers.antt =====
-- The two threads of RaspberryPi/src/arducam_lws.cpp that write to one socket: `cam_io_thread` sends
-- a picture in two calls of `send`, and `servo_ctl_thread` sends its answer in one. No mutex is held
-- across the calls, so they come in any order that keeps each thread's own.
use robot_arm.Base.{
  ℕ, ◌^◌, ◌<◌, ◌≤◌, ◌≡◌, refl, ap, sym, ◌∙◌, ◌⊎◌, inl, inr, List, [], ◌∷◌, ◌++◌, pos, negsuc, arith,
  length, take, drop, length-take, take-append-drop,
}
use mathlib.Core.List.{append_assoc, append-nil}
use robot_arm.Ws.Run.{done}
use robot_arm.Tcp.{
  Socket, IsStream, be_bytes, send_int, send_frame, max_read, padded, Viewer, read_body, read_image,
}
use robot_arm.Tcp.Reading.{read_buf_lem, read_int32_t-send_int}
use robot_arm.Tcp.Frames.{picture, state, encode_all, read_images, read_images-encode_all}

-- The calls of `send` for one picture, and for one answer.
abbrev pub frame_sends : List ℕ → List (List ℕ)
frame_sends frame = be_bytes (pos (length frame)) ∷ frame ∷ []

abbrev pub answer_sends : ℕ → List (List ℕ)
answer_sends n = send_int (negsuc n) ∷ []

-- Two sequences of calls in one order that keeps each.
pub data Shuffle {A : Type 0} : List A → List A → List A → Type 0 where
  over : Shuffle [] [] []
  left : (x : A) {xs ys zs : List A} → Shuffle xs ys zs → Shuffle (x ∷ xs) ys (x ∷ zs)
  right : (y : A) {xs ys zs : List A} → Shuffle xs ys zs → Shuffle xs (y ∷ ys) (y ∷ zs)

abbrev pub join : List (List ℕ) → List ℕ
join [] = []
join (c ∷ cs) = c ++ join cs

-- The three orders of two calls and one.
orders :
    {A : Type 0} (a b c : A) (zs : List A)
    → Shuffle (a ∷ b ∷ []) (c ∷ []) zs
    → (zs ≡ c ∷ a ∷ b ∷ []) ⊎ ((zs ≡ a ∷ b ∷ c ∷ []) ⊎ (zs ≡ a ∷ c ∷ b ∷ []))
orders a b c zs (right _ (left _ (left _ over))) = inl refl
orders a b c zs (left _ (left _ (right _ over))) = inr (inl refl)
orders a b c zs (left _ (right _ (left _ over))) = inr (inr refl)

-- What was sent where the answer falls between the size of a picture and the picture.
abbrev pub torn : ℕ → List ℕ → List ℕ
torn n frame = send_int (negsuc n) ++ frame

length-torn : (n : ℕ) (frame : List ℕ) → length frame ≤ length (torn n frame)
unfolding send_int be_bytes
length-torn n frame = omega arith

module _ (so : Socket) (pending : so.State → List ℕ) (stream : IsStream so pending) where
  open so use {State}

  -- The picture and the answer arrive in two rounds.
  abbrev pub Arrive : ℕ → ℕ → List ℕ → List ℕ → Viewer → State → Type 0
  Arrive fuel n frame rest v s =
      (s' : State) × (read_images so pending stream fuel 2 v s
        ≡ done (record v { arm_state = negsuc n; frame = padded frame }, s'))
      × (pending s' ≡ rest)

  -- One round takes the answer and the first bytes of the picture for the picture; `arm_state` stays,
  -- and the last bytes of the picture are left in front of the rest.
  abbrev pub Tear : ℕ → ℕ → List ℕ → List ℕ → Viewer → State → Type 0
  Tear fuel n frame rest v s =
      (s' : State) × (read_image so fuel v s
        ≡ done (record v { frame = padded (take (length frame) (torn n frame)) }, s'))
      × (pending s' ≡ drop (length frame) (torn n frame) ++ rest)

  torn_lem :
      (fuel n : ℕ) (frame rest : List ℕ) (v : Viewer) (s : State)
      → 0 < length frame
      → length frame ≤ max_read
      → max_read ≤ fuel
      → pending s ≡ be_bytes (pos (length frame)) ++ (torn n frame ++ rest)
      → Tear fuel n frame rest v s
  unfolding read_image read_body send_int
  torn_lem fuel n frame rest v s some_bytes h enough e =
      let k = length frame in
      let (s₁, size, q₁) =
        read_int32_t-send_int so pending stream fuel (pos k) (torn n frame ++ rest) s (omega arith)
          (omega arith) e in
      let parts : pending s₁ ≡ take k (torn n frame) ++ (drop k (torn n frame) ++ rest) =
        q₁
        ∙ ap (λ (l : List ℕ). l ++ rest) (sym (take-append-drop k (torn n frame)))
        ∙ append_assoc (take k (torn n frame)) (drop k (torn n frame)) rest in
      let size_of : length (take k (torn n frame)) ≡ k =
        omega (arith, length-take k (torn n frame), length-torn n frame) in
      let (s₂, body, q₂) =
        read_buf_lem so pending stream max_read fuel k [] (take k (torn n frame))
          (drop k (torn n frame) ++ rest) s₁ parts size_of some_bytes (omega arith) (omega arith) in
      (s₂, rw (size, body) refl, q₂)

  -- However the calls of the two threads come, and however TCP cuts the bytes: the viewer takes in the
  -- picture and the answer, or, where the answer comes between the size and the picture, it takes the
  -- answer for the first bytes of the picture, keeps its old state and goes on in the middle of the
  -- picture. A picture has 1 to 130272 bytes, an answer is from -2^31 to -1, and 130272 rounds for
  -- each read are enough.
  pub Shuffle-Tear :
      (fuel n : ℕ) (frame rest : List ℕ) (zs : List (List ℕ)) (v : Viewer) (s : State)
      → 0 < length frame
      → length frame ≤ max_read
      → n < 2 ^ 31
      → max_read ≤ fuel
      → Shuffle (frame_sends frame) (answer_sends n) zs
      → pending s ≡ join zs ++ rest
      → (Arrive fuel n frame rest v s
          × ((zs ≡ answer_sends n ++ frame_sends frame)
              ⊎ (zs ≡ frame_sends frame ++ answer_sends n)))
        ⊎ (Tear fuel n frame rest v s
            × (zs ≡ be_bytes (pos (length frame)) ∷ send_int (negsuc n) ∷ frame ∷ []))
  unfolding send_frame
  Shuffle-Tear fuel n frame rest zs v s some_bytes h small enough sh e =
      let size = be_bytes (pos (length frame)) in
      let answer = send_int (negsuc n) in
      elim (orders size frame answer zs sh) [
        | inl first ↦
            let all : pending s ≡ encode_all (state n ∷ picture frame ∷ []) ++ rest =
              rw first at e ∙ simp (append_assoc, append-nil) in
            inl (
              read_images-encode_all so pending stream fuel (state n ∷ picture frame ∷ []) rest v s
                  (small, ((some_bytes, h), tt)) enough all,
              inl first,
            )
        | inr (inl behind) ↦
            let all : pending s ≡ encode_all (picture frame ∷ state n ∷ []) ++ rest =
              rw behind at e ∙ simp (append_assoc, append-nil) in
            inl (
              read_images-encode_all so pending stream fuel (picture frame ∷ state n ∷ []) rest v s
                  ((some_bytes, h), (small, tt)) enough all,
              inr behind,
            )
        | inr (inr between) ↦
            let all : pending s ≡ size ++ (torn n frame ++ rest) =
              rw between at e ∙ simp (append_assoc, append-nil) in
            inr (torn_lem fuel n frame rest v s some_bytes h enough all, between)
      ]
