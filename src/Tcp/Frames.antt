-- ===== src/Tcp/Frames.antt =====
-- The pictures and states that the arm sends, against those that the viewer takes in.
use robot_arm.Base.{
  ℕ, zero, suc, ◌^◌, ◌<◌, ◌≤◌, ◌≡◌, refl, ◌∙◌, List, [], ◌∷◌, ◌++◌, pos, negsuc, arith, length,
}
use mathlib.Core.List.{append_assoc}
use robot_arm.Ws.Run.{Run, done, bad_pointer, ◌>>=◌}
use robot_arm.Tcp.{
  Socket, IsStream, be_bytes, send_int, send_frame, max_read, padded, Viewer, read_body, read_image,
}
use robot_arm.Tcp.Reading.{read_buf_lem, read_buf-overrun, read_int32_t-send_int}

-- What the arm sends: a picture, or its state -(n + 1).
pub data Packet : Type 0 where
  picture : List ℕ → Packet
  state : ℕ → Packet

abbrev pub encode : Packet → List ℕ
encode (picture f) = send_frame f
encode (state n) = send_int (negsuc n)

abbrev pub encode_all : List Packet → List ℕ
encode_all [] = []
encode_all (p ∷ ps) = encode p ++ encode_all ps

abbrev pub Fits : Packet → Type 0
Fits (picture f) = (0 < length f) × (length f ≤ max_read)
Fits (state n) = n < 2 ^ 31

abbrev pub AllFit : List Packet → Type 0
AllFit [] = Unit
AllFit (p ∷ ps) = Fits p × AllFit ps

abbrev pub shown : Packet → Viewer → Viewer
shown (picture f) v = record v { frame = padded f }
shown (state n) v = record v { arm_state = negsuc n }

abbrev pub shown_all : List Packet → Viewer → Viewer
shown_all [] v = v
shown_all (p ∷ ps) v = shown_all ps (shown p v)

module _ (so : Socket) (pending : so.State → List ℕ) (stream : IsStream so pending) where
  open so use {State}

  -- Rounds of the loop of `readImageThread`.
  pub read_images : ℕ → ℕ → Viewer → State → Run (Viewer × State)
  read_images fuel zero v s = done (v, s)
  read_images fuel (suc k) v s = do (v', s') ← read_image so fuel v s; read_images fuel k v' s'

  pub read_image_lem :
      (fuel : ℕ) (p : Packet) (rest : List ℕ) (v : Viewer) (s : State)
      → Fits p
      → max_read ≤ fuel
      → pending s ≡ encode p ++ rest
      → (s' : State) × (read_image so fuel v s ≡ done (shown p v, s')) × (pending s' ≡ rest)
  unfolding read_image read_body send_frame send_int
  read_image_lem fuel (state n) rest v s h enough e =
      let (s', read, q) =
        read_int32_t-send_int so pending stream fuel (negsuc n) rest s (omega arith) (omega arith)
          e in
      (s', rw read refl, q)
  read_image_lem fuel (picture f) rest v s (some_bytes, h) enough e =
      let (s₁, size, q₁) =
        read_int32_t-send_int so pending stream fuel (pos (length f)) (f ++ rest) s (omega arith)
          (omega arith) (e ∙ append_assoc (be_bytes (pos (length f))) f rest) in
      let (s₂, body, q₂) =
        read_buf_lem so pending stream max_read fuel (length f) [] f rest s₁ q₁ refl some_bytes
          (omega arith) (omega arith) in
      (s₂, rw (size, body) refl, q₂)

  -- However a TCP stream cuts the bytes, the viewer shows in order what the arm sends, pictures of
  -- 1 to 130272 bytes and states from -2^31 to -1, and leaves the bytes behind them; 130272 rounds
  -- for each read are enough.
  pub read_images-encode_all :
      (fuel : ℕ) (ps : List Packet) (rest : List ℕ) (v : Viewer) (s : State)
      → AllFit ps
      → max_read ≤ fuel
      → pending s ≡ encode_all ps ++ rest
      → (s' : State) × (read_images fuel (length ps) v s ≡ done (shown_all ps v, s'))
        × (pending s' ≡ rest)
  unfolding read_images
  read_images-encode_all fuel [] rest v s h enough e = (s, refl, e)
  read_images-encode_all fuel (p ∷ ps) rest v s (h, hs) enough e =
      let (s₁, one, q₁) =
        read_image_lem fuel p (encode_all ps ++ rest) v s h enough
          (e ∙ append_assoc (encode p) (encode_all ps) rest) in
      let (s₂, others, q₂) = read_images-encode_all fuel ps rest (shown p v) s₁ hs enough q₁ in
      (s₂, rw one others, q₂)

  -- A picture size above 130272 makes the viewer write behind the end of its buffer as soon as more
  -- than 130272 bytes behind the size have come on the TCP stream; as many rounds for each read as the
  -- size says, and 4, are enough.
  pub oversized_picture :
      (fuel : ℕ) (n : ℕ) (bs : List ℕ) (v : Viewer) (s : State)
      → max_read < n
      → n < 2 ^ 31
      → n ≤ fuel
      → max_read < length bs
      → pending s ≡ send_int (pos n) ++ bs
      → read_image so fuel v s ≡ bad_pointer
  unfolding read_image read_body
  oversized_picture fuel n bs v s big h enough come e =
      let (s', read, q) =
        read_int32_t-send_int so pending stream fuel (pos n) bs s (omega arith) (omega arith) e in
      let arrives : max_read < length (pending s') = rw q come in
      rw (
        read,
        read_buf-overrun so pending stream max_read fuel n [] s' (omega arith) (omega arith)
            (omega (arith, arrives)) enough,
      )
