-- ===== src/Tcp/Looks.antt =====
-- What a program sees of the arm through `VideoStream` (Tcp/Stream).
use robot_arm.Base.{
  ℕ, ◌≤◌, ◌≡◌, refl, sym, ◌∙◌, Bool, true, false, List, [], ◌∷◌, ◌++◌, length, All, All-map, arith,
}
use mathlib.Core.List.{append_assoc, append-nil}
use mathlib.Core.List.Memᴰ
use robot_arm.Ws.Run.{done}
use robot_arm.Tcp.{Socket, IsStream, max_read, Viewer}
use robot_arm.Tcp.Frames.{Packet, picture, state, encode, encode_all, AllFit, shown, read_image_lem}
use robot_arm.Tcp.Stream.{
  StreamEvent, thread_reads, main_looks, main_asks, main_closes, Look, saw, heard, looks_at, Sent,
  first_frame, first_state, sent_frame, sent_state, reads, VideoStream, stream_step, stream_run,
}

module _ {Picture : Type 0} (decode : List ℕ → Picture) where
  Sent-shown :
      (v : Viewer) (p : Packet) (ps : List Packet) (l : Look decode)
      → Sent decode (shown p v) ps l
      → Sent decode v (p ∷ ps) l
  Sent-shown v (picture f) ps l first_frame = sent_frame f (Memᴰ.head refl)
  Sent-shown v (picture f) ps l first_state = first_state
  Sent-shown v (state n) ps l first_frame = first_frame
  Sent-shown v (state n) ps l first_state = sent_state n (Memᴰ.head refl)
  Sent-shown v p ps l (sent_frame f m) = sent_frame f (Memᴰ.tail m)
  Sent-shown v p ps l (sent_state n m) = sent_state n (Memᴰ.tail m)

  looks_at-Sent :
      (es : List StreamEvent) (connected : Bool) (ps : List Packet) (v : Viewer)
      → All (Sent decode v ps) (looks_at decode es connected ps v)
  looks_at-Sent [] connected ps v = tt
  looks_at-Sent (main_looks ∷ es) connected ps v = (first_frame, looks_at-Sent es connected ps v)
  looks_at-Sent (main_asks ∷ es) connected ps v = (first_state, looks_at-Sent es connected ps v)
  looks_at-Sent (main_closes ∷ es) connected ps v = looks_at-Sent es false ps v
  looks_at-Sent (thread_reads ∷ es) false ps v = looks_at-Sent es false ps v
  looks_at-Sent (thread_reads ∷ es) true [] v = tt
  looks_at-Sent (thread_reads ∷ es) true (p ∷ ps) v =
      All-map (looks_at decode es true ps (shown p v)) (Sent-shown v p ps)
        (looks_at-Sent es true ps (shown p v))

module _ {Picture : Type 0} (decode : List ℕ → Picture) (so : Socket) (pending : so.State → List ℕ)
    (stream : IsStream so pending) where
  run_lem :
      (fuel : ℕ) (es : List StreamEvent) (ps : List Packet) (rest : List ℕ) (connected : Bool)
      (v : Viewer) (q : so.State) (looks : List (Look decode))
      → AllFit ps
      → max_read ≤ fuel
      → pending q ≡ encode_all ps ++ rest
      → reads es connected ≤ length ps
      → (s' : VideoStream decode so) × (stream_run decode so fuel es
            (record { connected = connected; viewer = v; socket = q; looks = looks })
          ≡ done s')
        × (s'.looks ≡ looks ++ looks_at decode es connected ps v)
  unfolding stream_run stream_step
  run_lem fuel [] ps rest connected v q looks fit enough p n = (_, refl, sym (append-nil looks))
  run_lem fuel (main_looks ∷ es) ps rest connected v q looks fit enough p n =
      let (s', e, l) =
        run_lem fuel es ps rest connected v q (looks ++ saw (decode v.frame) ∷ []) fit enough p n in
      (s', e, l ∙ append_assoc looks (saw (decode v.frame) ∷ []) _)
  run_lem fuel (main_asks ∷ es) ps rest connected v q looks fit enough p n =
      let (s', e, l) =
        run_lem fuel es ps rest connected v q (looks ++ heard v.arm_state ∷ []) fit enough p n in
      (s', e, l ∙ append_assoc looks (heard v.arm_state ∷ []) _)
  run_lem fuel (main_closes ∷ es) ps rest connected v q looks fit enough p n =
      run_lem fuel es ps rest false v q looks fit enough p n
  run_lem fuel (thread_reads ∷ es) ps rest false v q looks fit enough p n =
      run_lem fuel es ps rest false v q looks fit enough p n
  run_lem fuel (thread_reads ∷ es) [] rest true v q looks fit enough p n = absurd (omega arith)
  run_lem fuel (thread_reads ∷ es) (f ∷ ps) rest true v q looks (fits, fit) enough p n =
      let (q', read, p') =
        read_image_lem so pending stream fuel f (encode_all ps ++ rest) v q fits enough
          (p ∙ append_assoc (encode f) (encode_all ps) rest) in
      rw read (run_lem fuel es ps rest true (shown f v) q' looks fit enough p' (omega arith))

  -- However a TCP stream cuts the bytes, and in whatever order the thread reads and the program looks,
  -- asks for the state and closes the stream: with a packet under way for each round that the thread
  -- begins, the program sees what it would see if each round took one whole packet, so that each
  -- picture and each state is one that the arm has sent, or the one before the first.
  pub stream_run-looks_at :
      (fuel : ℕ) (es : List StreamEvent) (ps : List Packet) (rest : List ℕ)
      (s : VideoStream decode so)
      → AllFit ps
      → max_read ≤ fuel
      → pending s.socket ≡ encode_all ps ++ rest
      → reads es s.connected ≤ length ps
      → (s' : VideoStream decode so) × (stream_run decode so fuel es s ≡ done s')
        × (s'.looks ≡ s.looks ++ looks_at decode es s.connected ps s.viewer)
        × All (Sent decode s.viewer ps) (looks_at decode es s.connected ps s.viewer)
  stream_run-looks_at fuel es ps rest s fit enough p under_way =
      let (s', e, l) =
        run_lem fuel es ps rest s.connected s.viewer s.socket s.looks fit enough p under_way in
      (s', e, l, looks_at-Sent decode es s.connected ps s.viewer)
