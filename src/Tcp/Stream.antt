-- ===== src/Tcp/Stream.antt =====
-- `VideoStream` of Windows/XNlib/include/xn_net.hpp: the thread that reads the pictures of the arm and
-- the program that looks at the last one, in any order. The picture is stored and copied under
-- `frame_lock`, so that a round of the thread and a look are one step each. `decode` is `imdecode`;
-- of no bytes it makes an empty picture, as there is before the first one.
use robot_arm.Base.{ℕ, suc, Bool, true, false, List, [], ◌∷◌, ◌++◌, ℤ, negsuc, if◌then◌else◌}
use mathlib.Core.List.{Memᴰ}
use robot_arm.Ws.Run.{Run, done, ◌>>=◌}
use robot_arm.Tcp.{Socket, padded, Viewer, read_image}
use robot_arm.Tcp.Frames.{Packet, picture, state, shown}

pub data StreamEvent : Type 0 where
  thread_reads main_looks main_asks main_closes : StreamEvent

module _ {Picture : Type 0} (decode : List ℕ → Picture) where
  -- What the program gets from `getLastFrame` and from `arm_state`.
  pub data Look : Type 0 where
    saw : Picture → Look
    heard : ℤ → Look

  abbrev pub get_last_frame : Viewer → Picture
  get_last_frame v = decode v.frame

  -- What is seen if the packets of the arm come whole, one with each round of the thread.
  abbrev pub looks_at : List StreamEvent → Bool → List Packet → Viewer → List Look
  looks_at [] connected ps v = []
  looks_at (main_looks ∷ es) connected ps v = saw (get_last_frame v) ∷ looks_at es connected ps v
  looks_at (main_asks ∷ es) connected ps v = heard v.arm_state ∷ looks_at es connected ps v
  looks_at (main_closes ∷ es) connected ps v = looks_at es false ps v
  looks_at (thread_reads ∷ es) false ps v = looks_at es false ps v
  looks_at (thread_reads ∷ es) true [] v = []
  looks_at (thread_reads ∷ es) true (p ∷ ps) v = looks_at es true ps (shown p v)

  -- One of the pictures or states of the arm, or what was there before.
  pub data Sent (v : Viewer) (ps : List Packet) : Look → Type 0 where
    first_frame : Sent v ps (saw (decode v.frame))
    first_state : Sent v ps (heard v.arm_state)
    sent_frame : (f : List ℕ) → Memᴰ (picture f) ps → Sent v ps (saw (decode (padded f)))
    sent_state : (n : ℕ) → Memᴰ (state n) ps → Sent v ps (heard (negsuc n))

-- The rounds of the thread that begin before the stream is closed.
abbrev pub reads : List StreamEvent → Bool → ℕ
reads [] connected = 0
reads (main_closes ∷ es) connected = reads es false
reads (thread_reads ∷ es) true = suc (reads es true)
reads (thread_reads ∷ es) false = reads es false
reads (main_looks ∷ es) connected = reads es connected
reads (main_asks ∷ es) connected = reads es connected

module _ {Picture : Type 0} (decode : List ℕ → Picture) (so : Socket) where
  pub record VideoStream : Type 0 where
    pub connected : Bool
    pub viewer : Viewer
    pub socket : so.State
    pub looks : List (Look decode)

  unfoldable pub stream_step : ℕ → StreamEvent → VideoStream → Run VideoStream
  stream_step fuel thread_reads s =
      if s.connected
      then (read_image so fuel s.viewer s.socket >>= λ r.
          done (record s { viewer = r.0; socket = r.1 }))
      else done s
  stream_step fuel main_looks s =
      done (record s { looks = s.looks ++ saw (get_last_frame decode s.viewer) ∷ [] })
  stream_step fuel main_asks s =
      done (record s { looks = s.looks ++ heard s.viewer.arm_state ∷ [] })
  stream_step fuel main_closes s = done (record s { connected = false })

  unfoldable pub stream_run : ℕ → List StreamEvent → VideoStream → Run VideoStream
  stream_run fuel [] s = done s
  stream_run fuel (e ∷ es) s = do s' ← stream_step fuel e s; stream_run fuel es s'
