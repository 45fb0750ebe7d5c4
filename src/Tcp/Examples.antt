-- ===== src/Tcp/Examples.antt =====
-- The theorems on the TCP link at concrete inputs: a socket that gives one byte at a time.
use robot_arm.Base.{
  ℕ, ◌<◌, ◌≤◌, ◌≡◌, refl, ◌≢◌, List, [], ◌∷◌, replicate, length-replicate, ◌++◌, pos, negsuc, arith,
  length, ◌⊎◌, Bool, true, false, some, All,
}
use robot_arm.Ws.Run.{done, assert_failed, bad_pointer, out_of_fuel}
use robot_arm.Tcp.{
  Received, bytes, closed, Socket, IsStream, be_bytes, send_int, send_frame, max_read, Viewer,
  read_int32_t, read_image,
}
use robot_arm.Tcp.Frames.{Packet, picture, state, encode_all, oversized_picture}
use robot_arm.Tcp.Stream.{
  StreamEvent, thread_reads, main_looks, main_asks, main_closes, looks_at, Sent, VideoStream,
  stream_run,
}
use robot_arm.Tcp.Shots.{
  Shot, capture, Meets, ArmSide, camera_begins, camera_ends, send_int32_t, arm_step, arm_steps,
  fresh, ArmTurn, takes, says, steps_of, all_whole,
}
use robot_arm.Tcp.Watched.{arm_steps-looks_at}
use robot_arm.Tcp.Writers.{
  frame_sends, answer_sends, Shuffle, over, left, right, join, Arrive, Tear, Shuffle-Tear,
}
use robot_arm.Tcp.Closed.{read_int32_t-closed}

-- One byte for each call while there are any.
abbrev trickle : List ℕ → ℕ → Received × List ℕ
trickle [] n = (closed, [])
trickle (b ∷ bs) n = (bytes (b ∷ []), bs)

abbrev pub socket : Socket
socket = record { State = List ℕ; recv = trickle }

abbrev pub pending : List ℕ → List ℕ
pending bs = bs

pub socket-IsStream : IsStream socket pending
socket-IsStream = record { recv_some = some_byte }
  where
    some_byte :
        (s : List ℕ) (n : ℕ)
        → 0 < n
        → s ≢ []
        → (c : List ℕ) × (s' : List ℕ) × (trickle s n ≡ (bytes c, s'))
          × (0 < length c)
          × (length c ≤ n)
          × (s ≡ c ++ s')
    some_byte [] n h ne = absurd (ne refl)
    some_byte (b ∷ bs) n h ne = (b ∷ [], bs, refl, omega arith, omega arith, refl)

abbrev viewer : Viewer
viewer = record { arm_state = pos 0; frame = [] }

abbrev packets : List Packet
packets = picture (200 ∷ 201 ∷ []) ∷ state 2 ∷ []

abbrev whole_frame : List ℕ → List ℕ
whole_frame bs = bs

abbrev stream : VideoStream whole_frame socket
stream = record { connected = true; viewer = viewer; socket = encode_all packets; looks = [] }

abbrev stream_events : List StreamEvent
stream_events =
    main_looks ∷ thread_reads ∷ main_looks ∷ main_asks ∷ thread_reads ∷ main_asks ∷ main_closes
    ∷ thread_reads ∷ main_looks ∷ []

abbrev looked : Shot
looked = record { frame_buffer = []; frame_size = 0 }

abbrev meets : Bool → List ℕ → Meets
meets starts readbuf = record {
  start_read_data = starts;
  sock = 3;
  readbuf = readbuf;
  head = some 4;
  body = some 1400;
}

abbrev turns : List ArmTurn
turns = takes (meets false (7 ∷ [])) ∷ takes (meets true (200 ∷ 201 ∷ [])) ∷ says (some 4) 2 ∷ []

arm_steps-looks_at_example :
    ((all_whole turns ≡ false) × (arm_steps (steps_of turns) (fresh looked) ≡ assert_failed))
    ⊎ ((all_whole turns ≡ true)
        × (a' : ArmSide) × (s' : VideoStream whole_frame socket) × (arm_steps
              (steps_of turns)
              (fresh looked)
            ≡ done a')
        × (stream_run whole_frame socket max_read stream_events stream ≡ done s')
        × (s'.looks ≡ looks_at whole_frame stream_events true packets viewer)
        × All
            (Sent whole_frame viewer packets)
            (looks_at whole_frame stream_events true packets viewer))
unfolding arm_steps arm_step camera_begins camera_ends capture send_int32_t send_frame send_int
    be_bytes
arm_steps-looks_at_example =
    arm_steps-looks_at whole_frame socket pending socket-IsStream turns looked max_read
      stream_events stream ((omega arith, omega arith), (omega arith, tt)) (refl, (refl, (tt, tt)))
      (omega arith) refl (omega arith)

-- A picture of 130273 bytes.
abbrev large : List ℕ
large = replicate 130273 255

oversized_picture_example :
    read_image socket 130273 viewer (send_int (pos 130273) ++ large) ≡ bad_pointer
oversized_picture_example =
    oversized_picture socket pending socket-IsStream 130273 130273 large viewer
      (send_int (pos 130273) ++ large) (omega arith) (omega arith) (omega arith) long refl
  where
    long : max_read < length large
    long = rw (length-replicate {A = ℕ} 130273 255) (omega arith)

read_int32_t-closed_example : read_int32_t socket 1000 [] ≡ out_of_fuel
read_int32_t-closed_example = read_int32_t-closed socket [] (λ n. refl) 1000

abbrev small_frame : List ℕ
small_frame = 200 ∷ 201 ∷ 202 ∷ []

abbrev between : List (List ℕ)
between = be_bytes (pos 3) ∷ send_int (negsuc 0) ∷ small_frame ∷ []

between-Shuffle : Shuffle (frame_sends small_frame) (answer_sends 0) between
between-Shuffle = left _ (right _ (left _ over))

Shuffle-Tear_example :
    (Arrive socket pending socket-IsStream max_read 0 small_frame
        (9 ∷ [])
        viewer
        (join between ++ 9 ∷ [])
      × ((between ≡ answer_sends 0 ++ frame_sends small_frame)
          ⊎ (between ≡ frame_sends small_frame ++ answer_sends 0)))
    ⊎ (Tear socket pending socket-IsStream max_read 0 small_frame
          (9 ∷ [])
          viewer
          (join between ++ 9 ∷ [])
        × (between ≡ be_bytes (pos 3) ∷ send_int (negsuc 0) ∷ small_frame ∷ []))
Shuffle-Tear_example =
    Shuffle-Tear socket pending socket-IsStream max_read 0 small_frame (9 ∷ []) between viewer
      (join between ++ 9 ∷ []) (omega arith) (omega arith) (omega arith) (omega arith)
      between-Shuffle refl
