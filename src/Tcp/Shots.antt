-- ===== src/Tcp/Shots.antt =====
-- The arm's side of the link: `Arducam::capture` of RaspberryPi/src/XNlib/xn_gpio.hpp, and the loop of
-- `cam_io_thread` beside the answers of `servo_ctl_thread` in RaspberryPi/src/arducam_lws.cpp. Each
-- call of `send` is a step. The camera's library is a parameter: `readbuf`, with its `length`, is a
-- list of bytes that each capture brings.
use robot_arm.Base.{
  ℕ, ◌-◌, ◌^◌, ◌≡◌, Bool, true, false, not, ◌&&◌, ◌||◌, Option, none, some, List, [], ◌∷◌, ◌++◌, ℤ,
  pos, negsuc, length, take, ◌==◌, if◌then◌else◌,
}
use robot_arm.Ws.Run.{Run, done, assert_failed, ◌>>=◌}
use robot_arm.Tcp.{be_bytes}
use robot_arm.Tcp.Frames.{Packet, picture, state}

-- What an `Arducam` holds of its last picture.
pub record Shot : Type 0 where
  pub frame_buffer : List ℕ
  pub frame_size : ℕ

unfoldable pub capture : List ℕ → Shot → Shot
capture readbuf cam = record { frame_buffer = readbuf; frame_size = length readbuf }

-- The bytes that a call of `send` puts on the stream, and what it returns as a `size_t`. The system
-- takes at most a number of them, or none: then it answers -1.
abbrev pub taken : Option ℕ → List ℕ → List ℕ
taken none bs = []
taken (some k) bs = take k bs

abbrev pub sent_size : Option ℕ → List ℕ → ℕ
sent_size none bs = 2 ^ 32 - 1
sent_size (some k) bs = length (take k bs)

-- What a round of `cam_io_thread` meets: the two globals, the picture, and the system at each call of
-- `send`.
pub record Meets : Type 0 where
  pub start_read_data : Bool
  pub sock : ℕ
  pub readbuf : List ℕ
  pub head : Option ℕ
  pub body : Option ℕ

-- `cam` of the thread, whether the thread is between its two calls of `send`, and all bytes on the
-- stream.
pub record ArmSide : Type 0 where
  pub cam : Shot
  pub between : Bool
  pub out : List ℕ

-- `cam_io_thread` up to its first call of `send` of a round. Between its two calls it is not there.
unfoldable pub camera_begins : Meets → ArmSide → ArmSide
camera_begins m a =
    let cam = capture m.readbuf a.cam in
    if a.between || not m.start_read_data
    then a
    else if m.sock == 0
    then record a { cam = cam }
    else record {
      cam = cam;
      between = true;
      out = a.out ++ taken m.head (be_bytes (pos cam.frame_size));
    }

-- Its second call, for a picture that has begun, and the assertion behind it.
unfoldable pub camera_ends : Option ℕ → ArmSide → Run ArmSide
camera_ends body a =
    let sent = record a { between = false; out = a.out ++ taken body a.cam.frame_buffer } in
    if not a.between
    then done a
    else if sent_size body a.cam.frame_buffer == a.cam.frame_size
    then done sent
    else assert_failed

unfoldable pub send_int32_t : Option ℕ → ℤ → ArmSide → Run ArmSide
send_int32_t answer val a =
    if sent_size answer (be_bytes val) == 4
    then done (record a { out = a.out ++ taken answer (be_bytes val) })
    else assert_failed

-- A step of one of the two threads: the camera's two, or an answer -(n + 1).
pub data ArmStep : Type 0 where
  begins : Meets → ArmStep
  ends : Option ℕ → ArmStep
  answers : Option ℕ → ℕ → ArmStep

unfoldable pub arm_step : ArmStep → ArmSide → Run ArmSide
arm_step (begins m) a = done (camera_begins m a)
arm_step (ends body) a = camera_ends body a
arm_step (answers answer n) a = send_int32_t answer (negsuc n) a

-- The steps in any order, as no mutex is held across the calls.
unfoldable pub arm_steps : List ArmStep → ArmSide → Run ArmSide
arm_steps [] a = done a
arm_steps (t ∷ ts) a = do a' ← arm_step t a; arm_steps ts a'

-- The arm before its first step, and the bytes that it has sent in the end.
abbrev pub fresh : Shot → ArmSide
fresh cam = record { cam = cam; between = false; out = [] }

abbrev pub bytes_out : Run ArmSide → List ℕ
bytes_out (done a) = a.out
bytes_out _ = []

-- A turn of a thread whose steps nothing comes between: a whole round for the camera, or an answer.
pub data ArmTurn : Type 0 where
  takes : Meets → ArmTurn
  says : Option ℕ → ℕ → ArmTurn

abbrev pub steps_of : List ArmTurn → List ArmStep
steps_of [] = []
steps_of (takes m ∷ ts) = begins m ∷ ends m.body ∷ steps_of ts
steps_of (says answer n ∷ ts) = answers answer n ∷ steps_of ts

-- The packets that the turns mean to send.
abbrev pub sends : Meets → Bool
sends m = m.start_read_data && not (m.sock == 0)

abbrev pub meant : ArmTurn → List Packet
meant (takes m) = if sends m then picture m.readbuf ∷ [] else []
meant (says answer n) = state n ∷ []

abbrev pub meant_all : List ArmTurn → List Packet
meant_all [] = []
meant_all (t ∷ ts) = meant t ++ meant_all ts

-- Whether the call of `send` that is asserted takes all its bytes.
abbrev pub is_whole : ArmTurn → Bool
is_whole (takes m) = not (sends m) || (sent_size m.body m.readbuf == length m.readbuf)
is_whole (says answer n) = sent_size answer (be_bytes (negsuc n)) == 4

abbrev pub all_whole : List ArmTurn → Bool
all_whole [] = true
all_whole (t ∷ ts) = is_whole t && all_whole ts

-- The size of a picture, whose call is not asserted, goes out whole.
abbrev pub HeadGoes : ArmTurn → Type 0
HeadGoes (takes m) = let size = be_bytes (pos (length m.readbuf)) in taken m.head size ≡ size
HeadGoes (says answer n) = Unit

abbrev pub AllHeadsGo : List ArmTurn → Type 0
AllHeadsGo [] = Unit
AllHeadsGo (t ∷ ts) = HeadGoes t × AllHeadsGo ts
