-- ===== src/Tcp/Watched.antt =====
-- The two ends of the link: what the program sees of the pictures that the arm's camera takes.
use robot_arm.Base.{
  ℕ, ◌-◌, ◌^◌, ◌<◌, ◌≤◌, ◌≡◌, refl, ap, sym, ◌∙◌, ◌⊎◌, inl, inr, true, false, Option, none, some,
  List, [], ◌∷◌, ◌++◌, pos, negsuc, arith, length, length-take, take-length, ◌==◌, eq_of_==_true,
  Bool-cases, and_true, All,
}
use mathlib.Core.List.{append_assoc, append-nil}
use robot_arm.Ws.Run.{done, assert_failed}
use robot_arm.Tcp.{Socket, IsStream, be_bytes, send_int, send_frame, max_read}
use robot_arm.Tcp.Frames.{Packet, picture, encode, encode_all, AllFit}
use robot_arm.Tcp.Stream.{StreamEvent, looks_at, Sent, reads, VideoStream, stream_run}
use robot_arm.Tcp.Looks.{stream_run-looks_at}
use robot_arm.Tcp.Shots.{
  Shot, capture, taken, sent_size, Meets, ArmSide, camera_begins, camera_ends, send_int32_t,
  arm_step, arm_steps, fresh, bytes_out, ArmTurn, takes, says, steps_of, meant, meant_all, is_whole,
  all_whole, HeadGoes, AllHeadsGo,
}

sent_size-taken :
    (answer : Option ℕ) (bs : List ℕ)
    → length bs < 2 ^ 32 - 1
    → (sent_size answer bs == length bs) ≡ true
    → taken answer bs ≡ bs
sent_size-taken none bs h e = absurd (let q = eq_of_==_true _ _ e in omega arith)
sent_size-taken (some k) bs h e =
    let q = eq_of_==_true _ _ e in take-length k bs (omega (arith, length-take k bs))

encode_all-++ : (ps qs : List Packet) → encode_all (ps ++ qs) ≡ encode_all ps ++ encode_all qs
encode_all-++ [] qs = refl
encode_all-++ (p ∷ ps) qs =
    rw (encode_all-++ ps qs) (sym (append_assoc (encode p) (encode_all ps) (encode_all qs)))

-- A turn whose asserted call takes all bytes: the steps behind it go on from there.
abbrev Goes : ArmTurn → List ArmTurn → ArmSide → Type 0
Goes t ts a =
    (a' : ArmSide) × (arm_steps (steps_of (t ∷ ts)) a ≡ arm_steps (steps_of ts) a')
    × (a'.between ≡ false)
    × (a'.out ≡ a.out ++ encode_all (meant t))

takes-Goes :
    (m : Meets) (ts : List ArmTurn) (a : ArmSide)
    → a.between ≡ false
    → AllFit (meant (takes m))
    → HeadGoes (takes m)
    → is_whole (takes m) ≡ true
    → Goes (takes m) ts a
unfolding arm_steps arm_step camera_begins camera_ends capture send_frame
takes-Goes m ts a idle fit head w =
    let cam = capture m.readbuf a.cam in
    let size = be_bytes (pos (length m.readbuf)) in
    elim (Bool-cases m.start_read_data) [
      | inr off ↦ (a, rw (idle, off) refl, idle, rw off (sym (append-nil a.out)))
      | inl on ↦ elim (Bool-cases (m.sock == 0)) [
        | inl none_yet ↦ (
          record a { cam = cam },
          rw (idle, on, none_yet) refl,
          idle,
          rw (on, none_yet) (sym (append-nil a.out)),
        )
        | inr open_now ↦
            let fits : AllFit (picture m.readbuf ∷ []) = rw (on, open_now) at fit in
            let e : (sent_size m.body m.readbuf == length m.readbuf) ≡ true =
              rw (on, open_now) at w in
            let body = sent_size-taken m.body m.readbuf (omega (arith, fits.0.1)) e in
            (
              record {
                cam = cam;
                between = false;
                out = (a.out ++ taken m.head size) ++ taken m.body m.readbuf;
              },
              rw (idle, on, open_now, e) refl,
              refl,
              rw (on, open_now, head, body) (simp (append_assoc, append-nil)),
            )
      ]
    ]

takes-short :
    (m : Meets) (ts : List ArmTurn) (a : ArmSide)
    → a.between ≡ false
    → is_whole (takes m) ≡ false
    → arm_steps (steps_of (takes m ∷ ts)) a ≡ assert_failed
unfolding arm_steps arm_step camera_begins camera_ends capture
takes-short m ts a idle w = elim (Bool-cases m.start_read_data) [
  | inr off ↦ absurd (ground (arith, off, w))
  | inl on ↦ elim (Bool-cases (m.sock == 0)) [
    | inl none_yet ↦ absurd (ground (arith, on, none_yet, w))
    | inr open_now ↦
        let e : (sent_size m.body m.readbuf == length m.readbuf) ≡ false = rw (on, open_now) at w in
        rw (idle, on, open_now, e) refl
  ]
]

turn-Goes :
    (t : ArmTurn) (ts : List ArmTurn) (a : ArmSide)
    → a.between ≡ false
    → AllFit (meant t)
    → HeadGoes t
    → is_whole t ≡ true
    → Goes t ts a
unfolding arm_steps arm_step send_int32_t send_int be_bytes
turn-Goes (takes m) ts a idle fit head w = takes-Goes m ts a idle fit head w
turn-Goes (says answer n) ts a idle fit head w =
    let val = be_bytes (negsuc n) in
    let e = sent_size-taken answer val (omega arith) w in
    (
      record a { out = a.out ++ taken answer val },
      rw w refl,
      idle,
      rw e (ap (◌++◌ a.out) (sym (append-nil val))),
    )

turn-short :
    (t : ArmTurn) (ts : List ArmTurn) (a : ArmSide)
    → a.between ≡ false
    → is_whole t ≡ false
    → arm_steps (steps_of (t ∷ ts)) a ≡ assert_failed
unfolding arm_steps arm_step send_int32_t
turn-short (takes m) ts a idle w = takes-short m ts a idle w
turn-short (says answer n) ts a idle w = rw w refl

AllFit-++ : (ps qs : List Packet) → AllFit (ps ++ qs) → AllFit ps × AllFit qs
AllFit-++ [] qs fit = (tt, fit)
AllFit-++ (p ∷ ps) qs (f, fit) = let (l, r) = AllFit-++ ps qs fit in ((f, l), r)

turns_lem :
    (ts : List ArmTurn) (a : ArmSide)
    → a.between ≡ false
    → AllFit (meant_all ts)
    → AllHeadsGo ts
    → all_whole ts ≡ true
    → (a' : ArmSide) × (arm_steps (steps_of ts) a ≡ done a')
      × (a'.out ≡ a.out ++ encode_all (meant_all ts))
unfolding arm_steps
turns_lem [] a idle fit heads w = (a, refl, sym (append-nil a.out))
turns_lem (t ∷ ts) a idle fit (head, heads) w =
    let (f, fs) = AllFit-++ (meant t) (meant_all ts) fit in
    let (w₁, ws) = and_true (is_whole t) w in
    let (a₁, e₁, idle₁, o₁) = turn-Goes t ts a idle f head w₁ in
    let (a₂, e₂, o₂) = turns_lem ts a₁ idle₁ fs heads ws in
    (
      a₂,
      e₁ ∙ e₂,
      o₂
          ∙ rw o₁ (append_assoc a.out (encode_all (meant t)) (encode_all (meant_all ts)))
          ∙ ap (◌++◌ a.out) (sym (encode_all-++ (meant t) (meant_all ts))),
    )

turns-short :
    (ts : List ArmTurn) (a : ArmSide)
    → a.between ≡ false
    → AllFit (meant_all ts)
    → AllHeadsGo ts
    → all_whole ts ≡ false
    → arm_steps (steps_of ts) a ≡ assert_failed
turns-short [] a idle fit heads w = absurd (ground arith)
turns-short (t ∷ ts) a idle fit (head, heads) w = elim (Bool-cases (is_whole t)) [
  | inr short ↦ turn-short t ts a idle short
  | inl whole ↦
      let (f, fs) = AllFit-++ (meant t) (meant_all ts) fit in
      let (a₁, e₁, idle₁, o₁) = turn-Goes t ts a idle f head whole in
      e₁ ∙ turns-short ts a₁ idle₁ fs heads (rw whole at w)
]

module _ {Picture : Type 0} (decode : List ℕ → Picture) (so : Socket) (pending : so.State → List ℕ)
    (stream : IsStream so pending) where
  -- Where no answer comes between the two calls of `send` for a picture, which nothing in the
  -- program makes sure of; where the call for a picture's size, which is not asserted, takes its
  -- four bytes; and where each picture that is meant to go out has 1 to 130272 bytes and each
  -- answer 32 bits: if one of the asserted calls takes fewer bytes than it is given, the arm's
  -- program is stopped. Else it sends every such picture and every answer, and however a TCP stream
  -- cuts the bytes, and in whatever order the other program's thread reads and that program looks,
  -- asks and closes the stream, with a packet for each round that the thread begins, what the
  -- program sees is what it would see if each round took one whole packet, each picture and state
  -- one that the arm has sent, or the one before the first. 130272 rounds for each read are enough.
  pub arm_steps-looks_at :
      (ts : List ArmTurn) (cam : Shot) (fuel : ℕ) (es : List StreamEvent)
      (s : VideoStream decode so)
      → AllFit (meant_all ts)
      → AllHeadsGo ts
      → max_read ≤ fuel
      → pending s.socket ≡ bytes_out (arm_steps (steps_of ts) (fresh cam))
      → reads es s.connected ≤ length (meant_all ts)
      → ((all_whole ts ≡ false) × (arm_steps (steps_of ts) (fresh cam) ≡ assert_failed))
        ⊎ ((all_whole ts ≡ true)
            × (a' : ArmSide) × (s' : VideoStream decode so) × (arm_steps (steps_of ts) (fresh cam)
                ≡ done a')
            × (stream_run decode so fuel es s ≡ done s')
            × (s'.looks ≡ s.looks ++ looks_at decode es s.connected (meant_all ts) s.viewer)
            × All
                (Sent decode s.viewer (meant_all ts))
                (looks_at decode es s.connected (meant_all ts) s.viewer))
  arm_steps-looks_at ts cam fuel es s fit heads enough under_way n =
      elim (Bool-cases (all_whole ts)) [
        | inr short ↦ inl (short, turns-short ts (fresh cam) refl fit heads short)
        | inl whole ↦
            let (a', sent, out) = turns_lem ts (fresh cam) refl fit heads whole in
            let p : pending s.socket ≡ encode_all (meant_all ts) ++ [] =
              (rw sent at under_way) ∙ out ∙ sym (append-nil (encode_all (meant_all ts))) in
            let (s', e, l, each) =
              stream_run-looks_at decode so pending stream fuel es (meant_all ts) [] s fit enough p
                n in
            inr (whole, a', s', sent, e, l, each)
      ]
