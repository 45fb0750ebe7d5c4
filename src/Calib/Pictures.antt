-- ===== src/Calib/Pictures.antt =====
-- The pictures that the calibrations of Calib/Capture get.
use robot_arm.Base.{
  ℕ, suc, ◌≤◌, ◌<◌, ◌≡◌, ◌≢◌, refl, inl, inr, leb, Bool, true, false, not, ◌&&◌, ◌==◌, Option, none,
  some, List, [], ◌∷◌, ℤ, pos, ◌-ℤ◌, if◌then◌else◌, length, length-append, All, All-append, arith,
  Bool-cases, leb→le, and_true,
}
use robot_arm.Floats.{Floats}
use robot_arm.Ws.Run.{Run, done}
use robot_arm.Calib.{Constants, Settings, not_existing}
use robot_arm.Calib.Errors.{Opencv}
use robot_arm.Calib.Solved.{ForEachView, run_calibration_lem}
use robot_arm.Calib.Capture.{
  detection, calibrated, is_calibrated, is_capturing, size_of_int, Session, Next, again, stop,
  Pictures, Round, finish, run_calibration_and_save, after, capture, find_pattern, is_late,
  await_input, round, rounds, begin, calibrate_camera,
}

module _ (fl : Floats) (cv : Opencv fl) where
  open cv use {Point2}

  -- At most `n` pictures are held, and each calibration so far got `n`.
  pub record Counted (n : ℕ) (t : Session fl cv) : Type 0 where
    pub held : length t.image_points ≤ n
    pub got : All (λ ps. length ps ≡ n) t.attempts

  abbrev pub session : Next fl cv → Session fl cv
  session (again t) = t
  session (stop t) = t

start : {A : Type 0} {b : Bool} {x y : A} → b ≡ true → x ≡ y → (if b then some x else none) ≡ some y
start e q = rw (e, q) refl

ended : (ok : Bool) → is_capturing (if ok then calibrated else detection) ≢ true
ended true e = cc
ended false e = cc

fewer : (on : Bool) (n m : ℕ) → on ≡ true → (on && leb n m) ≡ false → m < n
fewer on n m e f = ground arith

if_both : {A : Type 0} (P : A → Type 0) (b : Bool) {x y : A} → P x → P y → P (if b then x else y)
if_both P true p q = p
if_both P false p q = q

module _ (fl : Floats) (cv : Opencv fl) (pics : Pictures fl cv) (law : ForEachView fl cv)
    (cs : Constants) (s : Settings fl) (w h : ℕ)
    (is_size : s.board_size ≡ record { width = pos (suc w); height = pos (suc h) })
    (known : s.calibration_pattern ≢ not_existing) (some_frames : 0 < size_of_int s.nr_frames) where
  open cv use {Point2}

  abbrev wanted : ℕ
  wanted = size_of_int s.nr_frames

  finish_lem :
      (g : fl.Float) (t : Session fl cv)
      → Counted fl cv wanted t
      → (t' : Session fl cv) × (finish fl cv cs s g t ≡ done t')
        × Counted fl cv wanted t'
        × (is_capturing t'.mode ≡ true → length t'.image_points < wanted)
  unfolding finish run_calibration_and_save
  finish_lem g t c = elim (Bool-cases (is_capturing t.mode && leb wanted (length t.image_points))) [
    | inl enough ↦
        let (k, e, l) =
          run_calibration_lem fl cv law cs s w h is_size known t.image_size t.image_points g
            false in
        let (on, reached) = and_true (is_capturing t.mode) enough in
        let exact : length t.image_points ≡ wanted =
          omega (arith, c.held, leb→le wanted (length t.image_points) reached) in
        rw (enough, e)
          (
            _,
            refl,
            record { held = c.held; got = All-append _ t.attempts _ c.got (exact, tt) },
            λ q. absurd (ended k.ok q),
          )
    | inr more ↦
        rw more
          (t, refl, c, λ on. fewer (is_capturing t.mode) wanted (length t.image_points) on more)
  ]

  capture_lem :
      (r : Round fl cv pics) (found : Option (List Point2)) (t : Session fl cv)
      → Counted fl cv wanted t
      → (is_capturing t.mode ≡ true → length t.image_points < wanted)
      → Counted fl cv wanted (capture fl cv pics s r found t)
  unfolding capture
  capture_lem r none t c room = c
  capture_lem r (some ps) t c room = elim (Bool-cases (is_capturing t.mode)) [
    | inl on ↦ elim (Bool-cases (is_late fl cv pics s r.clock t.prev_timestamp)) [
      | inl late ↦
          rw (on, late)
            (record {
              held = rw (length-append t.image_points (ps ∷ [])) (omega (arith, room on));
              got = c.got;
            })
      | inr early ↦ rw (on, early) c
    ]
    | inr off ↦ rw off c
  ]

  await_input_lem :
      (key : ℕ) (t : Session fl cv)
      → Counted fl cv wanted t
      → Counted fl cv wanted (session fl cv (await_input fl cv pics key t))
  unfolding await_input
  await_input_lem key t c =
      let shown =
        if (key == 117) && is_calibrated t.mode
        then record t { show_undistorted = not t.show_undistorted }
        else t in
      let c₁ : Counted fl cv wanted shown =
        if_both (Counted fl cv wanted) ((key == 117) && is_calibrated t.mode)
          (record { held = c.held; got = c.got }) c in
      let c₂ =
        if_both (Counted fl cv wanted) (key == 103) (record { held = omega arith; got = c₁.got })
          c₁ in
      if_both (λ n. Counted fl cv wanted (session fl cv n)) (key == 27) c c₂

  round_lem :
      (win : ℤ) (g : fl.Float) (r : Round fl cv pics) (t : Session fl cv)
      → Counted fl cv wanted t
      → (n : Next fl cv) × (round fl cv pics cs s win g r t ≡ done n)
        × Counted fl cv wanted (session fl cv n)
  unfolding round
  round_lem win g r t c = elim (Bool-cases (pics.is_empty r.view)) [
    | inl empty ↦ rw empty (again t, refl, c)
    | inr seen ↦
        let (t₁, e, c₁, room) = finish_lem g t c in
        let view = if s.flip_vertical then pics.flip r.view else r.view in
        let sized = record t₁ { image_size = pics.size r.view } in
        let found = find_pattern fl cv pics s win view in
        rw (seen, e)
          (
            _,
            refl,
            await_input_lem r.key (capture fl cv pics s r found sized)
                (capture_lem r found sized (record { held = c₁.held; got = c₁.got }) room),
          )
  ]

  after_lem :
      (k : Session fl cv → Run (Next fl cv))
      → ((t : Session fl cv)
          → Counted fl cv wanted t
          → (n : Next fl cv) × (k t ≡ done n) × Counted fl cv wanted (session fl cv n))
      → (n : Next fl cv) → Counted fl cv wanted (session fl cv n)
      → (n' : Next fl cv) × (after fl cv pics k n ≡ done n')
        × Counted fl cv wanted (session fl cv n')
  after_lem k f (again t) c = f t c
  after_lem k f (stop t) c = (stop t, refl, c)

  rounds_lem :
      (win : ℤ) (g : fl.Float) (rs : List (Round fl cv pics)) (t : Session fl cv)
      → Counted fl cv wanted t
      → (n : Next fl cv) × (rounds fl cv pics cs s win g rs t ≡ done n)
        × Counted fl cv wanted (session fl cv n)
  unfolding rounds
  rounds_lem win g [] t c = (again t, refl, c)
  rounds_lem win g (r ∷ rs) t c =
      let (n, e, c₁) = round_lem win g r t c in
      rw e (after_lem (rounds fl cv pics cs s win g rs) (λ t'. rounds_lem win g rs t') n c₁)

  -- For a board with at least one row and one column, a known pattern and at least one frame wanted,
  -- and with a pair of vectors for each view from OpenCV's calibrations: however many pictures come
  -- and whatever keys are pressed, the loop never uses an index out of range, never holds more
  -- pictures with the pattern than wanted, and each calibration it has made got as many as wanted.
  pub calibrate_camera-Counted :
      (win : ℤ) (rs : List (Round fl cv pics))
      → s.good_input ≡ true
      → (n : Next fl cv) × (calibrate_camera fl cv pics cs s win rs ≡ some (done n))
        × Counted fl cv wanted (session fl cv n)
  unfolding calibrate_camera begin
  calibrate_camera-Counted win rs good =
      let g = fl.mul s.square_size (fl.of_int (s.board_size.width -ℤ pos 1)) in
      let (n, e, c) =
        rounds_lem win g rs (begin fl cv pics s) (record { held = omega arith; got = tt }) in
      (n, start good e, c)
