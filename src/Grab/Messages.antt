-- ===== src/Grab/Messages.antt =====
-- What the rounds of `servo_ctl_thread` (Grab) make of the integers that the viewer sends.
use robot_arm.Base.{ℕ, ◌≤◌, ◌≡◌, refl, sym, ap, ◌∙◌, List, [], ◌∷◌, ◌++◌, map, All, IsI32}
use robot_arm.Floats.{Floats}
use robot_arm.Ws.Run.{Run, done, assert_failed, bad_pointer, divided_by_zero, out_of_fuel, ◌>>=◌}
use robot_arm.Tcp.{Socket, IsStream, send_int}
use robot_arm.Tcp.Reading.{read_int32_t-send_int}
use robot_arm.Grab.{
  Point, read_point, Arm, fetch, look_for, hand_over, serve, servo_ctl_round, servo_ctl_rounds,
}

-- The bytes of three integers, and of more behind them.
abbrev pub send_point : Point → List ℕ → List ℕ
send_point (x, y, z) rest = send_int x ++ (send_int y ++ (send_int z ++ rest))

abbrev pub IsPoint : Point → Type 0
IsPoint (x, y, z) = IsI32 x × IsI32 y × IsI32 z

module _ (so : Socket) (pending : so.State → List ℕ) (stream : IsStream so pending) where
  open so use {State}

  read_point-send :
      (fuel : ℕ) (p : Point) (rest : List ℕ) (s : State)
      → IsPoint p
      → 4 ≤ fuel
      → pending s ≡ send_point p rest
      → (s' : State) × (read_point so fuel s ≡ done (p, s')) × (pending s' ≡ rest)
  unfolding read_point
  read_point-send fuel (x, y, z) rest s (hx, hy, hz) enough q =
      let (s₁, e₁, q₁) =
        read_int32_t-send_int so pending stream fuel x (send_int y ++ (send_int z ++ rest)) s hx
          enough q in
      let (s₂, e₂, q₂) =
        read_int32_t-send_int so pending stream fuel y (send_int z ++ rest) s₁ hy enough q₁ in
      let (s₃, e₃, q₃) = read_int32_t-send_int so pending stream fuel z rest s₂ hz enough q₂ in
      rw (e₁, e₂, e₃) (s₃, refl, q₃)

module _ {A B C : Type 0} where
  then-then : (r : Run A) (f : A → Run B) (g : B → Run C) → (r >>= f >>= g) ≡ (r >>= λ x. f x >>= g)
  then-then (done x) f g = refl
  then-then assert_failed f g = refl
  then-then bad_pointer f g = refl
  then-then divided_by_zero f g = refl
  then-then out_of_fuel f g = refl

-- What the viewer sends for one round of the arm.
pub record Exchange : Type 0 where
  pub search_rounds : ℕ
  pub object : Point
  pub offset : Point
  pub face : Point

abbrev pub exchange : ℕ → Point → Point → Point → Exchange
exchange n object offset face = record {
  search_rounds = n;
  object = object;
  offset = offset;
  face = face;
}

abbrev pub IsExchange : Exchange → Type 0
IsExchange e = IsPoint e.object × IsPoint e.offset × IsPoint e.face

abbrev pub send_all : List Exchange → List ℕ → List ℕ
send_all [] rest = rest
send_all (e ∷ es) rest =
    send_point e.object (send_point e.offset (send_point e.face (send_all es rest)))

module _ (fl : Floats) where
  abbrev pub serve_all : fl.Float → fl.Float → List Exchange → Arm fl → Run (Arm fl)
  serve_all upper tip [] a = done a
  serve_all upper tip (e ∷ es) a =
      serve fl upper tip e.search_rounds e.object e.offset e.face a >>= serve_all upper tip es

module _ (fl : Floats) (so : Socket) (pending : so.State → List ℕ)
    (stream : IsStream so pending) where
  open so use {State}

  serve-then :
      (upper tip : fl.Float) (n : ℕ) (object offset face : Point) (a : Arm fl)
      (k : Arm fl → Run (Arm fl × State))
      → (fetch fl upper tip object a >>= λ fetched.
          look_for fl n fetched >>= λ looked. hand_over fl upper tip face offset looked >>= k)
        ≡ (serve fl upper tip n object offset face a >>= k)
  unfolding serve
  serve-then upper tip n object offset face a k =
      let hand : Arm fl → Run (Arm fl) = hand_over fl upper tip face offset in
      let inner : (λ (fetched : Arm fl). look_for fl n fetched >>= λ looked. hand looked >>= k)
          ≡ (λ fetched. look_for fl n fetched >>= hand >>= k) =
        λ i fetched. sym (then-then (look_for fl n fetched) hand k) i in
      ap (◌>>=◌ (fetch fl upper tip object a)) inner
      ∙ sym (then-then (fetch fl upper tip object a) (λ f. look_for fl n f >>= hand) k)

  -- A round on three points; where the socket ends up does not depend on the arm.
  servo_ctl_round_lem :
      (upper tip : fl.Float) (fuel : ℕ) (e : Exchange) (rest : List ℕ) (s : State)
      → IsExchange e
      → 4 ≤ fuel
      → pending s ≡ send_point e.object (send_point e.offset (send_point e.face rest))
      → (s' : State) × ((a : Arm fl)
          → servo_ctl_round fl so upper tip fuel e.search_rounds a s ≡ (
              serve fl upper tip e.search_rounds e.object e.offset e.face a >>= λ a'.
              done (a', s')))
        × (pending s' ≡ rest)
  unfolding servo_ctl_round
  servo_ctl_round_lem upper tip fuel e rest s (ho, hd, hf) enough q =
      let (s₁, e₁, q₁) =
        read_point-send so pending stream fuel e.object
          (send_point e.offset (send_point e.face rest)) s ho enough q in
      let (s₂, e₂, q₂) =
        read_point-send so pending stream fuel e.offset (send_point e.face rest) s₁ hd enough q₁ in
      let (s₃, e₃, q₃) = read_point-send so pending stream fuel e.face rest s₂ hf enough q₂ in
      (
        s₃,
        λ a.
            rw (e₁, e₂, e₃)
              (serve-then upper tip e.search_rounds e.object e.offset e.face a λ a'. done (a', s₃)),
        q₃,
      )

  servo_ctl_rounds_lem :
      (upper tip : fl.Float) (fuel : ℕ) (es : List Exchange) (rest : List ℕ) (s : State)
      → All IsExchange es
      → 4 ≤ fuel
      → pending s ≡ send_all es rest
      → (s' : State) × ((a : Arm fl)
          → servo_ctl_rounds fl so upper tip fuel (map (λ e. e.search_rounds) es) a s
            ≡ (serve_all fl upper tip es a >>= λ a'. done (a', s')))
        × (pending s' ≡ rest)
  unfolding servo_ctl_rounds
  servo_ctl_rounds_lem upper tip fuel [] rest s h enough q = (s, λ a. refl, q)
  servo_ctl_rounds_lem upper tip fuel (e ∷ es) rest s (h, hs) enough q =
      let (s₁, f, q₁) = servo_ctl_round_lem upper tip fuel e (send_all es rest) s h enough q in
      let (s₂, g, q₂) = servo_ctl_rounds_lem upper tip fuel es rest s₁ hs enough q₁ in
      let served : Arm fl → Run (Arm fl) =
        serve fl upper tip e.search_rounds e.object e.offset e.face in
      let left : Arm fl → Run (Arm fl × State) = λ a'. done (a', s₂) in
      let on : Arm fl × State → Run (Arm fl × State) =
        λ p. servo_ctl_rounds fl so upper tip fuel (map (λ e'. e'.search_rounds) es) p.0 p.1 in
      let same : (λ (a' : Arm fl). on (a', s₁)) ≡ (λ a'. serve_all fl upper tip es a' >>= left) =
        λ i a'. g a' i in
      (
        s₂,
        λ a.
            ap (λ r. r >>= on) (f a)
            ∙ then-then (served a) (λ a'. done (a', s₁)) on
            ∙ ap (◌>>=◌ (served a)) same
            ∙ sym (then-then (served a) (serve_all fl upper tip es) left),
        q₂,
      )

  -- However TCP cuts the bytes, the loop takes the points that were sent three at a time, for an
  -- object, an offset and a face, serves them in order, and leaves what follows; 4 rounds are enough
  -- for each integer.
  pub servo_ctl_rounds-serve_all :
      (upper tip : fl.Float) (fuel : ℕ) (es : List Exchange) (rest : List ℕ) (a : Arm fl)
      (s : State)
      → All IsExchange es
      → 4 ≤ fuel
      → pending s ≡ send_all es rest
      → (s' : State) × (servo_ctl_rounds fl so upper tip fuel (map (λ e. e.search_rounds) es) a s
          ≡ (serve_all fl upper tip es a >>= λ a'. done (a', s')))
        × (pending s' ≡ rest)
  servo_ctl_rounds-serve_all upper tip fuel es rest a s h enough q =
      let (s', f, p) = servo_ctl_rounds_lem upper tip fuel es rest s h enough q in (s', f a, p)

  -- If the viewer sends two faces for one object, then the next object and its offset, the second
  -- round takes the second face for the object, the object for the offset and the offset for the face.
  second_face-object :
      (upper tip : fl.Float) (fuel n m : ℕ) (object offset face again object' offset' : Point)
      (rest : List ℕ) (a : Arm fl) (s : State)
      → IsPoint object
      → IsPoint offset
      → IsPoint face
      → IsPoint again
      → IsPoint object'
      → IsPoint offset'
      → 4 ≤ fuel
      → pending s
        ≡ send_point object (
            send_point offset
              (send_point face (send_point again (send_point object' (send_point offset' rest)))))
      → (s' : State) × (servo_ctl_rounds fl so upper tip fuel (n ∷ m ∷ []) a s ≡ (
          serve_all fl upper tip
            (exchange n object offset face ∷ exchange m again object' offset' ∷ [])
            a
          >>= λ a'. done (a', s')))
        × (pending s' ≡ rest)
  second_face-object upper tip fuel n m object offset face again object' offset' rest a s ho hd hf
        ha ho' hd' enough q =
      servo_ctl_rounds-serve_all upper tip fuel
        (exchange n object offset face ∷ exchange m again object' offset' ∷ []) rest a s
        ((ho, hd, hf), ((ha, ho', hd'), tt)) enough q
