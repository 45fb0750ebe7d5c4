-- ===== src/Viewer/Served.antt =====
-- The viewer (Viewer/Watch) at one end of the TCP link and the arm's `servo_ctl_thread` (Grab) at the
-- other.
use robot_arm.Base.{
  ℕ, ◌<◌, ◌≤◌, ◌≡◌, refl, sym, ap, ◌∙◌, inl, inr, List, [], ◌∷◌, ◌++◌, map, ℤ, All, Bool-cases,
  eqb_ℤ, if◌then◌else◌,
}
use mathlib.Core.List.{append_assoc}
use mathlib.Core.Path.{subst}
use robot_arm.Floats.{Floats}
use robot_arm.Ws.Run.{done, ◌>>=◌}
use robot_arm.Tcp.{Socket, IsStream, send_int}
use robot_arm.Detect.{Vision}
use robot_arm.Detect.Track.{postprocess}
use robot_arm.Detect.Kept.{KeepsIndices}
use robot_arm.Detect.Whole.{FindsPlace}
use robot_arm.Grab.{Arm, servo_ctl_rounds}
use robot_arm.Grab.Messages.{
  send_point, Exchange, IsExchange, send_all, serve_all, servo_ctl_rounds-serve_all,
}
use robot_arm.Viewer.{Mats}
use robot_arm.Viewer.Watch.{Eyes, Intrinsics, Watch, Glance, key_escape, watch}
use robot_arm.Viewer.Points.{
  Saying, says_face, says_object, says_offset, point_of, flatten, Aim, aim_of, sighted, face_answer,
  object_said, SaysObject, Says, IsSight, IsReady,
}
use robot_arm.Viewer.Sent.{watch-Says}

-- The bytes of the integers that are sent.
abbrev pub send_ints : List ℤ → List ℕ
send_ints [] = []
send_ints (x ∷ xs) = send_int x ++ send_ints xs

-- The object, the offset and the face of each exchange.
abbrev pub in_turn : List Exchange → List Saying
in_turn [] = []
in_turn (e ∷ es) = says_object e.object ∷ says_offset e.offset ∷ says_face e.face ∷ in_turn es

send_point_lem :
    (p : Saying) (ps : List Saying) (rest : List ℕ)
    → send_ints (flatten (p ∷ ps)) ++ rest
      ≡ send_point (point_of p) (send_ints (flatten ps) ++ rest)
send_point_lem p ps rest = simp append_assoc

send_ints-in_turn :
    (es : List Exchange) (rest : List ℕ)
    → send_ints (flatten (in_turn es)) ++ rest ≡ send_all es rest
send_ints-in_turn [] rest = refl
send_ints-in_turn (e ∷ es) rest =
    let later = in_turn es in
    let third = says_face e.face ∷ later in
    send_point_lem (says_object e.object) (says_offset e.offset ∷ third) rest
    ∙ ap (send_point e.object) (
        send_point_lem (says_offset e.offset) third rest
        ∙ ap (send_point e.offset) (
            send_point_lem (says_face e.face) later rest
            ∙ ap (send_point e.face) (send_ints-in_turn es rest)))

done-injective : {A : Type 0} (a b : A) → done a ≡ done b → a ≡ b
done-injective a b e = cc

module _ (fl : Floats) (ms : Mats fl) (cv : Vision fl) (eyes : Eyes fl ms cv) where
  open eyes use {is_empty, find_corners, forward}

  Aim-same :
      (v v' : Aim fl ms cv eyes)
      → v.found ≡ v'.found
      → v.trans ≡ v'.trans
      → v.track ≡ v'.track
      → v ≡ v'
  Aim-same v v' f t k = cc

  SaysObject-once :
      (cam : Intrinsics fl ms cv) (g : Glance fl ms cv eyes) (here v v' : Aim fl ms cv eyes)
      (os os' : List Saying)
      → SaysObject fl ms cv eyes cam g here v os
      → SaysObject fl ms cv eyes cam g here v' os'
      → (v ≡ v') × (os ≡ os')
  SaysObject-once cam g here v v' os os' (f, t, h) (f', t', h') = elim (Bool-cases here.found) [
    | inl seen ↦
        let (cols, rows, outs) = forward g.picture in
        let (d, o) : (postprocess fl cv cam.out_layers cols rows outs cam.yo here.track
              ≡ done v.track)
            × (os ≡ object_said fl ms cv eyes cam g v) =
          rw seen at h in
        let (d', o') : (postprocess fl cv cam.out_layers cols rows outs cam.yo here.track
              ≡ done v'.track)
            × (os' ≡ object_said fl ms cv eyes cam g v') =
          rw seen at h' in
        let track = done-injective v.track v'.track (sym d ∙ d') in
        let same = Aim-same v v' (f ∙ sym f') (t ∙ sym t') track in
        (same, o ∙ ap (object_said fl ms cv eyes cam g) same ∙ sym o')
    | inr unseen ↦
        let (k, o) : (v.track ≡ here.track) × (os ≡ []) = rw unseen at h in
        let (k', o') : (v'.track ≡ here.track) × (os' ≡ []) = rw unseen at h' in
        (Aim-same v v' (f ∙ sym f') (t ∙ sym t') (k ∙ sym k'), o ∙ sym o')
  ]

  -- What a round with a picture says, and those behind it.
  abbrev SaysRound :
      Intrinsics fl ms cv
      → Glance fl ms cv eyes
      → List (Glance fl ms cv eyes)
      → Aim fl ms cv eyes
      → List Saying
      → Type 0
  SaysRound cam g gs v ps =
      (v' : Aim fl ms cv eyes) × (os rest : List Saying) × (ps
        ≡ face_answer fl ms cv eyes cam g ++ (os ++ rest))
      × SaysObject fl ms cv eyes cam g (sighted fl ms cv eyes cam (find_corners g.picture) v) v' os
      × (if eqb_ℤ g.last_key key_escape then rest ≡ [] else Says fl ms cv eyes cam gs v' rest)

  -- The rounds say only one thing.
  Says-once :
      (cam : Intrinsics fl ms cv) (gs : List (Glance fl ms cv eyes)) (v : Aim fl ms cv eyes)
      (ps ps' : List Saying)
      → Says fl ms cv eyes cam gs v ps
      → Says fl ms cv eyes cam gs v ps'
      → ps ≡ ps'
  Says-once cam [] v ps ps' h h' = h ∙ sym h'
  Says-once cam (g ∷ gs) v ps ps' h h' = elim (Bool-cases (is_empty g.picture)) [
    | inl none_yet ↦ Says-once cam gs v ps ps' (rw none_yet at h) (rw none_yet at h')
    | inr some_picture ↦
        let h₁ : SaysRound cam g gs v ps = rw some_picture at h in
        let h₂ : SaysRound cam g gs v ps' = rw some_picture at h' in
        let (u, os, rest, e, o, l) = h₁ in
        let (u', os', rest', e', o', l') = h₂ in
        let (same, said) =
          SaysObject-once cam g (sighted fl ms cv eyes cam (find_corners g.picture) v) u u' os os' o
            o' in
        let end : rest ≡ rest' = elim (Bool-cases (eqb_ℤ g.last_key key_escape)) [
          | inl quit ↦
              let r : rest ≡ [] = rw quit at l in let r' : rest' ≡ [] = rw quit at l' in r ∙ sym r'
          | inr go_on ↦
              let r : Says fl ms cv eyes cam gs u rest = rw go_on at l in
              let r' : Says fl ms cv eyes cam gs u' rest' = rw go_on at l' in
              Says-once cam gs u' rest rest' (subst (λ z. Says fl ms cv eyes cam gs z rest) same r)
                r'
        ] in
        e ∙ rw (said, end) (sym e')
  ]

module _ (fl : Floats) (ms : Mats fl) (cv : Vision fl) (eyes : Eyes fl ms cv)
    (places : FindsPlace fl cv) (indices : KeepsIndices fl cv) (so : Socket)
    (pending : so.State → List ℕ) (stream : IsStream so pending) where
  -- On the bytes of a whole run of the viewer, whose rounds say in turn an object with its offset and
  -- then a face, with integers of 32 bits: the arm's loop serves in order just these objects,
  -- offsets and faces, each as what the viewer meant it for, however TCP cuts the bytes. The viewer's
  -- pictures are as for the points it sends, and 4 rounds are enough for the arm to read an integer.
  pub watch-serve_all :
      (cam : Intrinsics fl ms cv) (gs : List (Glance fl ms cv eyes)) (n : ℕ) (w w' : Watch fl ms cv)
      (upper tip : fl.Float) (fuel : ℕ) (es : List Exchange) (rest : List ℕ) (a : Arm fl)
      (s : so.State)
      → 0 < n
      → All (IsSight fl ms cv eyes n) gs
      → IsReady fl ms cv eyes n w
      → w.sent ≡ []
      → watch fl ms cv eyes cam gs w ≡ done w'
      → Says fl ms cv eyes cam gs (aim_of fl ms cv eyes w) (in_turn es)
      → All IsExchange es
      → 4 ≤ fuel
      → pending s ≡ send_ints w'.sent ++ rest
      → (s' : so.State) × (servo_ctl_rounds fl so upper tip fuel (map (λ e. e.search_rounds) es) a s
          ≡ (serve_all fl upper tip es a >>= λ a'. done (a', s')))
        × (pending s' ≡ rest)
  watch-serve_all cam gs n w w' upper tip fuel es rest a s l sights r start e meant fits enough q =
      let (w₁, ps, e₁, sent, says) =
        watch-Says fl ms cv eyes places indices cam gs n w l sights r in
      let one = Says-once fl ms cv eyes cam gs _ ps (in_turn es) says meant in
      let same : w'.sent ≡ flatten (in_turn es) =
        ap (λ (v : Watch fl ms cv). v.sent) (done-injective w' w₁ (sym e ∙ e₁))
        ∙ sent
        ∙ ap (λ (xs : List ℤ). xs ++ flatten ps) start
        ∙ ap flatten one in
      servo_ctl_rounds-serve_all fl so pending stream upper tip fuel es rest a s fits enough
        (q ∙ ap (λ (xs : List ℤ). send_ints xs ++ rest) same ∙ send_ints-in_turn es rest)
