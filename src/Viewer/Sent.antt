-- ===== src/Viewer/Sent.antt =====
-- What the viewer's loop (Viewer/Watch) sends to the arm, as points.
use robot_arm.Base.{
  ℕ, ◌<◌, ◌≤◌, ◌≡◌, refl, sym, ap, ◌∙◌, ◌⊎◌, inl, inr, Option, none, some, List, [], ◌∷◌, ◌++◌, ℤ,
  eqb_ℤ, length, All, Bool-cases,
}
use mathlib.Core.Path.{subst}
use mathlib.Core.List.{append_assoc, append-nil}
use robot_arm.Floats.{Floats}
use robot_arm.Ws.Run.{done}
use robot_arm.Detect.{Vision}
use robot_arm.Detect.Track.{postprocess}
use robot_arm.Detect.Kept.{KeepsIndices}
use robot_arm.Detect.Whole.{FindsPlace, postprocess-Follows}
use robot_arm.Viewer.{Mats}
use robot_arm.Viewer.Watch.{
  Eyes, Intrinsics, Watch, Glance, key_e, key_escape, ints_of, world_of, look_at_board, point_out,
  follow_object, look_for_object, watch_round, watch,
}
use robot_arm.Viewer.Points.{
  flatten, flatten-append, if_true, if_false, face_answer, Saying, aim_of, sighted, object_said,
  SaysObject, Says, IsSight, IsReady, look_at_face_lem,
}

module _ (fl : Floats) (ms : Mats fl) (cv : Vision fl) (eyes : Eyes fl ms cv) where
  open fl use {Double, to_int_d}
  open ms use {Mat, at}
  open eyes use {Picture, Face, is_empty, detector, solve_pnp, find_corners, forward}

  -- What is kept of a round behind the network, with the points of the object.
  follow_lem :
      FindsPlace fl cv
      → KeepsIndices fl cv
      → (cam : Intrinsics fl ms cv) (g : Glance fl ms cv eyes) (n : ℕ) (w : Watch fl ms cv) → 0 < n
      → IsSight fl ms cv eyes n g
      → IsReady fl ms cv eyes n w
      → (w' : Watch fl ms cv) × (follow_object fl ms cv eyes cam g w ≡ done w')
        × IsReady fl ms cv eyes n w'
        × (w'.sent ≡ w.sent ++ flatten (object_said fl ms cv eyes cam g (aim_of fl ms cv eyes w')))
        × (w'.found ≡ w.found)
        × (w'.trans ≡ w.trans)
        × (postprocess fl cv cam.out_layers
              (forward g.picture).0
              (forward g.picture).1
              (forward g.picture).2
              cam.yo
              w.track
            ≡ done w'.track)
  unfolding follow_object point_out world_of ints_of
  follow_lem places indices cam g n w l (outs, e, shaped) r =
      let size = forward g.picture in
      let (_, _, t, _, _, _, f, follows) =
        postprocess-Follows fl cv places indices cam.out_layers size.0 size.1 n outs cam.yo w.track
          l shaped r.classes in
      let known : n ≤ length t.classes = rw follows.classes r.classes in
      let w₁ : Watch fl ms cv = record w { track = t } in
      elim (Bool-cases t.in_frame) [
        | inr away ↦
            rw (e, f, away)
              (
                w₁,
                refl,
                record { empty = r.empty; classes = known },
                rw away (sym (append-nil w.sent)),
                refl,
                refl,
                refl,
              )
        | inl here ↦
            let w₂ = point_out fl ms cv eyes cam g w₁ in
            let ready : IsReady fl ms cv eyes n w₂ = record { empty = r.empty; classes = known } in
            elim (Bool-cases (eqb_ℤ g.key key_e)) [
              | inl e_key ↦
                  rw (e, f, here) (w₂, refl, ready, rw (here, e_key) refl, refl, refl, refl)
              | inr other ↦
                  rw (e, f, here)
                    (w₂, refl, ready, rw (here, other) (sym (append-nil w.sent)), refl, refl, refl)
            ]
      ]

  Option-cases : {A : Type 0} (o : Option A) → (o ≡ none) ⊎ ((a : A) × (o ≡ some a))
  Option-cases none = inl refl
  Option-cases (some a) = inr (a, refl)

  look_at_board_lem :
      (cam : Intrinsics fl ms cv) (g : Glance fl ms cv eyes) (n : ℕ) (w : Watch fl ms cv)
      → IsReady fl ms cv eyes n w
      → IsReady fl ms cv eyes n (look_at_board fl ms cv eyes cam g w)
        × ((look_at_board fl ms cv eyes cam g w).sent ≡ w.sent)
        × (aim_of fl ms cv eyes (look_at_board fl ms cv eyes cam g w)
            ≡ sighted fl ms cv eyes cam (find_corners g.picture) (aim_of fl ms cv eyes w))
  unfolding look_at_board
  look_at_board_lem cam g n w r = elim (Option-cases (find_corners g.picture)) [
    | inl no_board ↦ rw (look_at_board, no_board) (r, refl, refl)
    | inr (c, board) ↦
        rw (look_at_board, board) (record { empty = r.empty; classes = r.classes }, refl, refl)
  ]

  object_lem :
      FindsPlace fl cv
      → KeepsIndices fl cv
      → (cam : Intrinsics fl ms cv) (g : Glance fl ms cv eyes) (n : ℕ) (w : Watch fl ms cv) → 0 < n
      → IsSight fl ms cv eyes n g
      → IsReady fl ms cv eyes n w
      → (w' : Watch fl ms cv) × (os : List Saying) × (look_for_object fl ms cv eyes cam g w
          ≡ done w')
        × IsReady fl ms cv eyes n w'
        × (w'.sent ≡ w.sent ++ flatten os)
        × SaysObject fl ms cv eyes cam g (aim_of fl ms cv eyes w) (aim_of fl ms cv eyes w') os
  unfolding look_for_object
  object_lem places indices cam g n w l sight r = elim (Bool-cases w.found) [
    | inr none_yet ↦ (
      w,
      [],
      if_false _ (done w) none_yet,
      r,
      sym (append-nil w.sent),
      (refl, refl, rw none_yet (refl, refl)),
    )
    | inl found ↦
        let (w', f, ready, sent, same, pose, follows) =
          follow_lem places indices cam g n w l sight r in
        (
          w',
          object_said fl ms cv eyes cam g (aim_of fl ms cv eyes w'),
          if_true _ (done w) found ∙ f,
          ready,
          sent,
          (same, pose, rw found (follows, refl)),
        )
  ]

module _ (fl : Floats) (ms : Mats fl) (cv : Vision fl) (eyes : Eyes fl ms cv)
    (places : FindsPlace fl cv) (indices : KeepsIndices fl cv) where
  open eyes use {is_empty, find_corners}

  watch_round_lem :
      (cam : Intrinsics fl ms cv) (g : Glance fl ms cv eyes) (n : ℕ) (w : Watch fl ms cv)
      → 0 < n
      → IsSight fl ms cv eyes n g
      → IsReady fl ms cv eyes n w
      → (w' : Watch fl ms cv) × (os : List Saying) × (watch_round fl ms cv eyes cam g w ≡ done w')
        × IsReady fl ms cv eyes n w'
        × (w'.sent ≡ w.sent ++ flatten (face_answer fl ms cv eyes cam g ++ os))
        × SaysObject fl ms cv eyes cam g
            (sighted fl ms cv eyes cam (find_corners g.picture) (aim_of fl ms cv eyes w))
            (aim_of fl ms cv eyes w')
            os
  unfolding watch_round
  watch_round_lem cam g n w l sight r =
      let (w₁, e₁, r₁, s₁, a₁) = look_at_face_lem fl ms cv eyes cam g n w r in
      let (r₂, s₂, a₂) = look_at_board_lem fl ms cv eyes cam g n w₁ r₁ in
      let w₂ = look_at_board fl ms cv eyes cam g w₁ in
      let (w₃, os, e₃, r₃, s₃, o) = object_lem fl ms cv eyes places indices cam g n w₂ l sight r₂ in
      let face = face_answer fl ms cv eyes cam g in
      (
        w₃,
        os,
        rw e₁ e₃,
        r₃,
        s₃
            ∙ ap (λ (xs : List ℤ). xs ++ flatten os) (s₂ ∙ s₁)
            ∙ append_assoc w.sent (flatten face) (flatten os)
            ∙ ap (◌++◌ w.sent) (sym (flatten-append face os)),
        subst (λ v. SaysObject fl ms cv eyes cam g v (aim_of fl ms cv eyes w₃) os)
            (a₂ ∙ ap (sighted fl ms cv eyes cam (find_corners g.picture)) a₁) o,
      )

  -- Where the network's outputs are those of "Region" layers with rows of `n` scores, `n` at least 1
  -- and at most the lines of the class file: the loop makes its rounds without a fault on any pictures,
  -- states of the arm and keys. It sends whole points, and just these: for each round up to the
  -- escape key, where empty pictures are passed over, the first face if there is one and the arm's
  -- state is -1; then, for the key e and where a board has been seen so far and the object is in the
  -- picture, the object's point on the board as it was seen last, and the board's offset.
  pub watch-Says :
      (cam : Intrinsics fl ms cv) (gs : List (Glance fl ms cv eyes)) (n : ℕ) (w : Watch fl ms cv)
      → 0 < n
      → All (IsSight fl ms cv eyes n) gs
      → IsReady fl ms cv eyes n w
      → (w' : Watch fl ms cv) × (ps : List Saying) × (watch fl ms cv eyes cam gs w ≡ done w')
        × (w'.sent ≡ w.sent ++ flatten ps)
        × Says fl ms cv eyes cam gs (aim_of fl ms cv eyes w) ps
  unfolding watch
  watch-Says cam [] n w l sights r = (w, [], refl, sym (append-nil w.sent), refl)
  watch-Says cam (g ∷ gs) n w l (sight, sights) r = elim (Bool-cases (is_empty g.picture)) [
    | inl none_yet ↦
        let (w', ps, e, s, says) = watch-Says cam gs n w l sights r in
        rw none_yet (w', ps, e, s, says)
    | inr some_picture ↦
        let (w₁, os, e₁, r₁, s₁, o) = watch_round_lem cam g n w l sight r in
        let face = face_answer fl ms cv eyes cam g in
        let (w₂, ps, e₂, s₂, says) = watch-Says cam gs n w₁ l sights r₁ in
        elim (Bool-cases (eqb_ℤ g.last_key key_escape)) [
          | inl quit ↦
              rw (some_picture, e₁, quit)
                (
                  w₁,
                  face ++ os,
                  refl,
                  s₁,
                  (_, os, [], ap (◌++◌ face) (sym (append-nil os)), o, refl),
                )
          | inr go_on ↦
              rw (some_picture, e₁, go_on)
                (
                  w₂,
                  face ++ (os ++ ps),
                  e₂,
                  s₂
                      ∙ ap (λ (xs : List ℤ). xs ++ flatten ps) s₁
                      ∙ append_assoc w.sent (flatten (face ++ os)) (flatten ps)
                      ∙ ap (◌++◌ w.sent) (
                          sym (flatten-append (face ++ os) ps)
                          ∙ ap flatten (append_assoc face os ps)),
                  (_, os, ps, refl, o, says),
                )
        ]
  ]
