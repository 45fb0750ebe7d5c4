-- ===== src/Viewer/Points.antt =====
-- The points that a round of the viewer's loop (Viewer/Watch) sends, and its look at the faces.
use robot_arm.Base.{
  ℕ, ◌≤◌, ◌≡◌, refl, sym, ◌⊎◌, inl, inr, Bool, true, false, ◌&&◌, Option, none, some, List, [], ◌∷◌,
  ◌++◌, ℤ, pos, negsuc, eqb_ℤ, if◌then◌else◌, length, All, Bool-cases,
}
use mathlib.Core.List.{append-nil}
use robot_arm.Floats.{Floats}
use robot_arm.Ws.Run.{done}
use robot_arm.Detect.{Vision, TrackingInfo}
use robot_arm.Detect.Track.{regions, postprocess}
use robot_arm.Detect.Whole.{Shaped}
use robot_arm.Grab.{Point}
use robot_arm.Viewer.{Mats}
use robot_arm.Viewer.Homo.{HomoTransform, get_homo_transform, inverse_project_point, face_3d}
use robot_arm.Viewer.Watch.{
  Eyes, Intrinsics, Watch, Glance, key_e, key_escape, ints_of, face_points, look_at_face,
  board_rows,
}

-- A point that the viewer sends, and what it means by it.
pub data Saying : Type 0 where
  says_face says_object says_offset : Point → Saying

abbrev pub point_of : Saying → Point
point_of (says_face p) = p
point_of (says_object p) = p
point_of (says_offset p) = p

-- The integers that are sent.
abbrev pub flatten : List Saying → List ℤ
flatten [] = []
flatten (s ∷ ss) = let (x, y, z) = point_of s in x ∷ y ∷ z ∷ flatten ss

pub flatten-append : (ps qs : List Saying) → flatten (ps ++ qs) ≡ flatten ps ++ flatten qs
flatten-append [] qs = refl
flatten-append (s ∷ ps) qs = rw (flatten-append ps qs) refl

pub if_true : {A : Type 0} {b : Bool} (x y : A) → b ≡ true → (if b then x else y) ≡ x
if_true x y e = rw e refl

pub if_false : {A : Type 0} {b : Bool} (x y : A) → b ≡ false → (if b then x else y) ≡ y
if_false x y e = rw e refl

pub List-cases :
    {A : Type 0} (xs : List A) → (xs ≡ []) ⊎ ((x : A) × (rest : List A) × (xs ≡ x ∷ rest))
List-cases [] = inl refl
List-cases (x ∷ xs) = inr (x, xs, refl)

module _ (fl : Floats) (ms : Mats fl) (cv : Vision fl) (eyes : Eyes fl ms cv) where
  open fl use {Double, to_int_d, of_int_d}
  open ms use {Mat, at, mul_m, scale_m, add_at}
  open eyes use {
    Picture, Face, Corners, is_empty, detector, solve_pnp, find_corners, find_homography, forward,
  }

  -- The first of the faces of a round, sent if the arm asks for it.
  abbrev pub face_said : Intrinsics fl ms cv → Glance fl ms cv eyes → List Face → List Saying
  face_said cam g [] = []
  face_said cam g (f ∷ fs) =
      let t =
        solve_pnp (face_3d fl) (face_points fl ms cv eyes g.picture f) cam.camera_matrix
          cam.dist_coeffs in
      if eqb_ℤ g.arm_state (negsuc 0)
      then says_face (to_int_d (at t 0 0), to_int_d (at t 1 0), to_int_d (at t 2 0)) ∷ []
      else []

  unfoldable pub face_answer : Intrinsics fl ms cv → Glance fl ms cv eyes → List Saying
  face_answer cam g = face_said cam g (detector g.picture)

  -- What the rounds keep of the board and of the object.
  pub record Aim : Type 0 where
    pub found : Bool
    pub trans : HomoTransform fl ms
    pub track : TrackingInfo fl cv

  abbrev pub aim_of : Watch fl ms cv → Aim
  aim_of w = record { found = w.found; trans = w.trans; track = w.track }

  -- The pose of the board in the picture, lifted by 20 along its second axis, if the board is seen.
  abbrev pub sighted : Intrinsics fl ms cv → Option Corners → Aim → Aim
  sighted cam none v = v
  sighted cam (some corners) v =
      let t =
        get_homo_transform fl ms
          (find_homography (board_rows fl ms cv 3 0) corners cam.camera_matrix cam.dist_coeffs) in
      record v { found = true; trans = record t { tvec = add_at t.tvec 1 (of_int_d (pos 20)) } }

  abbrev pub triple : Mat → Point
  triple m = (to_int_d (at m 0 0), to_int_d (at m 1 0), to_int_d (at m 2 0))

  -- For the key e, where the object is in the picture: the point of the board under its base, then
  -- the board's origin as the arm has it.
  abbrev pub object_said : Intrinsics fl ms cv → Glance fl ms cv eyes → Aim → List Saying
  object_said cam g v =
      let p = inverse_project_point fl ms v.track.base cam.camera_matrix v.trans in
      if v.track.in_frame && eqb_ℤ g.key key_e
      then says_object (to_int_d p.x, to_int_d p.y, to_int_d p.z)
        ∷ says_offset (triple (scale_m (of_int_d (negsuc 0)) (mul_m v.trans.rotation v.trans.tvec)))
        ∷ []
      else []

  -- A round that has looked for the board, with `here`, and then keeps `v'`: where no board has been
  -- seen it says nothing of the object, else what the network's outputs give.
  abbrev pub SaysObject :
      Intrinsics fl ms cv → Glance fl ms cv eyes → Aim → Aim → List Saying → Type 0
  SaysObject cam g here v' os =
      let (cols, rows, outs) = forward g.picture in
      (v'.found ≡ here.found)
      × (v'.trans ≡ here.trans)
      × (if here.found
          then (postprocess fl cv cam.out_layers cols rows outs cam.yo here.track ≡ done v'.track)
            × (os ≡ object_said cam g v')
          else (v'.track ≡ here.track) × (os ≡ []))

  -- What is said in the rounds up to the escape key, empty pictures passed over: in each the face that
  -- the arm asks for, then the object and the offset.
  abbrev pub Says : Intrinsics fl ms cv → List (Glance fl ms cv eyes) → Aim → List Saying → Type 0
  Says cam [] v ps = ps ≡ []
  Says cam (g ∷ gs) v ps =
      let later = Says cam gs in
      if is_empty g.picture
      then later v ps
      else (v' : Aim) × (os rest : List Saying) × (ps ≡ face_answer cam g ++ (os ++ rest))
        × SaysObject cam g (sighted cam (find_corners g.picture) v) v' os
        × (if eqb_ℤ g.last_key key_escape then rest ≡ [] else later v' rest)

  -- The network sees rows of `n` scores in the picture.
  abbrev pub IsSight : ℕ → Glance fl ms cv eyes → Type 0
  IsSight n g =
      (outs : List (List (List fl.Float))) × ((forward g.picture).2 ≡ regions outs)
      × All (Shaped fl cv n) outs

  -- The variables between two rounds.
  pub record IsReady (n : ℕ) (w : Watch fl ms cv) : Type 0 where
    pub empty : w.facepoints ≡ []
    pub classes : n ≤ length w.track.classes

  pub look_at_face_lem :
      (cam : Intrinsics fl ms cv) (g : Glance fl ms cv eyes) (n : ℕ) (w : Watch fl ms cv)
      → IsReady n w
      → (w' : Watch fl ms cv) × (look_at_face fl ms cv eyes cam g w ≡ done w')
        × IsReady n w'
        × (w'.sent ≡ w.sent ++ flatten (face_answer cam g))
        × (aim_of w' ≡ aim_of w)
  unfolding face_answer look_at_face face_3d face_points ints_of
  look_at_face_lem cam g n w r = elim (List-cases (detector g.picture)) [
    | inl nobody ↦ rw (look_at_face, face_said, nobody) (w, refl, r, sym (append-nil w.sent), refl)
    | inr (f, fs, someone) ↦
        let t =
          solve_pnp (face_3d fl) (face_points fl ms cv eyes g.picture f) cam.camera_matrix
            cam.dist_coeffs in
        let ready : (sent : List ℤ) → IsReady n (record w { sent = sent; facepoints = [] }) =
          λ sent. record { empty = refl; classes = r.classes } in
        elim (Bool-cases (eqb_ℤ g.arm_state (negsuc 0))) [
          | inl asked ↦
              rw (look_at_face, face_said, someone, r.empty, asked)
                (
                  record w { sent = w.sent ++ ints_of fl ms cv eyes t; facepoints = [] },
                  refl,
                  ready (w.sent ++ ints_of fl ms cv eyes t),
                  refl,
                  refl,
                )
          | inr unasked ↦
              rw (look_at_face, face_said, someone, r.empty, unasked)
                (record w { facepoints = [] }, refl, ready w.sent, sym (append-nil w.sent), refl)
        ]
  ]
