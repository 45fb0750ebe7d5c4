-- ===== src/Ik/Shape.antt =====
-- The targets of `ServoChain` (Ik/Servos) move its joints from no bone to another.
use robot_arm.Base.{
  ℕ, zero, suc, ◌≡◌, refl, ◌∙◌, inl, inr, Bool, ◌&&◌, ◌==◌, ltb, List, [], ◌∷◌, map, length,
  length-map, Bool-cases,
}
use robot_arm.Floats.{Floats}
use robot_arm.Vec.{Vec3, sub_v, mag}
use robot_arm.Ik.{IkChain, at}
use robot_arm.Ik.Servos.{
  Joint, across, angle_to, servo_angle, turn_axis, turn_from, turn_bone, turn_bones,
}
use robot_arm.Ik.Turning.{length-turn_bone}

module _ (fl : Floats) where
  open fl use {Double, sub}

  -- How many joints each bone has.
  abbrev pub shape : List (List (Joint fl)) → List ℕ
  shape = map length

  shape-map :
      (f : Joint fl → Joint fl) (servos : List (List (Joint fl)))
      → shape (map (map f) servos) ≡ shape servos
  shape-map f [] = refl
  shape-map f (qs ∷ servos) = rw (length-map qs f, shape-map f servos) refl

  turn_bone-shape :
      (epsilon : Double) (goal : Vec3 fl) (several : Bool) (i k j : ℕ) (ps : List (Vec3 fl))
      (qs : List (Joint fl)) (later : List (List (Joint fl)))
      → shape (turn_bone fl epsilon goal several i k j ps qs later).2 ≡ shape later
  unfolding turn_bone
  turn_bone-shape epsilon goal several i zero j ps qs later = refl
  turn_bone-shape epsilon goal several i (suc k) j ps [] later = refl
  turn_bone-shape epsilon goal several i (suc k) j ps (q ∷ qs) later =
      let proj_pos = across fl (sub_v fl (at fl ps (suc i)) (at fl ps i)) q.axis in
      let proj_target = across fl (sub_v fl goal (at fl ps i)) q.axis in
      let s_ang =
        servo_angle fl (several && (j == 0)) q (angle_to fl proj_pos proj_target q.axis) in
      let ang = sub s_ang q.target_angle in
      elim (Bool-cases (fl.less_d (fl.widen (mag fl proj_pos)) epsilon)) [
        | inl small ↦ rw small (turn_bone-shape epsilon goal several i k (suc j) ps qs later)
        | inr wide ↦ rw wide (
            turn_bone-shape epsilon goal several i k (suc j)
              (turn_from fl (at fl ps i) q.axis ang (suc i) ps) (map (turn_axis fl q.axis ang) qs)
              (map (map (turn_axis fl q.axis ang)) later)
            ∙ shape-map (turn_axis fl q.axis ang) later)
      ]

  pub turn_bones-shape :
      (epsilon : Double) (chain : IkChain fl) (k i : ℕ) (ps : List (Vec3 fl))
      (servos : List (List (Joint fl)))
      → shape (turn_bones fl epsilon chain k i ps servos).1 ≡ shape servos
  unfolding turn_bones
  turn_bones-shape epsilon chain zero i ps servos = refl
  turn_bones-shape epsilon chain (suc k) i ps [] = refl
  turn_bones-shape epsilon chain (suc k) i ps (qs ∷ later) =
      let goal = at fl chain.bones (suc i) in
      let t = turn_bone fl epsilon goal (ltb 1 (length qs)) i (length qs) 0 ps qs later in
      let e = length-turn_bone fl epsilon goal (ltb 1 (length qs)) i (length qs) 0 ps qs later in
      let es : shape (turn_bones fl epsilon chain k (suc i) t.0 t.2).1 ≡ shape later =
        turn_bones-shape epsilon chain k (suc i) t.0 t.2
        ∙ turn_bone-shape epsilon goal (ltb 1 (length qs)) i (length qs) 0 ps qs later in
      rw (e, es) refl
