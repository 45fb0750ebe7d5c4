-- ===== src/Ik/Turning.antt =====
-- The joints of one bone (Ik/Servos) turned towards their targets, and their angles.
use robot_arm.Base.{
  ℕ, zero, suc, ◌≡◌, refl, ap, ◌∙◌, inl, inr, Bool, true, false, ◌&&◌, ◌==◌, ltb, List, [], ◌∷◌,
  map, length, length-map, All, arith, Bool-cases,
}
use robot_arm.Floats.{Floats}
use robot_arm.Vec.{Vec3, sub_v, mag}
use robot_arm.Ik.{at}
use robot_arm.Ik.Servos.{Joint, across, angle_to, servo_angle, turn_axis, turn_from, turn_bone}
use robot_arm.Ik.Angles.{
  IsOrder, Stops, BoneStops, ArmStops, servo_angle-Stops, turn_axes-Stops, turn_axes-ArmStops,
}

module _ (fl : Floats) where
  open fl use {Double, sub}

  pub length-turn_bone :
      (epsilon : Double) (goal : Vec3 fl) (several : Bool) (i k j : ℕ) (ps : List (Vec3 fl))
      (qs : List (Joint fl)) (later : List (List (Joint fl)))
      → length (turn_bone fl epsilon goal several i k j ps qs later).1 ≡ length qs
  unfolding turn_bone
  length-turn_bone epsilon goal several i zero j ps qs later = refl
  length-turn_bone epsilon goal several i (suc k) j ps [] later = refl
  length-turn_bone epsilon goal several i (suc k) j ps (q ∷ qs) later =
      let proj_pos = across fl (sub_v fl (at fl ps (suc i)) (at fl ps i)) q.axis in
      let proj_target = across fl (sub_v fl goal (at fl ps i)) q.axis in
      let s_ang =
        servo_angle fl (several && (j == 0)) q (angle_to fl proj_pos proj_target q.axis) in
      let ang = sub s_ang q.target_angle in
      elim (Bool-cases (fl.less_d (fl.widen (mag fl proj_pos)) epsilon)) [
        | inl small ↦
            rw small (ap suc (length-turn_bone epsilon goal several i k (suc j) ps qs later))
        | inr wide ↦ rw wide (
            ap suc (
              length-turn_bone epsilon goal several i k (suc j)
                (turn_from fl (at fl ps i) q.axis ang (suc i) ps) (map (turn_axis fl q.axis ang) qs)
                (map (map (turn_axis fl q.axis ang)) later)
              ∙ length-map qs (turn_axis fl q.axis ang)))
      ]

module _ (fl : Floats) (law : IsOrder fl) where
  open fl use {Float, Double, less, of_int, sub}

  later_joint : (several : Bool) (j : ℕ) → (several && (suc j == 0)) ≡ false
  later_joint several j = ground arith

  turn_bone_lem :
      (epsilon : Double) (goal : Vec3 fl) (several : Bool) (i k j : ℕ) (ps : List (Vec3 fl))
      (qs : List (Joint fl)) (later : List (List (Joint fl)))
      → (several && (j == 0)) ≡ false
      → All (Stops fl) qs
      → ArmStops fl later
      → let t = turn_bone fl epsilon goal several i k j ps qs later in
        All (Stops fl) t.1 × ArmStops fl t.2
  unfolding turn_bone
  turn_bone_lem epsilon goal several i zero j ps qs later f s l = (s, l)
  turn_bone_lem epsilon goal several i (suc k) j ps [] later f s l = (tt, l)
  turn_bone_lem epsilon goal several i (suc k) j ps (q ∷ qs) later f (h, s) l =
      let proj_pos = across fl (sub_v fl (at fl ps (suc i)) (at fl ps i)) q.axis in
      let proj_target = across fl (sub_v fl goal (at fl ps i)) q.axis in
      let s_ang = servo_angle fl false q (angle_to fl proj_pos proj_target q.axis) in
      let ang = sub s_ang q.target_angle in
      let on = later_joint several j in
      elim (Bool-cases (fl.less_d (fl.widen (mag fl proj_pos)) epsilon)) [
        | inl small ↦
            let (s', l') = turn_bone_lem epsilon goal several i k (suc j) ps qs later on s l in
            rw small ((h, s'), l')
        | inr wide ↦
            let (s', l') =
              turn_bone_lem epsilon goal several i k (suc j)
                (turn_from fl (at fl ps i) q.axis ang (suc i) ps) (map (turn_axis fl q.axis ang) qs)
                (map (map (turn_axis fl q.axis ang)) later) on
                (turn_axes-Stops fl law q.axis ang qs s)
                (turn_axes-ArmStops fl law q.axis ang later l) in
            rw (wide, f)
              ((servo_angle-Stops fl law q (angle_to fl proj_pos proj_target q.axis) h, s'), l')
      ]

  -- The tail of a bone of several joints is not empty.
  several_joints :
      (q : Joint fl) (qs : List (Joint fl)) (n : ℕ)
      → length qs ≡ suc n
      → All (Stops fl) qs
      → BoneStops fl (q ∷ qs)
  several_joints q [] n l s = absurd (omega arith)
  several_joints q (r ∷ qs) n l s = s

  -- A whole bone of several joints, of which the first goes round.
  turn_several_lem :
      (epsilon : Double) (goal : Vec3 fl) (i k : ℕ) (ps : List (Vec3 fl)) (q r : Joint fl)
      (qs : List (Joint fl)) (later : List (List (Joint fl)))
      → All (Stops fl) (r ∷ qs)
      → ArmStops fl later
      → let t = turn_bone fl epsilon goal true i (suc k) 0 ps (q ∷ r ∷ qs) later in
        BoneStops fl t.1 × ArmStops fl t.2
  unfolding turn_bone
  turn_several_lem epsilon goal i k ps q r qs later s l =
      let proj_pos = across fl (sub_v fl (at fl ps (suc i)) (at fl ps i)) q.axis in
      let proj_target = across fl (sub_v fl goal (at fl ps i)) q.axis in
      let s_ang = servo_angle fl true q (angle_to fl proj_pos proj_target q.axis) in
      let ang = sub s_ang q.target_angle in
      let on = later_joint true 0 in
      elim (Bool-cases (fl.less_d (fl.widen (mag fl proj_pos)) epsilon)) [
        | inl small ↦
            let t = turn_bone_lem epsilon goal true i k 1 ps (r ∷ qs) later on s l in
            rw small (
              several_joints q _ (length qs)
                  (length-turn_bone fl epsilon goal true i k 1 ps (r ∷ qs) later) t.0,
              t.1,
            )
        | inr wide ↦
            let ps' = turn_from fl (at fl ps i) q.axis ang (suc i) ps in
            let qs' = map (turn_axis fl q.axis ang) (r ∷ qs) in
            let later' = map (map (turn_axis fl q.axis ang)) later in
            let t =
              turn_bone_lem epsilon goal true i k 1 ps' qs' later' on
                (turn_axes-Stops fl law q.axis ang (r ∷ qs) s)
                (turn_axes-ArmStops fl law q.axis ang later l) in
            rw wide (
              several_joints _ _ (length qs)
                  (length-turn_bone fl epsilon goal true i k 1 ps' qs' later'
                    ∙ length-map (r ∷ qs) (turn_axis fl q.axis ang))
                  t.0,
              t.1,
            )
      ]

  All-BoneStops : (qs : List (Joint fl)) → All (Stops fl) qs → BoneStops fl qs
  All-BoneStops [] s = tt
  All-BoneStops (q ∷ []) (h, s) = h
  All-BoneStops (q ∷ r ∷ qs) (h, s) = s

  pub turn_whole_lem :
      (epsilon : Double) (goal : Vec3 fl) (i : ℕ) (ps : List (Vec3 fl)) (qs : List (Joint fl))
      (later : List (List (Joint fl)))
      → BoneStops fl qs
      → ArmStops fl later
      → let t = turn_bone fl epsilon goal (ltb 1 (length qs)) i (length qs) 0 ps qs later in
        BoneStops fl t.1 × ArmStops fl t.2
  turn_whole_lem epsilon goal i ps [] later s l =
      let t = turn_bone_lem epsilon goal false i 0 0 ps [] later refl tt l in
      (All-BoneStops _ t.0, t.1)
  turn_whole_lem epsilon goal i ps (q ∷ []) later s l =
      let t = turn_bone_lem epsilon goal false i 1 0 ps (q ∷ []) later refl (s, tt) l in
      (All-BoneStops _ t.0, t.1)
  turn_whole_lem epsilon goal i ps (q ∷ r ∷ qs) later s l =
      let two : ltb 1 (length (q ∷ r ∷ qs)) ≡ true = ground arith in
      rw two (turn_several_lem epsilon goal i (suc (length qs)) ps q r qs later s l)
