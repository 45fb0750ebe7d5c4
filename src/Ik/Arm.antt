-- ===== src/Ik/Arm.antt =====
-- The angles of the whole arm (Ik/Servos) after any targets.
use robot_arm.Base.{ℕ, zero, suc, ◌-◌, ◌≡◌, refl, ◌∙◌, ltb, List, [], ◌∷◌, map, length}
use robot_arm.Floats.{Floats}
use robot_arm.Ws.Run.{Run, done, ◌>>=◌}
use robot_arm.Vec.{Vec3, divide}
use robot_arm.Ik.{IkChain, at, resolve}
use robot_arm.Ik.Servos.{Joint, ServoChain, element, turn_bone, turn_bones, pole_for, aim_arm}
use robot_arm.Ik.Angles.{IsOrder, HasBase, ArmStops}
use robot_arm.Ik.Turning.{turn_whole_lem, length-turn_bone}

module _ (fl : Floats) where
  open fl use {Double}

  -- Targets for the arm, one after another.
  abbrev pub aim_all : Double → List (Vec3 fl) → ServoChain fl → Run (ServoChain fl)
  aim_all epsilon [] c = done c
  aim_all epsilon (v ∷ vs) c = do c' ← aim_arm fl epsilon v c; aim_all epsilon vs c'

module _ (fl : Floats) where
  pub base_shape :
      (servos : List (List (Joint fl))) (n : ℕ) (ns : List ℕ)
      → map length servos ≡ suc n ∷ ns
      → HasBase fl servos
  base_shape [] n ns e = absurd cc
  base_shape (qs ∷ servos) n ns e = (n, cc)

  pub base_lem :
      (servos : List (List (Joint fl)))
      → HasBase fl servos
      → (first : List (Joint fl)) × (base : Joint fl) × (element servos 0 ≡ done first)
        × (element first 0 ≡ done base)
  base_lem [] b = absurd b
  base_lem ([] ∷ servos) (n, e) = cc
  base_lem ((q ∷ qs) ∷ servos) (n, e) = (q ∷ qs, q, refl, refl)

module _ (fl : Floats) (law : IsOrder fl) where
  open fl use {Float, Double, less, of_int, sub}

  turn_bones_lem :
      (epsilon : Double) (chain : IkChain fl) (k i : ℕ) (ps : List (Vec3 fl))
      (servos : List (List (Joint fl)))
      → ArmStops fl servos
      → ArmStops fl (turn_bones fl epsilon chain k i ps servos).1
  unfolding turn_bones
  turn_bones_lem epsilon chain zero i ps servos s = s
  turn_bones_lem epsilon chain (suc k) i ps [] s = tt
  turn_bones_lem epsilon chain (suc k) i ps (qs ∷ later) (h, s) =
      let goal = at fl chain.bones (suc i) in
      let (h', s') = turn_whole_lem fl law epsilon goal i ps qs later h s in
      let t = turn_bone fl epsilon goal (ltb 1 (length qs)) i (length qs) 0 ps qs later in
      (h', turn_bones_lem epsilon chain k (suc i) t.0 t.2 s')

  -- The first bone keeps its joints.
  turn_bones-base :
      (epsilon : Double) (chain : IkChain fl) (k i : ℕ) (ps : List (Vec3 fl))
      (servos : List (List (Joint fl)))
      → HasBase fl servos
      → HasBase fl (turn_bones fl epsilon chain k i ps servos).1
  unfolding turn_bones
  turn_bones-base epsilon chain zero i ps servos b = b
  turn_bones-base epsilon chain (suc k) i ps [] b = absurd b
  turn_bones-base epsilon chain (suc k) i ps (qs ∷ later) (n, e) =
      let goal = at fl chain.bones (suc i) in
      (n, length-turn_bone fl epsilon goal (ltb 1 (length qs)) i (length qs) 0 ps qs later ∙ e)

  pub aim_arm_lem :
      (epsilon : Double) (target : Vec3 fl) (c : ServoChain fl)
      → HasBase fl c.servos
      → ArmStops fl c.servos
      → (c' : ServoChain fl) × (aim_arm fl epsilon target c ≡ done c')
        × HasBase fl c'.servos
        × ArmStops fl c'.servos
  unfolding aim_arm
  aim_arm_lem epsilon target c b s =
      let (first, base, e, f) = base_lem fl c.servos b in
      let goal = divide fl target c.arm_len in
      let chain =
        resolve fl goal (record c.ideal_chain { pole_main = pole_for fl epsilon base.axis goal }) in
      rw (e, f)
        (
          _,
          refl,
          turn_bones-base epsilon chain (chain.bone_count - 1) 0 c.positions c.servos b,
          turn_bones_lem epsilon chain (chain.bone_count - 1) 0 c.positions c.servos s,
        )

  -- With the order of C's floating-point numbers, NaN included, an arm whose first bone has a joint
  -- takes any targets one after another. A joint whose range begins at 0 and that is not the first
  -- of several joints of its bone, if its angle is in its range, has an angle in its range after them.
  pub aim_all-Stops :
      (epsilon : Double) (targets : List (Vec3 fl)) (c : ServoChain fl)
      → HasBase fl c.servos
      → ArmStops fl c.servos
      → (c' : ServoChain fl) × (aim_all fl epsilon targets c ≡ done c')
        × HasBase fl c'.servos
        × ArmStops fl c'.servos
  aim_all-Stops epsilon [] c b s = (c, refl, b, s)
  aim_all-Stops epsilon (v ∷ vs) c b s =
      let (c₁, e, b₁, s₁) = aim_arm_lem epsilon v c b s in rw e (aim_all-Stops epsilon vs c₁ b₁ s₁)
