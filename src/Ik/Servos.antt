-- ===== src/Ik/Servos.antt =====
-- `ServoChain` of RaspberryPi/src/XNlib/xn_ik.hpp: the angles of the arm's servos for a target. The
-- threads that move the servos are those of `SmoothServo`; here a joint has what `ServoChain` reads
-- or writes of one. `epsilon` is SMEPSILON.
use robot_arm.Base.{
  ℕ, zero, suc, ◌-◌, Bool, ◌&&◌, ltb, ◌==◌, List, [], ◌∷◌, map, pos, negsuc, if◌then◌else◌, length,
}
use robot_arm.Floats.{Floats}
use robot_arm.Ws.Run.{Run, done, bad_pointer, ◌>>=◌}
use robot_arm.Vec.{Vec3, add_v, sub_v, scale, divide, dot, mag, normalize, cross, rotate_axis}
use robot_arm.Ik.{IkChain, at, resolve}

-- `v[i]`
abbrev pub element : {A : Type 0} → List A → ℕ → Run A
element [] i = bad_pointer
element (x ∷ xs) zero = done x
element (x ∷ xs) (suc i) = element xs i

module _ (fl : Floats) where
  open fl use {
    Float, Double, of_int, add, sub, mul, div, less, atan2, sqrt, widen, narrow, of_int_d, sub_d,
    mul_d, div_d, less_d, fmod, half, pi,
  }

  pub record Joint : Type 0 where
    pub axis : Vec3 fl
    pub position : Vec3 fl
    pub target_angle : Float
    pub min_angle : Float
    pub max_angle : Float
    pub t_max : Float

  -- `slept` are the waits of `stiffy`.
  pub record ServoChain : Type 0 where
    pub ideal_chain : IkChain fl
    pub servos : List (List Joint)
    pub positions : List (Vec3 fl)
    pub arm_len : Float
    pub slept : List Float

  unfoldable pub servo_chain : IkChain fl → List (List Joint) → Float → ServoChain
  servo_chain chain servos arm_len = record {
    ideal_chain = chain;
    servos = servos;
    positions = chain.bones;
    arm_len = arm_len;
    slept = [];
  }

  -- `clamp<float>`
  unfoldable pub clamp_float : Float → Float → Float → Float
  clamp_float n minval maxval =
      let low = if less maxval n then maxval else n in if less minval low then low else minval

  -- The part of a vector across an axis.
  abbrev pub across : Vec3 fl → Vec3 fl → Vec3 fl
  across v ax = sub_v fl v (scale fl ax (dot fl v ax))

  -- The pole for a target, across the first servo's axis.
  unfoldable pub pole_for : Double → Vec3 fl → Vec3 fl → Vec3 fl
  pole_for epsilon pax target =
      let pole = across target pax in
      if less_d (widen (mag fl pole)) epsilon
      then record { x = of_int (pos 3); y = of_int (pos 0); z = of_int (pos 0) }
      else scale fl (normalize fl pole) (of_int (negsuc 4))

  -- The angle from the joint's bone to its target, about the joint's axis.
  unfoldable pub angle_to : Vec3 fl → Vec3 fl → Vec3 fl → Float
  angle_to proj_pos proj_target ax =
      let unit = normalize fl proj_pos in
      atan2 (dot fl proj_target (cross fl ax unit)) (dot fl proj_target unit)

  -- The joint's new angle: the first of several joints of a bone goes round, the others stop at the
  -- ends of their range.
  unfoldable pub servo_angle : Bool → Joint → Float → Float
  servo_angle goes_round q ang =
      let s_ang =
        if goes_round
        then narrow (fmod (widen (add q.target_angle ang)) (widen q.max_angle))
        else clamp_float (add q.target_angle ang) q.min_angle q.max_angle in
      if less s_ang (of_int (pos 0)) then add q.max_angle s_ang else s_ang

  abbrev pub turn_axis : Vec3 fl → Float → Joint → Joint
  turn_axis ax ang q = record q { axis = normalize fl (rotate_axis fl q.axis ax ang) }

  abbrev pub turn_about : Vec3 fl → Vec3 fl → Float → Vec3 fl → Vec3 fl
  turn_about centre ax ang p = add_v fl centre (rotate_axis fl (sub_v fl p centre) ax ang)

  -- The positions beyond the bone.
  abbrev pub turn_from : Vec3 fl → Vec3 fl → Float → ℕ → List (Vec3 fl) → List (Vec3 fl)
  turn_from centre ax ang n [] = []
  turn_from centre ax ang zero (p ∷ ps) =
      turn_about centre ax ang p ∷ turn_from centre ax ang zero ps
  turn_from centre ax ang (suc n) (p ∷ ps) = p ∷ turn_from centre ax ang n ps

  -- The positions, the joints of the bone and those of the bones beyond it.
  abbrev pub Turned : Type 0
  Turned = List (Vec3 fl) × List Joint × List (List Joint)

  abbrev pub with_joint : Joint → Turned → Turned
  with_joint q (ps, qs, later) = (ps, q ∷ qs, later)

  -- The loop over the `k` joints of the bone `i` from the joint `j` on; `several` tells whether the bone
  -- has more than one.
  unfoldable pub turn_bone :
      Double → Vec3 fl → Bool → ℕ → ℕ → ℕ → List (Vec3 fl) → List Joint → List (List Joint) → Turned
  turn_bone epsilon goal several i zero j ps qs later = (ps, qs, later)
  turn_bone epsilon goal several i (suc k) j ps [] later = (ps, [], later)
  turn_bone epsilon goal several i (suc k) j ps (q ∷ qs) later =
      let proj_pos = across (sub_v fl (at fl ps (suc i)) (at fl ps i)) q.axis in
      let proj_target = across (sub_v fl goal (at fl ps i)) q.axis in
      let s_ang = servo_angle (several && (j == 0)) q (angle_to proj_pos proj_target q.axis) in
      let ang = sub s_ang q.target_angle in
      let still = turn_bone epsilon goal several i k (suc j) ps qs later in
      let moved =
        turn_bone epsilon goal several i k (suc j) (turn_from (at fl ps i) q.axis ang (suc i) ps)
          (map (turn_axis q.axis ang) qs) (map (map (turn_axis q.axis ang)) later) in
      if less_d (widen (mag fl proj_pos)) epsilon
      then with_joint q still
      else with_joint (record q { target_angle = s_ang }) moved

  -- The loop over the bones from the bone `i` on, but the last one; `k` of them are left.
  unfoldable pub turn_bones :
      Double
      → IkChain fl
      → ℕ
      → ℕ
      → List (Vec3 fl)
      → List (List Joint)
      → List (Vec3 fl) × List (List Joint)
  turn_bones epsilon chain zero i ps servos = (ps, servos)
  turn_bones epsilon chain (suc k) i ps [] = (ps, [])
  turn_bones epsilon chain (suc k) i ps (qs ∷ later) =
      let (ps₁, qs₁, later₁) =
        turn_bone epsilon (at fl chain.bones (suc i)) (ltb 1 (length qs)) i (length qs) 0 ps qs
          later in
      let (ps₂, later₂) = turn_bones epsilon chain k (suc i) ps₁ later₁ in (ps₂, qs₁ ∷ later₂)

  unfoldable pub aim_arm : Double → Vec3 fl → ServoChain → Run ServoChain
  aim_arm epsilon target c = do
    first ← element c.servos 0
    base ← element first 0
    let goal = divide fl target c.arm_len
    let chain =
        resolve fl goal (record c.ideal_chain { pole_main = pole_for epsilon base.axis goal })
    let turned = turn_bones epsilon chain (chain.bone_count - 1) 0 c.positions c.servos
    done (record c { ideal_chain = chain; positions = turned.0; servos = turned.1 })

  -- A point `wristlen` short of the target, on the line from the arm.
  unfoldable pub grab_safe : Double → Double → Vec3 fl → Vec3 fl → ServoChain → Run ServoChain
  unfolding aim_arm
  grab_safe epsilon wristlen target arm_pos c =
      let rel = sub_v fl target arm_pos in
      let d_armpos = widen (sqrt (add (mul rel.x rel.x) (mul rel.z rel.z))) in
      let dx = div_d wristlen (div_d d_armpos (widen rel.x)) in
      let dz = div_d wristlen (div_d d_armpos (widen rel.z)) in
      aim_arm epsilon
        (record rel { x = narrow (sub_d (widen rel.x) dx); z = narrow (sub_d (widen rel.z) dz) }) c
