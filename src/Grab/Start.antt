-- ===== src/Grab/Start.antt =====
-- The arm as main of RaspberryPi/src/arducam_lws.cpp sets it up before its loop (Grab/Loop). What it
-- tells the pins at once is left out.
use robot_arm.Base.{◌≡◌, refl, false, none, some, List, [], ◌∷◌, pos, negsuc}
use robot_arm.Floats.{Floats}
use robot_arm.Ws.Run.{Run, done, ◌>>=◌}
use robot_arm.Vec.{Vec3}
use robot_arm.Ik.{ik_chain}
use robot_arm.Ik.Servos.{Joint, ServoChain, servo_chain, grab_safe}
use robot_arm.Ik.Angles.{IsOrder, Stops, HasBase, ArmStops}
use robot_arm.Ik.Arm.{aim_arm_lem}
use robot_arm.Ik.Shape.{shape}
use robot_arm.Ik.Poses.{bonechain, right_angle, set_joint, move_wrist, point, whole_point}
use robot_arm.Grab.Loop.{
  Limb, Goal, reach, main_round, main_rounds, int_handler, target_angles, neutral, tenth,
  main_shape, main_rounds-neutral,
}

module _ (fl : Floats) where
  open fl use {Float, Double, of_int, less, widen, narrow, mul_d, half, pi}

  -- `SmoothServo`'s constructor: what a joint has of the servo.
  abbrev pub new_joint : Vec3 fl → Vec3 fl → Joint fl
  new_joint axis position = record {
    axis = axis;
    position = position;
    target_angle = right_angle fl;
    min_angle = of_int (pos 0);
    max_angle = narrow pi;
    t_max = of_int (pos 10);
  }

  -- `t_max *= 0.5`
  abbrev pub twice_as_fast : Joint fl → Joint fl
  twice_as_fast q = record q { t_max = narrow (mul_d (widen q.t_max) half) }

  -- `servos`; `upper` and `tip` are 1 + 6.9/17.2 and 1 + 13.8/17.2.
  abbrev pub bone_servos : Float → List (List (Joint fl))
  bone_servos upper =
      (new_joint (whole_point fl (pos 0) (pos 1) (pos 0)) (whole_point fl (pos 0) (pos 0) (pos 0))
        ∷ new_joint (whole_point fl (pos 1) (pos 0) (pos 0))
            (whole_point fl (pos 0) (pos 0) (pos 0))
        ∷ [])
      ∷ (new_joint (whole_point fl (pos 1) (pos 0) (pos 0)) (whole_point fl (pos 0) (pos 1) (pos 0))
          ∷ [])
      ∷ (new_joint (whole_point fl (negsuc 0) (pos 0) (pos 0)) (point fl (pos 0) upper (pos 0))
          ∷ [])
      ∷ []
      ∷ []

  -- `wrist`
  abbrev pub start_wrist : Joint fl
  start_wrist =
      twice_as_fast (
        new_joint (whole_point fl (pos 1) (pos 0) (pos 0)) (whole_point fl (pos 0) (pos 0) (pos 0)))

  -- `phys_arm` and `wrist` before the loop; `delta` is 0.001, and `poles` what the new array holds.
  unfoldable pub main_start : Float → Float → Float → List (Vec3 fl) → Run (Limb fl)
  main_start upper tip delta poles = do
    let pole = whole_point fl (pos 0) (pos 0) (pos 1)
    let arm = ik_chain fl 4 (bonechain fl upper tip) pole 10 delta poles
    let chain = servo_chain fl arm (bone_servos upper) (of_int (pos 172))
    s₁ ← set_joint fl 0 0 twice_as_fast chain.servos
    s₂ ← set_joint fl 1 0 (λ q. record q { target_angle = right_angle fl }) s₁
    s₃ ← set_joint fl 2 0 (λ q. record q { target_angle = right_angle fl }) s₂
    done (record chain { servos = s₃ }, start_wrist)

  -- What C's numbers have of 0, pi / 2 and pi.
  pub record IsHalfTurn : Type 0 where
    pub turn : less (narrow pi) (of_int (pos 0)) ≡ false
    pub above : less (right_angle fl) (of_int (pos 0)) ≡ false
    pub below : less (narrow pi) (right_angle fl) ≡ false

  new_joint-Stops : (axis position : Vec3 fl) → IsHalfTurn → Stops fl (new_joint axis position)
  new_joint-Stops axis position h = record {
    from_zero = refl;
    range = h.turn;
    above = h.above;
    below = h.below;
  }

module _ (fl : Floats) (law : IsOrder fl) where
  open fl use {Float, Double}

  main_start_lem :
      (upper tip delta : Float) (poles : List (Vec3 fl))
      → IsHalfTurn fl
      → (l : Limb fl) × (main_start fl upper tip delta poles ≡ done l)
        × HasBase fl l.0.servos
        × ArmStops fl l.0.servos
        × (shape fl l.0.servos ≡ main_shape fl)
  unfolding main_start servo_chain
  main_start_lem upper tip delta poles h =
      let x = whole_point fl (pos 1) (pos 0) (pos 0) in
      let x' = whole_point fl (negsuc 0) (pos 0) (pos 0) in
      let o = whole_point fl (pos 0) (pos 0) (pos 0) in
      let y = whole_point fl (pos 0) (pos 1) (pos 0) in
      let s = new_joint-Stops fl x o h in
      let s' = new_joint-Stops fl x y h in
      let s'' = new_joint-Stops fl x' (point fl (pos 0) upper (pos 0)) h in
      (_, refl, (1, refl), ((s, tt), (s', (s'', (tt, tt)))), refl)

  reach-Stops :
      (epsilon : Double) (g : Goal fl) (c : ServoChain fl)
      → HasBase fl c.servos
      → ArmStops fl c.servos
      → (c' : ServoChain fl) × (reach fl epsilon g c ≡ done c')
        × HasBase fl c'.servos
        × ArmStops fl c'.servos
  unfolding reach grab_safe
  reach-Stops epsilon none c b s = (c, refl, b, s)
  reach-Stops epsilon (some (target, wristlen)) c b s = aim_arm_lem fl law epsilon _ c b s

  main_rounds-Stops :
      (epsilon : Double) (gs : List (Goal fl)) (l : Limb fl)
      → HasBase fl l.0.servos
      → ArmStops fl l.0.servos
      → (l' : Limb fl) × (main_rounds fl epsilon gs l ≡ done l') × ArmStops fl l'.0.servos
  unfolding main_rounds main_round
  main_rounds-Stops epsilon [] l b s = (l, refl, s)
  main_rounds-Stops epsilon (g ∷ gs) (c, wrist) b s =
      let (c₁, e₁, b₁, s₁) = reach-Stops epsilon g c b s in
      rw e₁ (main_rounds-Stops epsilon gs (c₁, move_wrist fl c₁ wrist) b₁ s₁)

  -- With the order of C's floating-point numbers, and 0 <= pi / 2 <= pi, main sets its arm up and
  -- makes its rounds on any targets. Each joint but the base has an angle in its range after them, and
  -- an interrupt gives the joints of the first bone the target angle pi / 2, those of the next two 0
  -- and pi, and the wrist a tenth.
  pub main_start-neutral :
      (upper tip delta : Float) (poles : List (Vec3 fl)) (epsilon : Double) (gs : List (Goal fl))
      → IsHalfTurn fl
      → (start l l' : Limb fl) × (main_start fl upper tip delta poles ≡ done start)
        × (main_rounds fl epsilon gs start ≡ done l)
        × ArmStops fl l.0.servos
        × (int_handler fl l ≡ done l')
        × (target_angles fl l'.0 ≡ neutral fl)
        × (l'.1.target_angle ≡ tenth fl)
  main_start-neutral upper tip delta poles epsilon gs h =
      let (l₀, e₀, b, s, f) = main_start_lem upper tip delta poles h in
      let (l₁, e₁, s₁) = main_rounds-Stops epsilon gs l₀ b s in
      let (l₂, e₂, angles, last) = main_rounds-neutral fl epsilon gs l₀ f in
      let handled : int_handler fl l₁ ≡ done l₂ = rw e₁ at e₂ in
      (l₀, l₁, l₂, e₀, e₁, s₁, handled, angles, last)
