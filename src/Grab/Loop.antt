-- ===== src/Grab/Loop.antt =====
-- The main loop of RaspberryPi/src/arducam_lws.cpp, which moves the arm to the target that
-- `servo_ctl_thread` (Grab) sets, and its handler of an interrupt.
use robot_arm.Base.{
  ℕ, suc, ◌-◌, ◌≡◌, refl, ◌∙◌, Option, none, some, List, [], ◌∷◌, map, length, pos, negsuc, arith,
}
use robot_arm.Floats.{Floats}
use robot_arm.Ws.Run.{Run, done, ◌>>=◌}
use robot_arm.Vec.{Vec3, divide}
use robot_arm.Ik.{resolve}
use robot_arm.Ik.Servos.{Joint, ServoChain, pole_for, aim_arm, grab_safe}
use robot_arm.Ik.Arm.{base_shape, base_lem}
use robot_arm.Ik.Poses.{set_target_angle, right_angle, curl, move_wrist}
use robot_arm.Ik.Shape.{shape, turn_bones-shape}

module _ (fl : Floats) where
  open fl use {Float, Double, of_int, of_int_d, div_d, narrow, pi}

  -- The arm and its wrist
  abbrev pub Limb : Type 0
  Limb = ServoChain fl × Joint fl

  -- `target` and `wristlen` as the loop finds them, `none` where `move_to_target` is false
  abbrev pub Goal : Type 0
  Goal = Option (Vec3 fl × Double)

  abbrev pub arm_pos : Vec3 fl
  arm_pos = record { x = of_int (pos 60); y = of_int (pos 0); z = of_int (negsuc 21) }

  unfoldable pub reach : Double → Goal → ServoChain fl → Run (ServoChain fl)
  reach epsilon none c = done c
  reach epsilon (some (target, wristlen)) c = grab_safe fl epsilon wristlen target arm_pos c

  unfoldable pub main_round : Double → Goal → Limb → Run Limb
  main_round epsilon g (c, wrist) = do c' ← reach epsilon g c; done (c', move_wrist fl c' wrist)

  -- The loop, for as many rounds as goals are listed.
  unfoldable pub main_rounds : Double → List Goal → Limb → Run Limb
  main_rounds epsilon [] l = done l
  main_rounds epsilon (g ∷ gs) l = do l' ← main_round epsilon g l; main_rounds epsilon gs l'

  abbrev pub tenth : Float
  tenth = narrow (div_d (of_int_d (pos 1)) (of_int_d (pos 10)))

  -- What the handler does to the servos; its waits and the end of the program are left out.
  unfoldable pub int_handler : Limb → Run Limb
  int_handler (c, wrist) = do
    curled ← curl fl c
    servos ← set_target_angle fl 0 0 (right_angle fl) curled.servos
    done (record curled { servos = servos }, record wrist { target_angle = tenth })

  -- The bones of main's arm: two joints at the first one, one at each of the next two.
  abbrev pub main_shape : List ℕ
  main_shape = 2 ∷ 1 ∷ 1 ∷ 0 ∷ []

  abbrev pub target_angles : ServoChain fl → List (List Float)
  target_angles c = map (map (λ q. q.target_angle)) c.servos

  one_joint : (qs : List (Joint fl)) → length qs ≡ 1 → (q : Joint fl) × (qs ≡ q ∷ [])
  one_joint [] l = absurd (omega arith)
  one_joint (q ∷ []) l = (q, refl)
  one_joint (q ∷ r ∷ qs) l = absurd (omega arith)

  two_joints : (qs : List (Joint fl)) → length qs ≡ 2 → (p q : Joint fl) × (qs ≡ p ∷ q ∷ [])
  two_joints [] l = absurd (omega arith)
  two_joints (p ∷ qs) l = let (q, e) = one_joint qs (omega arith) in (p, q, cc)

  no_joint : (qs : List (Joint fl)) → length qs ≡ 0 → qs ≡ []
  no_joint [] l = refl
  no_joint (q ∷ qs) l = absurd (omega arith)

  first_bone :
      (servos : List (List (Joint fl))) (n : ℕ) (ns : List ℕ)
      → shape fl servos ≡ n ∷ ns
      → (qs : List (Joint fl)) × (rest : List (List (Joint fl))) × (servos ≡ qs ∷ rest)
        × (length qs ≡ n)
        × (shape fl rest ≡ ns)
  first_bone [] n ns e = absurd cc
  first_bone (qs ∷ rest) n ns e = (qs, rest, refl, cc, cc)

  no_bone : (servos : List (List (Joint fl))) → shape fl servos ≡ [] → servos ≡ []
  no_bone [] e = refl
  no_bone (qs ∷ rest) e = absurd cc

  aim_arm-shape :
      (epsilon : Double) (target : Vec3 fl) (c : ServoChain fl) (n : ℕ) (ns : List ℕ)
      → shape fl c.servos ≡ suc n ∷ ns
      → (c' : ServoChain fl) × (aim_arm fl epsilon target c ≡ done c')
        × (shape fl c'.servos ≡ suc n ∷ ns)
  unfolding aim_arm
  aim_arm-shape epsilon target c n ns e =
      let (first, base, ef, eb) = base_lem fl c.servos (base_shape fl c.servos n ns e) in
      let goal = divide fl target c.arm_len in
      let chain =
        resolve fl goal (record c.ideal_chain { pole_main = pole_for fl epsilon base.axis goal }) in
      rw (ef, eb)
        (
          _,
          refl,
          turn_bones-shape fl epsilon chain (chain.bone_count - 1) 0 c.positions c.servos ∙ e,
        )

  pub reach-shape :
      (epsilon : Double) (g : Goal) (c : ServoChain fl) (n : ℕ) (ns : List ℕ)
      → shape fl c.servos ≡ suc n ∷ ns
      → (c' : ServoChain fl) × (reach epsilon g c ≡ done c') × (shape fl c'.servos ≡ suc n ∷ ns)
  unfolding reach grab_safe
  reach-shape epsilon none c n ns e = (c, refl, e)
  reach-shape epsilon (some (target, wristlen)) c n ns e = aim_arm-shape epsilon _ c n ns e

  -- The loop makes all its rounds, and no joint goes to another bone.
  main_rounds-shape :
      (epsilon : Double) (gs : List Goal) (l : Limb) (n : ℕ) (ns : List ℕ)
      → shape fl l.0.servos ≡ suc n ∷ ns
      → (l' : Limb) × (main_rounds epsilon gs l ≡ done l') × (shape fl l'.0.servos ≡ suc n ∷ ns)
  unfolding main_rounds main_round
  main_rounds-shape epsilon [] l n ns e = (l, refl, e)
  main_rounds-shape epsilon (g ∷ gs) (c, wrist) n ns e =
      let (c₁, e₁, s₁) = reach-shape epsilon g c n ns e in
      rw e₁ (main_rounds-shape epsilon gs (c₁, move_wrist fl c₁ wrist) n ns s₁)

  abbrev pub neutral : List (List Float)
  neutral =
      (right_angle fl ∷ right_angle fl ∷ []) ∷ (of_int (pos 0) ∷ []) ∷ (narrow pi ∷ []) ∷ [] ∷ []

  pub four_bones :
      (servos : List (List (Joint fl)))
      → shape fl servos ≡ main_shape
      → (p q r s : Joint fl) × (servos ≡ (p ∷ q ∷ []) ∷ (r ∷ []) ∷ (s ∷ []) ∷ [] ∷ [])
  four_bones servos e =
      let (first, b₁, e₁, l₁, s₁) = first_bone servos 2 (1 ∷ 1 ∷ 0 ∷ []) e in
      let (second, b₂, e₂, l₂, s₂) = first_bone b₁ 1 (1 ∷ 0 ∷ []) s₁ in
      let (third, b₃, e₃, l₃, s₃) = first_bone b₂ 1 (0 ∷ []) s₂ in
      let (last, b₄, e₄, l₄, s₄) = first_bone b₃ 0 [] s₃ in
      let (p, q, f₁) = two_joints first l₁ in
      let (r, f₂) = one_joint second l₂ in
      let (s, f₃) = one_joint third l₃ in
      let f₄ = no_joint last l₄ in let f₅ = no_bone b₄ s₄ in (p, q, r, s, cc)

  int_handler_lem :
      (l : Limb)
      → shape fl l.0.servos ≡ main_shape
      → (l' : Limb) × (int_handler l ≡ done l')
        × (target_angles l'.0 ≡ neutral)
        × (l'.1.target_angle ≡ tenth)
  unfolding int_handler curl
  int_handler_lem (c, wrist) e =
      let (p, q, r, s, f) = four_bones c.servos e in rw f (_, refl, refl, refl)

  -- The loop makes its rounds, whatever targets it is given, on an arm with main's joints, and an
  -- interrupt after them gives the joints of the first bone the target angle pi / 2, those of the next
  -- two 0 and pi, and the wrist a tenth.
  pub main_rounds-neutral :
      (epsilon : Double) (gs : List Goal) (l : Limb)
      → shape fl l.0.servos ≡ main_shape
      → (l' : Limb) × ((main_rounds epsilon gs l >>= int_handler) ≡ done l')
        × (target_angles l'.0 ≡ neutral)
        × (l'.1.target_angle ≡ tenth)
  main_rounds-neutral epsilon gs l e =
      let (l₁, e₁, s₁) = main_rounds-shape epsilon gs l 1 (1 ∷ 1 ∷ 0 ∷ []) e in
      rw e₁ (int_handler_lem l₁ s₁)
