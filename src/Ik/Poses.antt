-- ===== src/Ik/Poses.antt =====
-- The fixed poses of `ServoChain` (RaspberryPi/src/XNlib/xn_ik.hpp): `curl`, `stiffy`, `reset` and
-- `move_wrist`. `upper` and `tip` are 1 + 6.9/17.2 and 1 + 13.8/17.2.
use robot_arm.Base.{ℕ, zero, suc, ◌==◌, List, [], ◌∷◌, ◌++◌, map, ℤ, pos, negsuc, if◌then◌else◌}
use robot_arm.Floats.{Floats}
use robot_arm.Ws.Run.{Run, done, bad_pointer, ◌>>=◌}
use robot_arm.Vec.{Vec3}
use robot_arm.Ik.{IkChain, ik_chain}
use robot_arm.Ik.Servos.{Joint, ServoChain, element}

-- `v[i]` changed by a function
abbrev pub change : {A : Type 0} → List A → ℕ → (A → A) → Run (List A)
change [] i f = bad_pointer
change (x ∷ xs) zero f = done (f x ∷ xs)
change (x ∷ xs) (suc i) f = do rest ← change xs i f; done (x ∷ rest)

module _ (fl : Floats) where
  open fl use {
    Float, Double, of_int, add, sub, mul, div, less, atan2, sqrt, widen, narrow, of_int_d, sub_d,
    mul_d, div_d, less_d, fmod, half, pi,
  }

  -- `servos[i][j].target_angle = a`
  abbrev pub set_target_angle :
      ℕ → ℕ → Float → List (List (Joint fl)) → Run (List (List (Joint fl)))
  set_target_angle i j a servos = do
    bone ← element servos i
    bone' ← change bone j (λ q. record q { target_angle = a })
    change servos i (λ qs. bone')

  abbrev pub right_angle : Float
  right_angle = narrow (div_d pi (of_int_d (pos 2)))

  unfoldable pub curl : (ServoChain fl) → Run (ServoChain fl)
  curl c = do
    s₁ ← set_target_angle 0 1 right_angle c.servos
    s₂ ← set_target_angle 1 0 (of_int (pos 0)) s₁
    s₃ ← set_target_angle 2 0 (narrow pi) s₂
    s₄ ← set_target_angle 2 0 (narrow pi) s₃
    done (record c { servos = s₄ })

  -- `servos[i][j].position = p`, or its axis
  abbrev pub set_joint :
      ℕ → ℕ → ((Joint fl) → (Joint fl)) → List (List (Joint fl)) → Run (List (List (Joint fl)))
  set_joint i j f servos = do
    bone ← element servos i
    bone' ← change bone j f
    change servos i (λ qs. bone')

  abbrev pub point : ℤ → Float → ℤ → Vec3 fl
  point x y z = record { x = of_int x; y = y; z = of_int z }

  abbrev pub whole_point : ℤ → ℤ → ℤ → Vec3 fl
  whole_point x y z = point x (of_int y) z

  -- The bones of the arm at the start.
  abbrev pub bonechain : Float → Float → List (Vec3 fl)
  bonechain upper tip =
      whole_point (pos 0) (pos 0) (pos 0)
      ∷ whole_point (pos 0) (pos 1) (pos 0)
      ∷ point (pos 0) upper (pos 0)
      ∷ point (pos 0) tip (pos 0)
      ∷ []

  -- `IkChain::reset`; `delta` is 0.001, and `poles` what the new array holds.
  abbrev pub reset_chain : Float → Float → Float → List (Vec3 fl) → IkChain fl
  reset_chain upper tip delta poles =
      ik_chain fl 4 (bonechain upper tip) (whole_point (pos 0) (pos 0) (pos 1)) 10 delta poles

  unfoldable pub reset : Float → Float → (ServoChain fl) → Run (ServoChain fl)
  reset upper tip c = do
    p₁ ← set_joint 0 0 (λ q. record q { position = whole_point (pos 0) (pos 0) (pos 0) }) c.servos
    p₂ ← set_joint 0 1 (λ q. record q { position = whole_point (pos 0) (pos 0) (pos 0) }) p₁
    p₃ ← set_joint 1 0 (λ q. record q { position = whole_point (pos 0) (pos 1) (pos 0) }) p₂
    p₄ ← set_joint 2 0 (λ q. record q { position = point (pos 0) upper (pos 0) }) p₃
    a₁ ← set_joint 0 0 (λ q. record q { axis = whole_point (pos 0) (pos 1) (pos 0) }) p₄
    a₂ ← set_joint 0 1 (λ q. record q { axis = whole_point (pos 1) (pos 0) (pos 0) }) a₁
    a₃ ← set_joint 1 0 (λ q. record q { axis = whole_point (pos 1) (pos 0) (pos 0) }) a₂
    a₄ ← set_joint 2 0 (λ q. record q { axis = whole_point (negsuc 0) (pos 0) (pos 0) }) a₃
    x₁ ← change c.positions 0 (λ p. whole_point (pos 0) (pos 0) (pos 0))
    x₂ ← change x₁ 1 (λ p. whole_point (pos 0) (pos 1) (pos 0))
    x₃ ← change x₂ 2 (λ p. point (pos 0) upper (pos 0))
    x₄ ← change x₃ 3 (λ p. point (pos 0) tip (pos 0))
    done (record c { servos = a₄; positions = x₄ })

  -- The first joint's time, halved: a wait.
  abbrev pub pause : (ServoChain fl) → Run (ServoChain fl)
  pause c = do
    first ← element c.servos 0
    base ← element first 0
    done (record c { slept = c.slept ++ div base.t_max (of_int (pos 2)) ∷ [] })

  abbrev pub at_right_angle : (Joint fl) → (Joint fl)
  at_right_angle q = record q { target_angle = right_angle }

  -- The two parts of `stiffy` that move the joints, each with the wait behind it.
  unfoldable pub curl_up : (ServoChain fl) → Run (ServoChain fl)
  curl_up c = do c₁ ← curl c; pause c₁

  unfoldable pub straighten : (ServoChain fl) → Run (ServoChain fl)
  straighten c = pause (record c { servos = map (map at_right_angle) c.servos })

  unfoldable pub stiffy : Float → Float → (ServoChain fl) → Run (ServoChain fl)
  unfolding curl_up straighten
  stiffy upper tip c = do curled ← curl_up c; straight ← straighten curled; reset upper tip straight

  -- What a joint adds to the wrist's angle; a joint about the upright axis adds nothing.
  unfoldable pub bend_of : ℕ → (Joint fl) → Float → Float
  bend_of i q ac =
      let fac = narrow (sub_d (widen q.target_angle) (div_d pi (of_int_d (pos 2)))) in
      if less_d half (widen q.axis.y)
      then ac
      else add ac (if i == 2 then fac else mul fac (of_int (negsuc 0)))

  unfoldable pub bend_bone : ℕ → List (Joint fl) → Float → Float
  unfolding bend_of
  bend_bone i [] ac = ac
  bend_bone i (q ∷ qs) ac = bend_bone i qs (bend_of i q ac)

  unfoldable pub bend_arm : ℕ → List (List (Joint fl)) → Float → Float
  unfolding bend_bone
  bend_arm i [] ac = ac
  bend_arm i (qs ∷ later) ac = bend_arm (suc i) later (bend_bone i qs ac)

  unfoldable pub move_wrist : (ServoChain fl) → (Joint fl) → (Joint fl)
  unfolding bend_arm
  move_wrist c wrist = record wrist {
    target_angle = narrow (sub_d pi (widen (bend_arm 0 c.servos (of_int (pos 0)))));
  }
