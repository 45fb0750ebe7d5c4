-- ===== src/Control/Widths.antt =====
-- The widths that the servos of RaspberryPi/src/arm_lws.cpp are told (Control/Start).
use robot_arm.Base.{
  ℕ, ◌≡◌, refl, sym, ap, ◌∙◌, inl, inr, true, none, some, List, [], ◌∷◌, pos, ◌≤ℤ◌, ◌+◌, ◌<◌, ◌^◌,
  ◌-ℤ◌, length, get_elem?, set, All-get, ◌+ℤ◌, ◌/ℤ◌, arith, Option-cases, length-set, Bool-cases,
  ◌==◌,
}
use mathlib.Core.List.{append-nil}
use mathlib.Core.Path.{subst}
use robot_arm.Floats.{Floats}
use robot_arm.Ws.Run.{done}
use robot_arm.Ws.Message.{Message}
use robot_arm.Gpio.Servo.{servo_angular, set_angle, command, width_at}
use robot_arm.Gpio.Smooth.{SmoothServo, smooth_servo}
use robot_arm.Gpio.Smooth.Bounds.{InRange, update_lem}
use robot_arm.SmoothArray.{nearly_zero, nearly_pi}
use robot_arm.Control.{aim_at}
use robot_arm.Control.Indices.{map_option, is_index, elem-set}
use robot_arm.Control.Dispatch.{AllName, aimed, dispatch_lem}
use robot_arm.Control.Start.{
  flat_servo, told, servos_flat, Turn, batch, thread_tick, tick_servo, take_turn, turns,
}

module _ (fl : Floats) where
  open fl use {Float, of_int, to_int, add, sub, mul, div, at_least, narrow, pi}

  -- Each servo's width, and every width that it has been told, is in the range of 500 to 2500.
  abbrev pub AllInRange : List (SmoothServo fl) → Type 0
  AllInRange servos =
      (k : ℕ) (s : SmoothServo fl)
      → get_elem? servos k ≡ some s
      → InRange fl (pos 500) (pos 2500) s.servo

  aimed-servo : (ms : List Message) (k : ℕ) (s : SmoothServo fl) → (aimed fl ms k s).servo ≡ s.servo
  unfolding aimed aim_at
  aimed-servo [] k s = refl
  aimed-servo (m ∷ ms) k s = elim (Bool-cases (is_index m.user_id k)) [
    | inl named ↦ rw (aimed, named) (aimed-servo ms k (aim_at fl m.value s))
    | inr other ↦ rw (aimed, other) (aimed-servo ms k s)
  ]

  batch-AllInRange :
      (ms : List Message) (servos : List (SmoothServo fl))
      → AllName (length servos) ms
      → AllInRange servos
      → (servos' : List (SmoothServo fl)) × (take_turn fl (batch ms) servos ≡ done servos')
        × (length servos' ≡ length servos)
        × AllInRange servos'
  unfolding take_turn
  batch-AllInRange ms servos names h =
      let (servos', e, n, each) = dispatch_lem fl ms [] [] servos names in
      (
        servos',
        rw (append-nil ms) at e,
        n,
        λ k s' e'. elim (Option-cases (get_elem? servos k)) [
          | inl missing ↦
              let z : get_elem? servos' k ≡ none =
                each k ∙ ap (map_option (aimed fl ms k)) missing in
              absurd cc
          | inr (s, found) ↦
              let z : get_elem? servos' k ≡ some (aimed fl ms k s) =
                each k ∙ ap (map_option (aimed fl ms k)) found in
              let same : s' ≡ aimed fl ms k s = cc in rw (same, aimed-servo ms k s) (h k s found)
        ],
      )

  tick-AllInRange :
      (i : ℕ) (dt : Float) (servos : List (SmoothServo fl))
      → AllInRange servos
      → (servos' : List (SmoothServo fl)) × (take_turn fl (thread_tick i dt) servos ≡ done servos')
        × (length servos' ≡ length servos)
        × AllInRange servos'
  unfolding take_turn tick_servo
  tick-AllInRange i dt servos h = elim (Option-cases (get_elem? servos i)) [
    | inl missing ↦ rw (take_turn, tick_servo, missing) (servos, refl, refl, h)
    | inr (s, found) ↦
        let (s₁, e, u) = update_lem fl (pos 500) (pos 2500) dt s (omega arith) (h i s found) in
        (
          set servos i s₁,
          rw (take_turn, tick_servo, found, e) refl,
          length-set servos i s₁,
          λ k s' e'. elim (Bool-cases (i == k)) [
            | inl this ↦
                let z : get_elem? (set servos i s₁) k ≡ some s₁ =
                  elem-set servos i k s s₁ found ∙ rw this refl in
                let same : s' ≡ s₁ = cc in rw same u.range
            | inr other ↦
                let z : get_elem? (set servos i s₁) k ≡ get_elem? servos k =
                  elem-set servos i k s s₁ found ∙ rw other refl in
                h k s' (sym z ∙ e')
          ],
        )
  ]

  -- What each batch names are servos.
  abbrev pub Turns : ℕ → List (Turn fl) → Type 0
  Turns n [] = Unit
  Turns n (batch ms ∷ ts) = AllName n ms × Turns n ts
  Turns n (thread_tick i dt ∷ ts) = Turns n ts

  turns-AllInRange :
      (ts : List (Turn fl)) (servos : List (SmoothServo fl))
      → Turns (length servos) ts
      → AllInRange servos
      → (servos' : List (SmoothServo fl)) × (turns fl ts servos ≡ done servos')
        × (length servos' ≡ length servos)
        × AllInRange servos'
  unfolding turns
  turns-AllInRange [] servos names h = (servos, refl, refl, h)
  turns-AllInRange (batch ms ∷ ts) servos (name, names) h =
      let (s₁, e₁, n₁, h₁) = batch-AllInRange ms servos name h in
      let (s₂, e₂, n₂, h₂) =
        turns-AllInRange ts s₁ (subst (λ (n : ℕ). Turns n ts) (sym n₁) names) h₁ in
      (s₂, rw e₁ e₂, n₂ ∙ n₁, h₂)
  turns-AllInRange (thread_tick i dt ∷ ts) servos names h =
      let (s₁, e₁, n₁, h₁) = tick-AllInRange i dt servos h in
      let (s₂, e₂, n₂, h₂) =
        turns-AllInRange ts s₁ (subst (λ (n : ℕ). Turns n ts) (sym n₁) names) h₁ in
      (s₂, rw e₁ e₂, n₂ ∙ n₁, h₂)

  -- A number from 0 to 1.
  abbrev pub IsPart : Float → Type 0
  IsPart t = (at_least t (of_int (pos 0)) ≡ true) × (at_least (of_int (pos 1)) t ≡ true)

  -- An angle from 0 to pi.
  abbrev pub IsAngle : Float → Type 0
  IsAngle a = (at_least a (of_int (pos 0)) ≡ true) × (at_least (narrow pi) a ≡ true)

  -- What rounding to the nearest float keeps: a part of pi is a part of 1; and a part of an integer,
  -- added to another, lies between that one and the sum, where the integers and their sum are floats.
  pub record IsRounding : Type 0 where
    pub part :
        (a : Float)
        → IsAngle a
        → IsPart (div (sub a (of_int (pos 0))) (sub (narrow pi) (of_int (pos 0))))
    pub scaled :
        (m n : ℕ) (t : Float)
        → m + n < 2 ^ 24
        → IsPart t
        → (pos m ≤ℤ to_int (add (of_int (pos m)) (mul (of_int (pos n)) t)))
          × (to_int (add (of_int (pos m)) (mul (of_int (pos n)) t)) ≤ℤ pos (m + n))

  flat_servo-InRange : (pin mid : ℕ) → InRange fl (pos 500) (pos 2500) (flat_servo fl pin mid).servo
  unfolding smooth_servo servo_angular ◌+ℤ◌ ◌/ℤ◌
  flat_servo-InRange pin mid = record {
    min_width = refl;
    max_width = refl;
    above = omega arith;
    below = omega arith;
    commanded = tt;
  }

  told-InRange :
      IsRounding
      → (a : Float) (pin mid : ℕ) → IsAngle a
      → InRange fl (pos 500) (pos 2500) (told fl a (flat_servo fl pin mid)).servo
  unfolding smooth_servo servo_angular set_angle command width_at ◌-ℤ◌
  told-InRange law a pin mid h =
      let t = div (sub a (of_int (pos 0))) (sub (narrow pi) (of_int (pos 0))) in
      let (above, below) = law.scaled 500 2000 t (omega arith) (law.part a h) in
      record {
        min_width = refl;
        max_width = refl;
        above = above;
        below = below;
        commanded = ((above, below), tt);
      }

  servos_flat-AllInRange :
      IsRounding
      → IsAngle (nearly_zero fl)
      → IsAngle (nearly_pi fl)
      → IsAngle (narrow pi)
      → AllInRange (servos_flat fl)
  unfolding servos_flat
  servos_flat-AllInRange law f₁ f₂ f₃ k s e =
      All-get (λ (q : SmoothServo fl). InRange fl (pos 500) (pos 2500) q.servo) (servos_flat fl) k
        (
          flat_servo-InRange 12 1500,
          (
            flat_servo-InRange 13 1420,
            (
              told-InRange law (nearly_zero fl) 26 1570 f₁,
              (
                told-InRange law (nearly_pi fl) 16 1420 f₂,
                (told-InRange law (narrow pi) 6 1500 f₃, (flat_servo-InRange 5 1500, tt)),
              ),
            ),
          ),
        )
        e

  six : length (servos_flat fl) ≡ 6
  unfolding servos_flat
  six = refl

  -- If arithmetic rounds as floats do, and the first angles, 0.1, 0.99 pi and pi, are from 0 to pi,
  -- then main's servos take any turns without a fault, batches of messages that each name one of the
  -- six servos and rounds of the threads in any order, and each width that a servo is told is in its
  -- range of 500 to 2500.
  pub servos_flat-turns :
      IsRounding
      → (ts : List (Turn fl)) → IsAngle (nearly_zero fl)
      → IsAngle (nearly_pi fl)
      → IsAngle (narrow pi)
      → Turns 6 ts
      → (servos : List (SmoothServo fl)) × (turns fl ts (servos_flat fl) ≡ done servos)
        × (length servos ≡ 6)
        × AllInRange servos
  servos_flat-turns law ts f₁ f₂ f₃ names =
      let (servos, e, n, h) =
        turns-AllInRange ts (servos_flat fl) (subst (λ (n : ℕ). Turns n ts) (sym six) names)
          (servos_flat-AllInRange law f₁ f₂ f₃) in
      (servos, e, n ∙ six, h)
