-- ===== src/Gpio/Servo/Position.antt =====
-- What a servo's position means after `setWidth`.
use robot_arm.Base.{
  ◌≡◌, refl, ap, ◌∙◌, sym, false, [], ◌∷◌, ◌++◌, ℤ, pos, negsuc, ◌-ℤ◌, ◌/ℤ◌, ◌≤ℤ◌, ◌<ℤ◌, arith,
  int_laws, eqb_ℤ, eq_of_eqb_ℤ, if◌then◌else◌, inl, inr, Bool-cases,
}
use robot_arm.Ws.Run.{done}
use robot_arm.Floats.{Floats}
use robot_arm.Gpio.Servo.{
  ServoAngular, command, store_width, set_width, width_at, set_position, move_position,
}
use robot_arm.Gpio.Servo.Quotient.{quotient-nonzero}
use native.Mathlib.Nat.{div-eq_of_lt, div_self}

quotient_below : (a b : ℤ) → pos 0 ≤ℤ a → a <ℤ b → a /ℤ b ≡ pos 0
unfolding ◌/ℤ◌
quotient_below (pos a) (pos b) h lt = ap pos (div-eq_of_lt (omega arith))
quotient_below (pos a) (negsuc b) h lt = absurd (omega arith)
quotient_below (negsuc a) b h lt = absurd (omega arith)

quotient_self : (a : ℤ) → pos 0 <ℤ a → a /ℤ a ≡ pos 1
unfolding ◌/ℤ◌
quotient_self (pos a) lt = ap pos (div_self (omega arith))
quotient_self (negsuc a) lt = absurd (omega arith)

lt_of_ne : (a b : ℤ) → a ≤ℤ b → eqb_ℤ a b ≡ false → a <ℤ b
lt_of_ne a b h ne = ground arith

-- The quotient that `setWidth` computes.
part :
    (w lo hi : ℤ)
    → lo ≤ℤ w
    → w ≤ℤ hi
    → lo <ℤ hi
    → (w -ℤ lo) /ℤ (hi -ℤ lo) ≡ (if eqb_ℤ w hi then pos 1 else pos 0)
part w lo hi above below range = elim (Bool-cases (eqb_ℤ w hi)) [
  | inl top ↦ rw top (
      ap (λ (v : ℤ). (v -ℤ lo) /ℤ (hi -ℤ lo)) (eq_of_eqb_ℤ w hi top)
      ∙ quotient_self (hi -ℤ lo) (omega int_laws))
  | inr inside ↦ rw inside (
      quotient_below (w -ℤ lo) (hi -ℤ lo) (omega int_laws)
        (let under = lt_of_ne w hi below inside in omega int_laws))
]

module _ (fl : Floats) where
  open fl use {Float, of_int, add}

  -- `setWidth` to a width of a range that is not empty stores and commands that width; the
  -- position is then 1 at the upper end and 0 everywhere else.
  pub set_width-position :
      (w : ℤ) (s : ServoAngular fl)
      → s.min_width ≤ℤ w
      → w ≤ℤ s.max_width
      → s.min_width <ℤ s.max_width
      → (s' : ServoAngular fl) × (set_width fl w s ≡ done s')
        × (s'.cur_width ≡ w)
        × (s'.position_normalized ≡ of_int (if eqb_ℤ w s.max_width then pos 1 else pos 0))
        × (s'.calls ≡ s.calls ++ (s.ctl_pin, w) ∷ [])
  unfolding set_width store_width command
  set_width-position w s above below range =
      let q = (w -ℤ s.min_width) /ℤ (s.max_width -ℤ s.min_width) in
      (
        store_width fl w q s,
        rw (quotient-nonzero (w -ℤ s.min_width) s.min_width s.max_width range) refl,
        refl,
        ap of_int (part w s.min_width s.max_width above below range),
        refl,
      )

  -- After `setWidth` to any two widths of the range below its upper end, `movePosition` by the
  -- same amount leads to the same width.
  pub move_position-forgets :
      (w w' : ℤ) (a : Float) (s : ServoAngular fl)
      → s.min_width ≤ℤ w
      → w <ℤ s.max_width
      → s.min_width ≤ℤ w'
      → w' <ℤ s.max_width
      → (s₁ : ServoAngular fl) × (s₂ : ServoAngular fl) × (set_width fl w s ≡ done s₁)
        × (set_width fl w' s ≡ done s₂)
        × ((move_position fl a s₁).cur_width ≡ (move_position fl a s₂).cur_width)
  unfolding move_position set_position width_at set_width store_width command
  move_position-forgets w w' a s above below above' below' =
      let range = s.max_width -ℤ s.min_width in
      let q = (w -ℤ s.min_width) /ℤ range in
      let q' = (w' -ℤ s.min_width) /ℤ range in
      let zero_q : q ≡ pos 0 =
        quotient_below (w -ℤ s.min_width) range (omega int_laws) (omega int_laws) in
      let zero_q' : q' ≡ pos 0 =
        quotient_below (w' -ℤ s.min_width) range (omega int_laws) (omega int_laws) in
      (
        store_width fl w q s,
        store_width fl w' q' s,
        rw (quotient-nonzero (w -ℤ s.min_width) s.min_width s.max_width (omega arith)) refl,
        rw (quotient-nonzero (w' -ℤ s.min_width) s.min_width s.max_width (omega arith)) refl,
        ap (λ (n : ℤ). width_at fl (add (of_int n) a) s) (zero_q ∙ sym zero_q'),
      )
