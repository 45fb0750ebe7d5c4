-- ===== src/Gpio/Rotary/Turns.antt =====
-- The decoder against the shaft's quarter steps.
use robot_arm.Base.{
  ℕ, ◌+◌, ◌*◌, ◌≡◌, ap, ◌∙◌, ◌≢◌, Bool, true, false, List, [], ◌∷◌, ℤ, pos, negsuc, ◌+ℤ◌, +ℤ_assoc,
  arith, if◌then◌else◌, int_laws,
}
use robot_arm.Gpio.Rotary.{RotaryEncoder, rotary_encoder, store_level, advance, callback_internal}

pub data Turn : Type 0 where
  forward backward : Turn

-- The four positions of a cycle of the two contacts, and their levels.
pub data Quarter : Type 0 where
  q00 q10 q11 q01 : Quarter

abbrev pub level_a : Quarter → ℕ
level_a q00 = 0
level_a q10 = 1
level_a q11 = 1
level_a q01 = 0

abbrev pub level_b : Quarter → ℕ
level_b q00 = 0
level_b q10 = 0
level_b q11 = 1
level_b q01 = 1

abbrev pub turned : Turn → Quarter → Quarter
turned forward q00 = q10
turned forward q10 = q11
turned forward q11 = q01
turned forward q01 = q00
turned backward q00 = q01
turned backward q10 = q00
turned backward q11 = q10
turned backward q01 = q11

abbrev pub amount : Turn → ℤ
amount forward = pos 1
amount backward = negsuc 0

-- A quarter step changes one contact; pigpio reports that pin and its new level.
abbrev pub changes_a : Turn → Quarter → Bool
changes_a forward q00 = true
changes_a forward q11 = true
changes_a backward q10 = true
changes_a backward q01 = true
changes_a _ _ = false

pub alert : Turn → Quarter → RotaryEncoder → RotaryEncoder
alert d q e =
    if changes_a d q
    then callback_internal e.pin_a (level_a (turned d q)) e
    else callback_internal e.pin_b (level_b (turned d q)) e

-- The decoder's memory of the contacts is what they are.
pub record InSync (q : Quarter) (e : RotaryEncoder) : Type 0 where
  pub pins : e.pin_a ≢ e.pin_b
  pub a : e.lev_a ≡ level_a q
  pub b : e.lev_b ≡ level_b q
  pub state : e.state_old ≡ 2 * level_a q + level_b q

abbrev Tracked : Turn → Quarter → RotaryEncoder → RotaryEncoder → Type 0
Tracked d q e e' = InSync (turned d q) e' × (e'.step ≡ e.step +ℤ amount d)

alert-tracks :
    (d : Turn) (q : Quarter) (e : RotaryEncoder) → InSync q e → Tracked d q e (alert d q e)
unfolding alert callback_internal store_level advance
alert-tracks forward q00 e s = ground arith
alert-tracks forward q10 e s = ground arith
alert-tracks forward q11 e s = ground arith
alert-tracks forward q01 e s = ground arith
alert-tracks backward q00 e s = ground arith
alert-tracks backward q10 e s = ground arith
alert-tracks backward q11 e s = ground arith
alert-tracks backward q01 e s = ground arith

-- The alerts of a movement of the shaft, one quarter step after another.
pub follow : List Turn → Quarter → RotaryEncoder → RotaryEncoder
follow [] q e = e
follow (d ∷ ds) q e = follow ds (turned d q) (alert d q e)

abbrev pub arrives : List Turn → Quarter → Quarter
arrives [] q = q
arrives (d ∷ ds) q = arrives ds (turned d q)

-- Quarter steps forward less quarter steps backward.
pub net : List Turn → ℤ
net [] = pos 0
net (d ∷ ds) = amount d +ℤ net ds

-- A decoder whose memory of the contacts is right, on two different pins, counts any movement of
-- the shaft, forward less backward quarter steps, and its memory stays right.
pub follow-net :
    (ds : List Turn) (q : Quarter) (e : RotaryEncoder)
    → InSync q e
    → InSync (arrives ds q) (follow ds q e) × ((follow ds q e).step ≡ e.step +ℤ net ds)
unfolding follow net
follow-net [] q e s = (s, omega (int_laws))
follow-net (d ∷ ds) q e s =
    let (s₁, moved) = alert-tracks d q e s in
    let (s₂, total) = follow-net ds (turned d q) (alert d q e) s₁ in
    (s₂, total ∙ ap (λ (n : ℤ). n +ℤ net ds) moved ∙ +ℤ_assoc e.step (amount d) (net ds))

-- A new encoder on two different pins that rest high, as the pull-ups leave them, does not count
-- the first quarter step, in either direction.
first_turn_lost :
    (d : Turn) (pin_a pin_b mode memory : ℕ) (has_callback : Bool) (step : ℤ)
    → pin_a ≢ pin_b
    → (alert d q11 (rotary_encoder pin_a pin_b has_callback mode step 1 1 memory)).step ≡ step
unfolding alert callback_internal store_level advance rotary_encoder
first_turn_lost forward pin_a pin_b mode memory has_callback step ne = ground arith
first_turn_lost backward pin_a pin_b mode memory has_callback step ne = ground arith
