-- ===== src/Gpio/Rotary/Reports.antt =====
-- What the user's callback is told.
use robot_arm.Base.{
  ℕ, ◌+◌, ◌*◌, ◌≡◌, refl, ◌∙◌, inl, inr, true, List, [], ◌∷◌, ◌++◌, ℤ, pos, ◌+ℤ◌, ◌/ℤ◌, ◌==◌,
  if◌then◌else◌, get_or, eqb_ℤ, eq_of_eqb_ℤ, Bool-cases,
}
use robot_arm.Gpio.Rotary.{
  RotaryEncoder, red_mode_detent, pi_timeout, transits, store_level, advance, callback_internal,
}

-- The last value that the callback got, and `d` before its first call.
abbrev pub last_call : ℤ → List ℤ → ℤ
last_call d [] = d
last_call d (c ∷ cs) = last_call c cs

last_call-snoc : (d c : ℤ) (cs : List ℤ) → last_call d (cs ++ c ∷ []) ≡ c
last_call-snoc d c [] = refl
last_call-snoc d c (b ∷ cs) = last_call-snoc b c cs

-- The position in the unit of the encoder's mode: detents of four quarter steps, or quarter steps.
abbrev pub position : RotaryEncoder → ℤ
position e = if e.mode == red_mode_detent then e.step /ℤ pos 4 else e.step

-- The caller's view is up to date: the last report, and at first the position `d`, is the position.
pub record UpToDate (d : ℤ) (e : RotaryEncoder) : Type 0 where
  pub listens : e.has_callback ≡ true
  pub current : last_call d e.calls ≡ position e

advance-UpToDate :
    (d : ℤ) (state_new : ℕ) (inc : ℤ) (e : RotaryEncoder)
    → UpToDate d e
    → UpToDate d (advance state_new inc e)
unfolding advance
advance-UpToDate d state_new inc e u = record {
  listens = u.listens;
  current = rw u.listens (elim (Bool-cases (e.mode == red_mode_detent)) [
    | inl detents ↦
        rw detents (elim (Bool-cases (eqb_ℤ (e.step /ℤ pos 4) ((e.step +ℤ inc) /ℤ pos 4))) [
          | inl same ↦
              rw same (u.current ∙ at_detents detents ∙ eq_of_eqb_ℤ (e.step /ℤ pos 4) _ same)
          | inr moved ↦ rw moved (last_call-snoc d _ e.calls)
        ])
    | inr steps ↦ rw steps (last_call-snoc d _ e.calls)
  ]);
}
  where
    at_detents : (e.mode == red_mode_detent) ≡ true → position e ≡ e.step /ℤ pos 4
    at_detents h = rw h refl

UpToDate-stored :
    (d : ℤ) (gpio level : ℕ) (e : RotaryEncoder)
    → UpToDate d e
    → UpToDate d (store_level gpio level e)
unfolding store_level
UpToDate-stored d gpio level e u = elim (Bool-cases (gpio == e.pin_a)) [
  | inl a ↦ rw a (record { listens = u.listens; current = u.current })
  | inr b ↦ rw b (record { listens = u.listens; current = u.current })
]

-- Any alerts at all, as pairs of a pin and a level.
pub alerts : List (ℕ × ℕ) → RotaryEncoder → RotaryEncoder
alerts [] e = e
alerts ((gpio, level) ∷ rest) e = alerts rest (callback_internal gpio level e)

callback_internal-UpToDate :
    (d : ℤ) (gpio level : ℕ) (e : RotaryEncoder)
    → UpToDate d e
    → UpToDate d (callback_internal gpio level e)
unfolding callback_internal
callback_internal-UpToDate d gpio level e u = elim (Bool-cases (level == pi_timeout)) [
  | inl timeout ↦ rw timeout u
  | inr edge ↦ rw edge (moves (store_level gpio level e) (UpToDate-stored d gpio level e u))
]
  where
    moves :
        (e' : RotaryEncoder)
        → UpToDate d e'
        → UpToDate d (
            if eqb_ℤ
              (get_or transits (4 * e'.state_old + (2 * e'.lev_a + e'.lev_b)) (pos 0))
              (pos 0)
            then e'
            else advance
                (2 * e'.lev_a + e'.lev_b)
                (get_or transits (4 * e'.state_old + (2 * e'.lev_a + e'.lev_b)) (pos 0))
                e')
    moves e' u' =
        elim (Bool-cases (
          eqb_ℤ (get_or transits (4 * e'.state_old + (2 * e'.lev_a + e'.lev_b)) (pos 0)) (pos 0))) [
            | inl still ↦ rw still u'
            | inr inc ↦ rw inc (advance-UpToDate d _ _ e' u')
          ]

-- Where the encoder has a callback whose last report is its position, that is still so after any
-- alerts, bounces and timeouts included; the position is in whole detents in detent mode and in
-- quarter steps otherwise.
pub alerts-UpToDate :
    (d : ℤ) (rest : List (ℕ × ℕ)) (e : RotaryEncoder) → UpToDate d e → UpToDate d (alerts rest e)
unfolding alerts
alerts-UpToDate d [] e u = u
alerts-UpToDate d ((gpio, level) ∷ rest) e u =
    alerts-UpToDate d rest (callback_internal gpio level e)
      (callback_internal-UpToDate d gpio level e u)
