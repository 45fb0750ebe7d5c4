-- ===== src/Motor/Journey.antt =====
-- What the runs of `step_thread` (Motor/Thread) do to the arrays of wave ids: far moves and near ones.
use robot_arm.Base.{
  ℕ, suc, ◌<◌, ◌≡◌, refl, ap, ◌∙◌, inl, inr, Bool, true, false, not, ◌&&◌, ◌||◌, none, some, List,
  [], ◌∷◌, ◌++◌, pos, ◌-ℤ◌, eqb_ℤ, ltb_ℤ, if◌then◌else◌, length, get_or, set, arith, Bool-cases,
  and_true, length-set,
}
use robot_arm.Floats.{Floats}
use robot_arm.Ws.Run.{done, bad_pointer}
use robot_arm.Gpio.Smooth.{abs}
use robot_arm.Motor.Wave.{Pigpio, wavechain_curve}
use robot_arm.Motor.Thread.{
  Heap, Globals, Thread, initial, arrive, slow_down, move_on, step, run, bez_buf,
}
use robot_arm.Motor.Heap.{
  live, live-append, live-set, get-append-new, get-append-old, get-set-other, get-lt, Old,
  read-dead, Owned,
}

module _ (fl : Floats) (pg : Pigpio) where
  open pg use {Waves}

  abbrev pub at_target : Globals fl → Bool
  at_target g = eqb_ℤ g.cpos g.tpos

  abbrev pub is_near : Globals fl → Bool
  is_near g = ltb_ℤ (abs (g.cpos -ℤ g.tpos)) (pos 100)

  -- Every move begins, from rest, at least 100 steps from its target.
  abbrev pub starts_far : Bool → List (Globals fl) → Bool
  starts_far rest [] = true
  starts_far rest (g ∷ gs) = (at_target g || not (rest && is_near g)) && starts_far (at_target g) gs

  -- Whether the motor rests after the rounds.
  abbrev pub at_rest : Bool → List (Globals fl) → Bool
  at_rest rest [] = rest
  at_rest rest (g ∷ gs) = at_rest (at_target g) gs

  abbrev Idle : Thread fl pg → Type 0
  Idle t =
      (t.prev_moving ≡ false) × (t.prev_slow ≡ false) × Old t.wid_current t.heap × (live t.heap ≡ 0)

  abbrev Moving : Thread fl pg → Type 0
  Moving t = (t.prev_moving ≡ true) × Owned t.wid_current t.heap × (live t.heap ≡ 1)

  abbrev State : Bool → Thread fl pg → Type 0
  State true t = Idle t
  State false t = Moving t

  arrive-Idle : (t : Thread fl pg) → Idle t → arrive fl pg t ≡ done t
  unfolding arrive
  arrive-Idle t (m, s, old, none_live) = rw m refl

  arrive-Moving :
      (t : Thread fl pg) → Moving t → (t' : Thread fl pg) × (arrive fl pg t ≡ done t') × Idle t'
  unfolding arrive
  arrive-Moving t (m, (i, wid, p, e), one) =
      let old : i < length (set t.heap i none) =
        rw (length-set t.heap i none) (get-lt t.heap i e) in
      let dead : live (set t.heap i none) ≡ 0 = omega (arith, live-set t.heap i e) in
      rw (m, p, e) (_, refl, (refl, refl, old, dead))

  slow_down-Moving :
      (pin : ℕ) (t : Thread fl pg)
      → Moving t
      → (t' : Thread fl pg) × (slow_down fl pg pin t ≡ done t') × Moving t'
  unfolding slow_down
  slow_down-Moving pin t (m, (i, wid, p, e), one) =
      let twid =
        (wavechain_curve fl pg pin (bez_buf fl) (pg.wave_get_micros t.waves) (pos 1000) 2
          t.waves).1 in
      let h : Heap = t.heap ++ some twid ∷ [] in
      let l = get-lt t.heap i e in
      let found : get_or h i none ≡ some wid = get-append-old t.heap (some twid) i l ∙ e in
      let new : get_or (set h i none) (length t.heap) none ≡ some twid =
        get-set-other h i (length t.heap) (omega arith) ∙ get-append-new t.heap (some twid) in
      let once : live (set h i none) ≡ 1 =
        omega (arith, live-set h i found, live-append t.heap twid) in
      rw (p, found) (_, refl, (m, (length t.heap, twid, refl, new), once))

  move_on-Idle :
      (pin : ℕ) (g : Globals fl) (t : Thread fl pg) → Idle t → Moving (move_on fl pg pin g t)
  unfolding move_on
  move_on-Idle pin g t (m, s, old, none_live) =
      rw (m, s)
        (
          refl,
          (length t.heap, _, refl, get-append-new t.heap _),
          live-append t.heap _ ∙ ap suc none_live,
        )

  move_on-Moving :
      (pin : ℕ) (g : Globals fl) (t : Thread fl pg) → Moving t → Moving (move_on fl pg pin g t)
  unfolding move_on
  move_on-Moving pin g t (m, own, one) = rw m (refl, own, one)

  -- One round, from rest and on the way.
  step_lem :
      (pin : ℕ) (g : Globals fl) (rest : Bool) (t : Thread fl pg)
      → State rest t
      → (at_target g || not (rest && is_near g)) ≡ true
      → (t' : Thread fl pg) × (step fl pg pin g t ≡ done t') × State (at_target g) t'
  unfolding step
  step_lem pin g true t s far = elim (Bool-cases (at_target g)) [
    | inl there ↦ rw there (t, arrive-Idle t s, s)
    | inr away ↦
        let is_far : is_near g ≡ false = ground arith in
        rw (away, is_far) (move_on fl pg pin g t, refl, move_on-Idle pin g t s)
  ]
  step_lem pin g false t s far = elim (Bool-cases (at_target g)) [
    | inl there ↦ rw there (arrive-Moving t s)
    | inr away ↦ elim (Bool-cases (is_near g && not t.prev_slow)) [
      | inl near ↦ rw (away, near) (slow_down-Moving pin t s)
      | inr on ↦ rw (away, on) (move_on fl pg pin g t, refl, move_on-Moving pin g t s)
    ]
  ]

  run_lem :
      (pin : ℕ) (gs : List (Globals fl)) (rest : Bool) (t : Thread fl pg)
      → State rest t
      → starts_far rest gs ≡ true
      → (t' : Thread fl pg) × (run fl pg pin gs t ≡ done t') × State (at_rest rest gs) t'
  unfolding run
  run_lem pin [] rest t s far = (t, refl, s)
  run_lem pin (g ∷ gs) rest t s far =
      let (far_now, far_on) = and_true (at_target g || not (rest && is_near g)) far in
      let (t₁, e, s₁) = step_lem pin g rest t s far_now in
      rw e (run_lem pin gs (at_target g) t₁ s₁ far_on)

  initial-Idle : (w : Waves) → Idle (initial fl pg w)
  unfolding initial
  initial-Idle w = (refl, refl, tt, refl)

  live-State :
      (rest : Bool) (t : Thread fl pg) → State rest t → live t.heap ≡ (if rest then 0 else 1)
  live-State true t (_, _, _, l) = l
  live-State false t (_, _, l) = l

  -- If every move that begins from rest begins at least 100 steps from its target, the thread never
  -- reads or deletes through a bad pointer, however many rounds it makes and wherever the encoder
  -- says the motor is: at rest no array of wave ids is left allocated, on the way exactly one is.
  pub run-Owns :
      (pin : ℕ) (gs : List (Globals fl)) (w : Waves)
      → starts_far true gs ≡ true
      → (t : Thread fl pg) × (run fl pg pin gs (initial fl pg w) ≡ done t)
        × (live t.heap ≡ (if at_rest true gs then 0 else 1))
  run-Owns pin gs w far =
      let (t, e, s) = run_lem pin gs true (initial fl pg w) (initial-Idle w) far in
      (t, e, live-State (at_rest true gs) t s)

  near_step_lem :
      (pin : ℕ) (g : Globals fl) (t : Thread fl pg)
      → Idle t
      → at_target g ≡ false
      → is_near g ≡ true
      → step fl pg pin g t ≡ bad_pointer
  unfolding step slow_down
  near_step_lem pin g t (m, s, old, none_live) away near =
      rw (away, near, s, read-dead t.wid_current t.heap _ old none_live) refl

  near_run_lem :
      (pin : ℕ) (gs : List (Globals fl)) (g : Globals fl) (rest : Bool) (t : Thread fl pg)
      → State rest t
      → starts_far rest gs ≡ true
      → at_rest rest gs ≡ true
      → at_target g ≡ false
      → is_near g ≡ true
      → run fl pg pin (gs ++ g ∷ []) t ≡ bad_pointer
  unfolding run
  near_run_lem pin [] g true t s far r away near = rw (near_step_lem pin g t s away near) refl
  near_run_lem pin [] g false t s far r away near = cc
  near_run_lem pin (g₁ ∷ gs) g rest t s far r away near =
      let (far_now, far_on) = and_true (at_target g₁ || not (rest && is_near g₁)) far in
      let (t₁, e, s₁) = step_lem pin g₁ rest t s far_now in
      rw e (near_run_lem pin gs g (at_target g₁) t₁ s₁ far_on r away near)

  -- From rest, at the beginning or after moves that all began at least 100 steps from their target, a
  -- target less than 100 steps away makes the thread read an array of wave ids through a pointer that
  -- has no value yet or whose array is deleted.
  pub near_start-bad_pointer :
      (pin : ℕ) (gs : List (Globals fl)) (g : Globals fl) (w : Waves)
      → starts_far true gs ≡ true
      → at_rest true gs ≡ true
      → at_target g ≡ false
      → is_near g ≡ true
      → run fl pg pin (gs ++ g ∷ []) (initial fl pg w) ≡ bad_pointer
  near_start-bad_pointer pin gs g w far r away near =
      near_run_lem pin gs g true (initial fl pg w) (initial-Idle w) far r away near
