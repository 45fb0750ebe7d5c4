-- ===== src/Motor/Ids.antt =====
-- The ids of the waves of RaspberryPi/src/stepper.cpp, under pigpio's numbering.
use robot_arm.Base.{
  ℕ, zero, suc, ◌+◌, ◌≤◌, ◌<◌, ◌≡◌, refl, ap, ◌∙◌, true, false, List, [], ◌∷◌, map, ℤ, pos, negsuc,
  arith, length, length-map,
}
use robot_arm.Floats.{Floats}
use robot_arm.Ws.Run.{done}
use robot_arm.Motor.Wave.{
  Pulse, Pigpio, chain_of, pulse_create, create_all, delay_at, heights, wavechain_curve,
}
use robot_arm.Motor.Thread.{
  read_array, bez_buf, Globals, Thread, initial, delete_waves, slow_down, move_on, step, run,
}
use robot_arm.Motor.Journey.{at_target, is_near}

-- "Wave ids are allocated in order, 0, 1, 2, etc.", up to PI_MAX_WAVES of them; clearing starts again.
pub record Numbered (pg : Pigpio) : Type 0 where
  pub count : pg.Waves → ℕ
  pub count-clear : (w : pg.Waves) → count (pg.wave_clear w) ≡ 0
  pub count-add_new : (w : pg.Waves) → count (pg.wave_add_new w) ≡ count w
  pub count-add_generic :
      (ps : List Pulse) (w : pg.Waves) → count (pg.wave_add_generic ps w) ≡ count w
  pub create-id : (w : pg.Waves) → count w < 250 → (pg.wave_create w).1 ≡ pos (count w)
  pub count-create : (w : pg.Waves) → count w < 250 → count (pg.wave_create w).0 ≡ suc (count w)

-- `i`, `i + 1`, …: `n` ids
abbrev pub ids_from : ℕ → ℕ → List ℤ
ids_from i zero = []
ids_from i (suc n) = pos i ∷ ids_from (suc i) n

module _ (pg : Pigpio) (law : Numbered pg) where
  open pg use {Waves}
  open law use {count, count-clear, count-add_new, count-add_generic, create-id, count-create}

  same_count :
      (ps : List Pulse) (w : Waves) → count (pg.wave_add_generic ps (pg.wave_add_new w)) ≡ count w
  same_count ps w = count-add_generic ps (pg.wave_add_new w) ∙ count-add_new w

  create_lem :
      (w' w : Waves)
      → count w' ≡ count w
      → count w < 250
      → ((pg.wave_create w').1 ≡ pos (count w)) × (count (pg.wave_create w').0 ≡ suc (count w))
  create_lem w' w e l =
      let room : count w' < 250 = rw e l in
      (create-id w' room ∙ ap pos e, count-create w' room ∙ ap suc e)

  pulse_create_lem :
      (pin : ℕ) (us : ℤ) (n : ℕ) (low : ℤ) (w : Waves)
      → count w < 250
      → ((pulse_create pg pin us n low w).1 ≡ pos (count w))
        × (count (pulse_create pg pin us n low w).0 ≡ suc (count w))
  unfolding pulse_create
  pulse_create_lem pin us n low w l = create_lem _ w (same_count _ w) l

  create_all-ids :
      (pin ppf : ℕ) (ds : List ℤ) (w : Waves)
      → count w + length ds ≤ 250
      → (create_all pg pin ppf ds w).1 ≡ ids_from (count w) (length ds)
  unfolding create_all
  create_all-ids pin ppf [] w l = refl
  create_all-ids pin ppf (us ∷ ds) w l =
      let (e, c) = pulse_create_lem pin us ppf (negsuc 0) w (omega arith) in
      let w₁ = (pulse_create pg pin us ppf (negsuc 0) w).0 in
      let rest = create_all-ids pin ppf ds w₁ (rw c (omega arith)) in rw (e, rest, c) refl

module _ (fl : Floats) where
  length-heights : (n i k : ℕ) → length (heights fl n i k) ≡ k
  unfolding heights
  length-heights n i zero = refl
  length-heights n i (suc k) = ap suc (length-heights n (suc i) k)

  length-bez_buf : length (bez_buf fl) ≡ 200
  unfolding bez_buf
  length-bez_buf = length-map (heights fl 200 0 200) _ ∙ length-heights 200 0 200

module _ (fl : Floats) (pg : Pigpio) where
  open pg use {Waves}

  curve-ids :
      (law : Numbered pg) (pin : ℕ) (lo hi : ℤ) (ppf : ℕ) (w : Waves)
      → (w' : Waves) × (wavechain_curve fl pg pin (bez_buf fl) lo hi ppf w
          ≡ (pg.wave_chain (chain_of (ids_from 0 200)) w', ids_from 0 200))
  unfolding wavechain_curve
  curve-ids law pin lo hi ppf w =
      let ds = map (delay_at fl lo hi) (bez_buf fl) in
      let l : length ds ≡ 200 = length-map (bez_buf fl) (delay_at fl lo hi) ∙ length-bez_buf fl in
      let none_yet = law.count-clear w in
      let ids : (create_all pg pin ppf ds (pg.wave_clear w)).1 ≡ ids_from 0 200 =
        create_all-ids pg law pin ppf ds (pg.wave_clear w) (rw (none_yet, l) (omega arith))
        ∙ rw (none_yet, l) refl in
      ((create_all pg pin ppf ds (pg.wave_clear w)).0, rw ids refl)

  -- With pigpio's ids in order, a far move from the start and then a near round: the thread has put
  -- a chain of the waves 0, …, 199 for the ramp down, and deletes just those waves.
  pub slow_down-deletes_new :
      Numbered pg
      → (pin : ℕ) (g₁ g₂ : Globals fl) (w : Waves) → at_target fl pg g₁ ≡ false
      → is_near fl pg g₁ ≡ false
      → at_target fl pg g₂ ≡ false
      → is_near fl pg g₂ ≡ true
      → (t : Thread fl pg) × (w' : Waves) × (run fl pg pin (g₁ ∷ g₂ ∷ []) (initial fl pg w)
          ≡ done t)
        × (read_array t.wid_current t.heap ≡ done (ids_from 0 200))
        × (t.waves
            ≡ delete_waves fl pg (ids_from 0 200) (pg.wave_chain (chain_of (ids_from 0 200)) w'))
  unfolding run step move_on slow_down initial
  slow_down-deletes_new law pin g₁ g₂ w away₁ far away₂ near =
      let (w₁, e₁) = curve-ids law pin (pos 1500) (pos 150) 4 w in
      let fast = pg.wave_chain (chain_of (ids_from 0 200)) w₁ in
      let (w₂, e₂) = curve-ids law pin (pg.wave_get_micros fast) (pos 1000) 2 fast in
      rw (away₁, far, away₂, near, e₁, e₂) (_, w₂, refl, refl, refl)
