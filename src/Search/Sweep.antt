-- ===== src/Search/Sweep.antt =====
-- Where the sweep of `cam_search_thread` leads the camera.
use robot_arm.Base.{
  ℕ, zero, suc, ◌*◌, ◌≡◌, refl, ap, ◌∙◌, ◌⊎◌, inl, inr, true, false, ℤ, pos, negsuc, ◌+ℤ◌, ◌*ℤ◌,
  ◌≤ℤ◌, ◌<ℤ◌, ltb_ℤ, arith, int_laws, Bool-cases,
}
use robot_arm.Ws.Run.{done}
use robot_arm.Floats.{Floats}
use robot_arm.Gpio.Smooth.Bounds.{InRange, set_width-InRange}
use robot_arm.Search.{step_width, next_dir, Search, turned, search_step, search}

abbrev pub IsDir : ℤ → Type 0
IsDir dir = (dir ≡ pos 1) ⊎ (dir ≡ negsuc 0)

not_less : (a b : ℤ) → b ≤ℤ a → ltb_ℤ a b ≡ false
not_less a b h = ground arith

le_of_not_less : (a b : ℤ) → ltb_ℤ a b ≡ false → b ≤ℤ a
le_of_not_less a b h = ground arith

lt_of_less : (a b : ℤ) → ltb_ℤ a b ≡ true → a <ℤ b
lt_of_less a b h = ground arith

-- Forward: on where there is room, else back.
forward_lem :
    (w lo hi : ℤ)
    → lo ≤ℤ w
    → ((next_dir (pos 1) w lo hi ≡ pos 1) × (w +ℤ pos 150 ≤ℤ hi))
      ⊎ ((next_dir (pos 1) w lo hi ≡ negsuc 0) × (hi <ℤ w +ℤ pos 150))
unfolding next_dir ◌*ℤ◌
forward_lem w lo hi above = elim (Bool-cases (ltb_ℤ hi (w +ℤ pos 150))) [
  | inl out ↦ inr (rw out refl, lt_of_less hi (w +ℤ pos 150) out)
  | inr room ↦
      let low : ltb_ℤ (w +ℤ pos 150) lo ≡ false = not_less (w +ℤ pos 150) lo (omega int_laws) in
      inl (rw (room, low) refl, le_of_not_less hi (w +ℤ pos 150) room)
]

backward_lem :
    (w lo hi : ℤ)
    → w ≤ℤ hi
    → ((next_dir (negsuc 0) w lo hi ≡ negsuc 0) × (lo ≤ℤ w +ℤ negsuc 149))
      ⊎ ((next_dir (negsuc 0) w lo hi ≡ pos 1) × (w +ℤ negsuc 149 <ℤ lo))
unfolding next_dir ◌*ℤ◌
backward_lem w lo hi below = elim (Bool-cases (ltb_ℤ (w +ℤ negsuc 149) lo)) [
  | inl out ↦
      let high : ltb_ℤ hi (w +ℤ negsuc 149) ≡ false =
        not_less hi (w +ℤ negsuc 149) (omega int_laws) in
      inr (rw (high, out) refl, lt_of_less (w +ℤ negsuc 149) lo out)
  | inr room ↦
      let high : ltb_ℤ hi (w +ℤ negsuc 149) ≡ false =
        not_less hi (w +ℤ negsuc 149) (omega int_laws) in
      inl (rw (high, room) refl, le_of_not_less (w +ℤ negsuc 149) lo room)
]

step_forward : step_width *ℤ pos 1 ≡ pos 150
unfolding ◌*ℤ◌
step_forward = refl

step_backward : step_width *ℤ negsuc 0 ≡ negsuc 149
unfolding ◌*ℤ◌
step_backward = refl

-- The width after a step in a direction that keeps it in the range.
abbrev Good : ℤ → ℤ → ℤ → ℤ → Type 0
Good dir w lo hi = IsDir dir × (lo ≤ℤ w +ℤ step_width *ℤ dir) × (w +ℤ step_width *ℤ dir ≤ℤ hi)

Good-forward : (w lo hi : ℤ) → lo ≤ℤ w → w +ℤ pos 150 ≤ℤ hi → Good (pos 1) w lo hi
Good-forward w lo hi above room = (inl refl, rw step_forward (omega int_laws), rw step_forward room)

Good-backward : (w lo hi : ℤ) → w ≤ℤ hi → lo ≤ℤ w +ℤ negsuc 149 → Good (negsuc 0) w lo hi
Good-backward w lo hi below room =
    (inr refl, rw step_backward room, rw step_backward (omega int_laws))

next_dir_lem :
    (dir w lo hi : ℤ)
    → IsDir dir
    → lo ≤ℤ w
    → w ≤ℤ hi
    → lo +ℤ pos 299 ≤ℤ hi
    → Good (next_dir dir w lo hi) w lo hi
next_dir_lem dir w lo hi (inl is) above below wide = rw is (elim (forward_lem w lo hi above) [
  | inl (e, room) ↦ rw e (Good-forward w lo hi above room)
  | inr (e, out) ↦ rw e (Good-backward w lo hi below (omega int_laws))
])
next_dir_lem dir w lo hi (inr is) above below wide = rw is (elim (backward_lem w lo hi below) [
  | inl (e, room) ↦ rw e (Good-backward w lo hi below room)
  | inr (e, out) ↦ rw e (Good-forward w lo hi above (omega int_laws))
])

keeps_on : (w lo hi : ℤ) → lo ≤ℤ w → w +ℤ pos 150 ≤ℤ hi → next_dir (pos 1) w lo hi ≡ pos 1
keeps_on w lo hi above room = elim (forward_lem w lo hi above) [
  | inl (e, _) ↦ e
  | inr (_, out) ↦ absurd (omega arith)
]

module _ (fl : Floats) where
  -- The camera's width and every width that it was told are in the range.
  pub record IsSearch (lo hi : ℤ) (s : Search fl) : Type 0 where
    pub dir : IsDir s.dir
    pub range : InRange fl lo hi s.servo_cam_x

  -- A step of a round, and where it leads.
  search_step_lem :
      (lo hi : ℤ) (s : Search fl)
      → lo +ℤ pos 299 ≤ℤ hi
      → IsSearch lo hi s
      → (s' : Search fl) × (search_step fl s ≡ done s')
        × IsSearch lo hi s'
        × (s'.dir ≡ next_dir s.dir s.servo_cam_x.cur_width lo hi)
        × (s'.servo_cam_x.cur_width
            ≡ s.servo_cam_x.cur_width +ℤ step_width *ℤ next_dir s.dir s.servo_cam_x.cur_width lo hi)
  unfolding search_step turned
  search_step_lem lo hi s wide i =
      let x = s.servo_cam_x in
      let dir = next_dir s.dir x.cur_width x.min_width x.max_width in
      let same : dir ≡ next_dir s.dir x.cur_width lo hi =
        rw (i.range.min_width, i.range.max_width) refl in
      let good : Good dir x.cur_width lo hi =
        rw same (next_dir_lem s.dir x.cur_width lo hi i.dir i.range.above i.range.below wide) in
      let (servo, e, range, _, width) =
        set_width-InRange fl lo hi (x.cur_width +ℤ step_width *ℤ dir) x (omega int_laws) i.range
          good.1 good.2 in
      (
        turned fl dir servo s,
        rw e refl,
        record { dir = good.0; range = range },
        same,
        width ∙ ap (λ (d : ℤ). x.cur_width +ℤ step_width *ℤ d) same,
      )

  -- In a range of at least 299, the sweep never faults, and the camera's width and every width that
  -- it is told stay in the range, for any number of rounds.
  pub search-IsSearch :
      (n : ℕ) (lo hi : ℤ) (s : Search fl)
      → lo +ℤ pos 299 ≤ℤ hi
      → IsSearch lo hi s
      → (s' : Search fl) × (search fl n s ≡ done s') × IsSearch lo hi s'
  unfolding search
  search-IsSearch zero lo hi s wide i = (s, refl, i)
  search-IsSearch (suc n) lo hi s wide i =
      let (s₁, e₁, i₁, _, _) = search_step_lem lo hi s wide i in
      let (s₂, e₂, i₂) = search-IsSearch n lo hi s₁ wide i₁ in (s₂, rw e₁ e₂, i₂)

  -- In a range of at least 299, a sweep that goes up goes on by 150 in each of `n` rounds, as long
  -- as that stays in the range.
  pub search-straight :
      (n : ℕ) (lo hi : ℤ) (s : Search fl)
      → lo +ℤ pos 299 ≤ℤ hi
      → IsSearch lo hi s
      → s.dir ≡ pos 1
      → s.servo_cam_x.cur_width +ℤ pos (150 * n) ≤ℤ hi
      → (s' : Search fl) × (search fl n s ≡ done s')
        × (s'.dir ≡ pos 1)
        × (s'.servo_cam_x.cur_width ≡ s.servo_cam_x.cur_width +ℤ pos (150 * n))
  unfolding search
  search-straight zero lo hi s wide i up room = (s, refl, up, omega int_laws)
  search-straight (suc n) lo hi s wide i up room =
      let w = s.servo_cam_x.cur_width in
      let (s₁, e₁, i₁, d₁, w₁) = search_step_lem lo hi s wide i in
      let on : next_dir s.dir w lo hi ≡ pos 1 =
        rw up (keeps_on w lo hi i.range.above (omega int_laws)) in
      let next_width : s₁.servo_cam_x.cur_width ≡ w +ℤ pos 150 =
        w₁ ∙ ap (λ (d : ℤ). w +ℤ step_width *ℤ d) on ∙ ap (λ (d : ℤ). w +ℤ d) step_forward in
      let (s₂, e₂, d₂, w₂) =
        search-straight n lo hi s₁ wide i₁ (d₁ ∙ on) (rw next_width (omega int_laws)) in
      (s₂, rw e₁ e₂, d₂, w₂ ∙ rw next_width (omega int_laws))
