-- ===== src/Ik/Angles.antt =====
-- The range of the angles that `ServoChain` (Ik/Servos) gives its servos.
use robot_arm.Base.{
  ℕ, suc, ◌≡◌, sym, ap, ◌∙◌, inl, inr, true, false, List, [], ◌∷◌, map, pos, if◌then◌else◌, length,
  All, Bool-cases,
}
use robot_arm.Floats.{Floats}
use robot_arm.Vec.{Vec3}
use robot_arm.Ik.Servos.{Joint, clamp_float, servo_angle, turn_axis}

-- The order of C's floating-point numbers, NaN included.
pub record IsOrder (fl : Floats) : Type 0 where
  pub irreflexive : (x : fl.Float) → fl.less x x ≡ false
  pub asymmetric : (x y : fl.Float) → fl.less x y ≡ true → fl.less y x ≡ false

module _ (fl : Floats) where
  open fl use {Float, Double, less, of_int, sub}

  -- A joint whose range begins at 0 and whose angle is in it.
  pub record Stops (q : Joint fl) : Type 0 where
    pub from_zero : q.min_angle ≡ of_int (pos 0)
    pub range : less q.max_angle q.min_angle ≡ false
    pub above : less q.target_angle q.min_angle ≡ false
    pub below : less q.max_angle q.target_angle ≡ false

  -- All joints of a bone, but the first of several.
  abbrev pub BoneStops : List (Joint fl) → Type 0
  BoneStops [] = Unit
  BoneStops (q ∷ []) = Stops q
  BoneStops (q ∷ r ∷ qs) = All Stops (r ∷ qs)

  -- The first bone has a joint.
  abbrev pub HasBase : List (List (Joint fl)) → Type 0
  HasBase [] = ⊥
  HasBase (qs ∷ servos) = (n : ℕ) × (length qs ≡ suc n)

  abbrev pub ArmStops : List (List (Joint fl)) → Type 0
  ArmStops = All BoneStops

module _ (fl : Floats) (law : IsOrder fl) where
  open fl use {Float, Double, less, of_int, sub}

  clamp_float-above :
      (n lo hi : Float) → less hi lo ≡ false → less (clamp_float fl n lo hi) lo ≡ false
  unfolding clamp_float
  clamp_float-above n lo hi r =
      let low = if less hi n then hi else n in
      elim (Bool-cases (less lo low)) [
        | inl up ↦ rw up (law.asymmetric lo low up)
        | inr down ↦ rw down (law.irreflexive lo)
      ]

  clamp_float-below :
      (n lo hi : Float) → less hi lo ≡ false → less hi (clamp_float fl n lo hi) ≡ false
  unfolding clamp_float
  clamp_float-below n lo hi r = elim (Bool-cases (less hi n)) [
    | inl over ↦ rw over (elim (Bool-cases (less lo hi)) [
      | inl up ↦ rw up (law.irreflexive hi)
      | inr down ↦ rw down r
    ])
    | inr under ↦
        rw under (elim (Bool-cases (less lo n)) [ inl up ↦ rw up under | inr down ↦ rw down r ])
  ]

  -- The new angle of a joint that does not go round.
  pub servo_angle-Stops :
      (q : Joint fl) (ang : Float)
      → Stops fl q
      → Stops fl (record q { target_angle = servo_angle fl false q ang })
  unfolding servo_angle
  servo_angle-Stops q ang s =
      let a = clamp_float fl (fl.add q.target_angle ang) q.min_angle q.max_angle in
      let above : less a q.min_angle ≡ false =
        clamp_float-above _ q.min_angle q.max_angle s.range in
      let not_below_zero : less a (of_int (pos 0)) ≡ false =
        ap (less a) (sym s.from_zero) ∙ above in
      record {
        from_zero = s.from_zero;
        range = s.range;
        above = rw not_below_zero above;
        below = rw not_below_zero (clamp_float-below _ q.min_angle q.max_angle s.range);
      }

  turn_axis-Stops :
      (ax : Vec3 fl) (ang : Float) (q : Joint fl) → Stops fl q → Stops fl (turn_axis fl ax ang q)
  turn_axis-Stops ax ang q s = record {
    from_zero = s.from_zero;
    range = s.range;
    above = s.above;
    below = s.below;
  }

  pub turn_axes-Stops :
      (ax : Vec3 fl) (ang : Float) (qs : List (Joint fl))
      → All (Stops fl) qs
      → All (Stops fl) (map (turn_axis fl ax ang) qs)
  turn_axes-Stops ax ang [] s = tt
  turn_axes-Stops ax ang (q ∷ qs) (h, s) = (turn_axis-Stops ax ang q h, turn_axes-Stops ax ang qs s)

  turn_axes-BoneStops :
      (ax : Vec3 fl) (ang : Float) (qs : List (Joint fl))
      → BoneStops fl qs
      → BoneStops fl (map (turn_axis fl ax ang) qs)
  turn_axes-BoneStops ax ang [] s = tt
  turn_axes-BoneStops ax ang (q ∷ []) s = turn_axis-Stops ax ang q s
  turn_axes-BoneStops ax ang (q ∷ r ∷ qs) s = turn_axes-Stops ax ang (r ∷ qs) s

  pub turn_axes-ArmStops :
      (ax : Vec3 fl) (ang : Float) (servos : List (List (Joint fl)))
      → ArmStops fl servos
      → ArmStops fl (map (map (turn_axis fl ax ang)) servos)
  turn_axes-ArmStops ax ang [] s = tt
  turn_axes-ArmStops ax ang (qs ∷ servos) (h, s) =
      (turn_axes-BoneStops ax ang qs h, turn_axes-ArmStops ax ang servos s)
