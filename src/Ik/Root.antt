-- ===== src/Ik/Root.antt =====
-- What `resolve` keeps.
use robot_arm.Base.{
  ℕ, zero, suc, ◌+◌, ◌-◌, ◌<◌, ◌≤◌, ◌≡◌, refl, sym, ap, ◌∙◌, inl, inr, true, List, [], ◌∷◌, get_or,
  set, length, length-set, Bool-cases, arith,
}
use native.Mathlib.Decide.{dec_lt}
use robot_arm.Floats.{Floats}
use robot_arm.Vec.{Vec3, origin, sub_v, add_v, scale, dist_sqr, normalize}
use robot_arm.Ik.{IkChain, at, length_at, stretch, pull, hang, iterate, resolve_poles, resolve}

module _ {A : Type 0} where
  get_or-set_same : (xs : List A) (i : ℕ) (v d : A) → i < length xs → get_or (set xs i v) i d ≡ v
  get_or-set_same [] i v d h = absurd (omega arith)
  get_or-set_same (x ∷ xs) zero v d h = refl
  get_or-set_same (x ∷ xs) (suc i) v d h = get_or-set_same xs i v d (omega arith)

  get_or-set_below :
      (xs : List A) (i k : ℕ) (v d : A) → k < i → get_or (set xs i v) k d ≡ get_or xs k d
  get_or-set_below [] i k v d h = refl
  get_or-set_below (x ∷ xs) zero k v d h = absurd (omega arith)
  get_or-set_below (x ∷ xs) (suc i) zero v d h = refl
  get_or-set_below (x ∷ xs) (suc i) (suc k) v d h = get_or-set_below xs i k v d (omega arith)

module _ (fl : Floats) where
  -- The first `n` positions stay, and so does the number of positions.
  abbrev pub Keeps : ℕ → List (Vec3 fl) → List (Vec3 fl) → Type 0
  Keeps n ps ps' = ((k : ℕ) → k < n → at fl ps' k ≡ at fl ps k) × (length ps' ≡ length ps)

  Keeps-trans : (n : ℕ) (ps qs rs : List (Vec3 fl)) → Keeps n ps qs → Keeps n qs rs → Keeps n ps rs
  Keeps-trans n ps qs rs (a, l) (b, m) = (λ k h. b k h ∙ a k h, m ∙ l)

  Keeps-set : (n i : ℕ) (ps : List (Vec3 fl)) (v : Vec3 fl) → n ≤ i → Keeps n ps (set ps i v)
  Keeps-set n i ps v h =
      (λ k lt. get_or-set_below ps i k v (origin fl) (omega arith), length-set ps i v)

  stretch-Keeps :
      (dir : Vec3 fl) (ls : List fl.Float) (k i : ℕ) (ps : List (Vec3 fl))
      → Keeps (suc i) ps (stretch fl dir ls k i ps)
  unfolding stretch
  stretch-Keeps dir ls zero i ps = (λ k h. refl, refl)
  stretch-Keeps dir ls (suc k) i ps =
      let ps₁ = set ps (suc i) (add_v fl (at fl ps i) (scale fl dir (length_at fl ls i))) in
      let (a, l) = stretch-Keeps dir ls k (suc i) ps₁ in
      Keeps-trans (suc i) ps ps₁ _ (Keeps-set (suc i) (suc i) ps _ (omega arith))
        (λ j h. a j (omega arith), l)

  hang-Keeps : (ls : List fl.Float) (k i : ℕ) (ps : List (Vec3 fl)) → Keeps 1 ps (hang fl ls k i ps)
  unfolding hang
  hang-Keeps ls zero i ps = (λ k h. refl, refl)
  hang-Keeps ls (suc k) i ps =
      Keeps-trans 1 ps (set ps (suc i) _) _ (Keeps-set 1 (suc i) ps _ (omega arith))
        (hang-Keeps ls k (suc i) _)

  pull-Keeps :
      (target : Vec3 fl) (ls : List fl.Float) (top k : ℕ) (ps : List (Vec3 fl))
      → Keeps 1 ps (pull fl target ls top k ps)
  unfolding pull
  pull-Keeps target ls top zero ps = (λ k h. refl, refl)
  pull-Keeps target ls top (suc k) ps =
      Keeps-trans 1 ps (set ps (suc k) _) _ (Keeps-set 1 (suc k) ps _ (omega arith))
        (pull-Keeps target ls top k _)

  iterate-Keeps :
      (c : IkChain fl) (target : Vec3 fl) (k : ℕ) (ps : List (Vec3 fl))
      → Keeps 1 ps (iterate fl c target k ps)
  unfolding iterate
  iterate-Keeps c target zero ps = (λ k h. refl, refl)
  iterate-Keeps c target (suc k) ps =
      let top = c.bone_count - 1 in
      let pulled = pull fl target c.bone_lengths top top ps in
      let hung = hang fl c.bone_lengths top 0 pulled in
      let once : Keeps 1 ps hung =
        Keeps-trans 1 ps pulled hung (pull-Keeps target c.bone_lengths top top ps)
          (hang-Keeps c.bone_lengths top 0 pulled) in
      elim (Bool-cases (fl.less (dist_sqr fl (at fl hung top) target) (fl.mul c.delta c.delta))) [
        | inl near ↦ rw near once
        | inr far ↦ rw far (
            Keeps-trans 1 ps hung (iterate fl c target k hung) once (iterate-Keeps c target k hung))
      ]

  resolve_poles-Keeps :
      (c : IkChain fl) (k i : ℕ) (ps : List (Vec3 fl)) → Keeps 1 ps (resolve_poles fl c k i ps)
  unfolding resolve_poles
  resolve_poles-Keeps c zero i ps = (λ k h. refl, refl)
  resolve_poles-Keeps c (suc k) i ps =
      Keeps-trans 1 ps (set ps (suc i) _) _ (Keeps-set 1 (suc i) ps _ (omega arith))
        (resolve_poles-Keeps c k (suc i) _)

  -- Whatever the floating-point operations do, `resolve` leaves the first bone where it is and keeps
  -- the number of bones, for a target in reach or not.
  resolve-Keeps :
      (target : Vec3 fl) (c : IkChain fl)
      → (at fl (resolve fl target c).bones 0 ≡ at fl c.bones 0)
        × (length (resolve fl target c).bones ≡ length c.bones)
  unfolding resolve
  resolve-Keeps target c =
      elim (Bool-cases
        (fl.less (fl.mul c.chain_length c.chain_length) (dist_sqr fl target (at fl c.bones 0)))) [
          | inl far ↦
              let (a, l) =
                stretch-Keeps (normalize fl (sub_v fl target (at fl c.bones 0))) c.bone_lengths
                  (c.bone_count - 1) 0 c.bones in
              rw far (a 0 (omega arith), l)
          | inr near ↦
              let ps = iterate fl c target c.iterations c.bones in
              let (a, l) =
                Keeps-trans 1 c.bones ps (resolve_poles fl c (c.bone_count - 2) 0 ps)
                  (iterate-Keeps c target c.iterations c.bones)
                  (resolve_poles-Keeps c (c.bone_count - 2) 0 ps) in
              rw near (a 0 (omega arith), l)
        ]

  stretch_lem :
      (dir : Vec3 fl) (ls : List fl.Float) (k i : ℕ) (ps : List (Vec3 fl))
      → i + k < length ps
      → (j : ℕ) → i ≤ j
      → j < i + k
      → at fl (stretch fl dir ls k i ps) (suc j)
        ≡ add_v fl (at fl (stretch fl dir ls k i ps) j) (scale fl dir (length_at fl ls j))
  unfolding stretch
  stretch_lem dir ls zero i ps room j above below = absurd (omega arith)
  stretch_lem dir ls (suc k) i ps room j above below =
      let v = add_v fl (at fl ps i) (scale fl dir (length_at fl ls i)) in
      let ps₁ = set ps (suc i) v in
      elim (dec_lt i j) [
        | yes later ↦
            stretch_lem dir ls k (suc i) ps₁ (omega (arith, length-set ps (suc i) v)) j
              (omega arith) (omega arith)
        | no now ↦
            let here : i ≡ j = omega arith in
            let (a, _) = stretch-Keeps dir ls k (suc i) ps₁ in
            let up : at fl (stretch fl dir ls k (suc i) ps₁) (suc i) ≡ v =
              a (suc i) (omega arith) ∙ get_or-set_same ps (suc i) v (origin fl) (omega arith) in
            let down : at fl (stretch fl dir ls k (suc i) ps₁) i ≡ at fl ps i =
              a i (omega arith) ∙ get_or-set_below ps (suc i) i v (origin fl) (omega arith) in
            rw (← here)
              (up ∙ ap (λ (p : Vec3 fl). add_v fl p (scale fl dir (length_at fl ls i))) (sym down))
      ]

  -- A target out of reach: each bone ends its length further in the direction from the first bone to
  -- the target, where there are as many positions as bones.
  pub resolve-stretched :
      (target : Vec3 fl) (c : IkChain fl) (j : ℕ)
      → fl.less (fl.mul c.chain_length c.chain_length) (dist_sqr fl target (at fl c.bones 0)) ≡ true
      → length c.bones ≡ c.bone_count
      → suc j < c.bone_count
      → at fl (resolve fl target c).bones (suc j)
        ≡ add_v fl (at fl (resolve fl target c).bones j) (
            scale fl
              (normalize fl (sub_v fl target (at fl c.bones 0)))
              (length_at fl c.bone_lengths j))
  unfolding resolve
  resolve-stretched target c j far full lt = rw far (
      stretch_lem (normalize fl (sub_v fl target (at fl c.bones 0))) c.bone_lengths
        (c.bone_count - 1) 0 c.bones (omega arith) j (omega arith) (omega arith))
