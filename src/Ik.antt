-- ===== src/Ik.antt =====
-- `IkChain` of RaspberryPi/src/XNlib/xn_ik.hpp: inverse kinematics of a chain of bones. The
-- arrays are lists; every index of the source is in range, and `at` gives the origin beyond it.
pub mod Root
pub mod Servos
pub mod Poses
pub mod Angles
pub mod Turning
pub mod Shape
pub mod Arm
pub mod Examples
use robot_arm.Base.{
  ℕ, zero, suc, ◌+◌, ◌-◌, Bool, true, false, List, [], ◌∷◌, ℤ, pos, if◌then◌else◌, ltb, ◌==◌,
  get_or, set, take, length,
}
use robot_arm.Floats.{Floats}
use robot_arm.Vec.{
  Vec3, origin, add_v, sub_v, scale, dot, dist_sqr, dist, normalize, cross, rotate_axis,
}

module _ (fl : Floats) where
  open fl use {Float, of_int, add, mul, less, atan2}

  -- The fields that `resolve` reads or writes; `bones` are the bones' positions.
  pub record IkChain : Type 0 where
    pub bone_count : ℕ
    pub iterations : ℕ
    pub delta : Float
    pub bone_lengths : List Float
    pub chain_length : Float
    pub bones : List (Vec3 fl)
    pub pole_main : Vec3 fl
    pub poles : List (Vec3 fl)

  abbrev pub at : List (Vec3 fl) → ℕ → Vec3 fl
  at ps i = get_or ps i (origin fl)

  abbrev pub length_at : List Float → ℕ → Float
  length_at ls i = get_or ls i (of_int (pos 0))

  -- Each bone's distance to the next, and 0 for the last.
  pub bone_lengths_of : List (Vec3 fl) → List Float
  bone_lengths_of [] = []
  bone_lengths_of (b ∷ []) = of_int (pos 0) ∷ []
  bone_lengths_of (b ∷ c ∷ bs) = dist fl c b ∷ bone_lengths_of (c ∷ bs)

  -- Their sum, from the last bone to the first.
  pub chain_length_of : List (Vec3 fl) → Float
  chain_length_of [] = of_int (pos 0)
  chain_length_of (b ∷ []) = of_int (pos 0)
  chain_length_of (b ∷ c ∷ bs) = add (chain_length_of (c ∷ bs)) (dist fl c b)

  -- The constructor; `delta` is 0.001, and `poles` what the new array holds.
  pub ik_chain : ℕ → List (Vec3 fl) → Vec3 fl → ℕ → Float → List (Vec3 fl) → IkChain
  ik_chain bone_count ordered_bones pole iterations delta poles =
      let bones = take bone_count ordered_bones in
      record {
        bone_count = bone_count;
        iterations = iterations;
        delta = delta;
        bone_lengths = bone_lengths_of bones;
        chain_length = chain_length_of bones;
        bones = bones;
        pole_main = pole;
        poles = poles;
      }

  -- A target out of reach: `k` bones from the bone `i` on are laid out towards it.
  pub stretch : Vec3 fl → List Float → ℕ → ℕ → List (Vec3 fl) → List (Vec3 fl)
  stretch dir ls zero i ps = ps
  stretch dir ls (suc k) i ps =
      stretch dir ls k (suc i) (set ps (suc i) (add_v fl (at ps i) (scale fl dir (length_at ls i))))

  -- From the top down to the bone 1: the last bone, `top`, goes to the target, the others follow.
  pub pull : Vec3 fl → List Float → ℕ → ℕ → List (Vec3 fl) → List (Vec3 fl)
  pull target ls top zero ps = ps
  pull target ls top (suc k) ps =
      let i = suc k in
      let d = scale fl (normalize fl (sub_v fl (at ps i) (at ps (suc i)))) (length_at ls i) in
      pull target ls top k (set ps i (if i == top then target else add_v fl (at ps (suc i)) d))

  -- From the bottom up, `k` bones from the bone `i` on: each goes back to its length from its parent.
  pub hang : List Float → ℕ → ℕ → List (Vec3 fl) → List (Vec3 fl)
  hang ls zero i ps = ps
  hang ls (suc k) i ps =
      let d = scale fl (normalize fl (sub_v fl (at ps (suc i)) (at ps i))) (length_at ls i) in
      hang ls k (suc i) (set ps (suc i) (add_v fl (at ps i) d))

  -- The iterations, until the last bone is near the target.
  pub iterate : IkChain → Vec3 fl → ℕ → List (Vec3 fl) → List (Vec3 fl)
  iterate c target zero ps = ps
  iterate c target (suc k) ps =
      let top = c.bone_count - 1 in
      let ps' = hang c.bone_lengths top 0 (pull target c.bone_lengths top top ps) in
      let rest = iterate c target k ps' in
      if less (dist_sqr fl (at ps' top) target) (mul c.delta c.delta) then ps' else rest

  -- The middle joint of the bones at `i`, turned towards the pole.
  pub bent : Vec3 fl → ℕ → List (Vec3 fl) → Vec3 fl
  bent pole i ps =
      let par = at ps i in
      let mid = at ps (suc i) in
      let norm = normalize fl (sub_v fl par (at ps (suc (suc i)))) in
      let proj_mid = sub_v fl (sub_v fl mid (scale fl norm (dot fl mid norm))) par in
      let proj_pole = sub_v fl (sub_v fl pole (scale fl norm (dot fl pole norm))) par in
      let ang = atan2 (dot fl proj_pole (cross fl norm proj_mid)) (dot fl proj_pole proj_mid) in
      add_v fl par (rotate_axis fl (sub_v fl mid par) norm ang)

  -- The pole of the joint at `i`.
  pub pole_at : IkChain → ℕ → Vec3 fl
  pole_at c i =
      if ltb 0 i
      then record { x = of_int (pos 0); y = of_int (pos 3); z = of_int (pos 0) }
      else c.pole_main

  pub resolve_poles : IkChain → ℕ → ℕ → List (Vec3 fl) → List (Vec3 fl)
  resolve_poles c zero i ps = ps
  resolve_poles c (suc k) i ps =
      resolve_poles c k (suc i) (set ps (suc i) (bent (pole_at c i) i ps))

  pub store_poles : IkChain → ℕ → ℕ → List (Vec3 fl) → List (Vec3 fl)
  store_poles c zero i poles = poles
  store_poles c (suc k) i poles = store_poles c k (suc i) (set poles i (pole_at c i))

  pub resolve : Vec3 fl → IkChain → IkChain
  resolve target c =
      if less (mul c.chain_length c.chain_length) (dist_sqr fl target (at c.bones 0))
      then record c {
        bones =
            stretch (normalize fl (sub_v fl target (at c.bones 0))) c.bone_lengths
              (c.bone_count - 1) 0 c.bones;
      }
      else record c {
        bones = resolve_poles c (c.bone_count - 2) 0 (iterate c target c.iterations c.bones);
        poles = store_poles c (c.bone_count - 2) 0 c.poles;
      }
