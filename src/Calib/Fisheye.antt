-- ===== src/Calib/Fisheye.antt =====
-- The flags of `validate` (Calib) and the matrix that `runCalibration` (Calib/Solve) begins with.
use robot_arm.Base.{
  ℕ, ◌≡◌, refl, sym, ◌∙◌, inl, inr, Bool, true, false, ◌||◌, ◌==◌, eq_refl, Option, none, some,
  List, [], ◌∷◌, if◌then◌else◌, Bool-cases,
}
use robot_arm.Floats.{Floats}
use robot_arm.Calib.{
  Text, Constants, Settings, is_digit, is_list_of_images, listed, read_string_list, choose_input,
  standard_flags, fisheye_flags, validate, add_if, has,
}
use robot_arm.Calib.Errors.{Opencv}
use robot_arm.Calib.Solve.{aspect_guess}

or_true : (a : Bool) {b : Bool} → b ≡ true → (a || b) ≡ true
or_true true e = refl
or_true false e = e

has-add_if :
    (b : Bool) (bit c : ℕ) (flag : List ℕ) → has c flag ≡ true → has c (add_if b bit flag) ≡ true
has-add_if true bit c flag e = or_true (bit == c) e
has-add_if false bit c flag e = e

has_here : (c b : ℕ) (flag : List ℕ) → b ≡ c → has c (b ∷ flag) ≡ true
has_here c b flag e = rw (e, eq_refl c) refl

module _ (fl : Floats) where
  listed-aspect :
      (s : Settings fl) (held : Option (List Text))
      → (listed fl s (read_string_list fl held)).aspect_ratio ≡ s.aspect_ratio
  listed-aspect s none = refl
  listed-aspect s (some l) = refl

  choose_input-aspect :
      (files : Text → Option (List Text)) (t : Text) (s : Settings fl)
      → (choose_input fl files t s).aspect_ratio ≡ s.aspect_ratio
  unfolding choose_input
  choose_input-aspect files [] s = refl
  choose_input-aspect files (c ∷ cs) s = elim (Bool-cases (is_digit c)) [
    | inl digit ↦ rw digit refl
    | inr other ↦ elim (Bool-cases (is_list_of_images (c ∷ cs))) [
      | inr video ↦ rw (other, video) refl
      | inl listing ↦ rw (other, listing) (listed-aspect s (files (c ∷ cs)))
    ]
  ]

  fisheye_flags-has :
      (cs : Constants) (s : Settings fl)
      → cs.fisheye_recompute_extrinsic ≡ cs.fix_aspect_ratio
      → has cs.fix_aspect_ratio (fisheye_flags fl cs s) ≡ true
  unfolding fisheye_flags
  fisheye_flags-has cs s e = has-add_if s.calib_fix_principal_point _ _ _ (
      has-add_if s.fix_k4 _ _ _ (
        has-add_if s.fix_k3 _ _ _ (
          has-add_if s.fix_k2 _ _ _ (
            has-add_if s.fix_k1 _ _ _ (
              has_here cs.fix_aspect_ratio cs.fisheye_recompute_extrinsic (cs.fisheye_fix_skew ∷ [])
                e)))))

  flags_of :
      (b : Bool) (x y : List ℕ) (c : ℕ)
      → b ≡ true
      → has c x ≡ true
      → has c (if b then x else y) ≡ true
  flags_of true x y c e h = h
  flags_of false x y c e h = cc

  -- With OpenCV's value, 2, for both the flag that fixes the aspect ratio and the fisheye model's flag
  -- that recomputes the extrinsic parameters, settings for the fisheye model make the calibration
  -- begin with the aspect ratio as the upper left entry of the camera matrix, even if it is 0 and no
  -- aspect ratio was to be fixed.
  aspect_guess-fisheye :
      (cv : Opencv fl) (cs : Constants) (tiny : fl.Double) (files : Text → Option (List Text))
      (s : Settings fl)
      → cs.fisheye_recompute_extrinsic ≡ 2
      → cs.fix_aspect_ratio ≡ 2
      → s.use_fisheye ≡ true
      → aspect_guess fl cv cs (validate fl cs tiny files s) ≡ fl.widen s.aspect_ratio
  unfolding aspect_guess validate
  aspect_guess-fisheye cv cs tiny files s e f fish =
      let set =
        flags_of s.use_fisheye (fisheye_flags fl cs s) (standard_flags fl cs s) cs.fix_aspect_ratio
          fish (fisheye_flags-has cs s (e ∙ sym f)) in
      rw (set, choose_input-aspect files s.input s) refl
