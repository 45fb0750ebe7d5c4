-- ===== src/Calib/Valid.antt =====
-- What `validate` (Calib) accepts.
use robot_arm.Base.{
  ◌≡◌, ◌≢◌, ◌↔◌, ◌⊎◌, ◌==◌, eq_of_==_true, refl, sym, ◌∙◌, inl, inr, Bool, true, false, not, ◌&&◌,
  Option, none, some, List, [], ◌∷◌, pos, ltb_ℤ, ◌<ℤ◌, arith, Bool-cases, and_true,
}
use robot_arm.Floats.{Floats}
use robot_arm.Calib.{
  Text, Constants, Settings, same, not_existing, chessboard_name, circles_grid_name,
  asymmetric_name, pattern_of, choose_input, listed, read_string_list, good_numbers, validate,
  is_digit, is_invalid, is_missing, is_list_of_images,
}

-- The characters of "CHESSBOARD", "CIRCLES_GRID" and "ASYMMETRIC_CIRCLES_GRID".
abbrev pub IsKnown : Text → Type 0
IsKnown t =
    (t ≡ 67 ∷ 72 ∷ 69 ∷ 83 ∷ 83 ∷ 66 ∷ 79 ∷ 65 ∷ 82 ∷ 68 ∷ [])
    ⊎ ((t ≡ 67 ∷ 73 ∷ 82 ∷ 67 ∷ 76 ∷ 69 ∷ 83 ∷ 95 ∷ 71 ∷ 82 ∷ 73 ∷ 68 ∷ [])
        ⊎ (t
            ≡ 65 ∷ 83 ∷ 89 ∷ 77 ∷ 77 ∷ 69 ∷ 84 ∷ 82 ∷ 73 ∷ 67 ∷ 95 ∷ 67 ∷ 73 ∷ 82 ∷ 67 ∷ 76 ∷ 69
              ∷ 83 ∷ 95 ∷ 71 ∷ 82 ∷ 73 ∷ 68 ∷ []))

same-≡ : (s t : Text) → same s t ≡ true → s ≡ t
same-≡ [] [] e = refl
same-≡ [] (b ∷ t) e = cc
same-≡ (a ∷ s) [] e = cc
same-≡ (a ∷ s) (b ∷ t) e =
    let (h, l) = and_true (a == b) e in let x = eq_of_==_true a b h in let y = same-≡ s t l in cc

missing-IsKnown : (t : Text) → is_missing (pattern_of t) ≡ false → IsKnown t
unfolding pattern_of
missing-IsKnown t e = elim (Bool-cases (same t asymmetric_name)) [
  | inl a ↦ inr (inr (same-≡ t asymmetric_name a))
  | inr not_a ↦ elim (Bool-cases (same t circles_grid_name)) [
    | inl c ↦ inr (inl (same-≡ t circles_grid_name c))
    | inr not_c ↦ elim (Bool-cases (same t chessboard_name)) [
      | inl b ↦ inl (same-≡ t chessboard_name b)
      | inr not_b ↦ absurd (let z : true ≡ false = rw (not_a, not_c, not_b) at e in cc)
    ]
  ]
]

IsKnown-missing : (t : Text) → IsKnown t → is_missing (pattern_of t) ≡ false
unfolding pattern_of
IsKnown-missing t (inl e) = rw e refl
IsKnown-missing t (inr (inl e)) = rw e refl
IsKnown-missing t (inr (inr e)) = rw e refl

pub IsKnown-pattern : (t : Text) → IsKnown t → pattern_of t ≢ not_existing
IsKnown-pattern t k e =
    let missing : is_missing (pattern_of t) ≡ true = rw e refl in
    let z : true ≡ false = sym missing ∙ IsKnown-missing t k in cc

module _ (fl : Floats) where
  -- The settings that the program can go on with.
  pub record IsGood (tiny : fl.Double) (s : Settings fl) : Type 0 where
    pub width : pos 0 <ℤ s.board_size.width
    pub height : pos 0 <ℤ s.board_size.height
    pub square : fl.at_least_d tiny (fl.widen s.square_size) ≡ false
    pub frames : pos 0 <ℤ s.nr_frames
    pub named : s.input ≢ []
    pub known : IsKnown s.pattern_to_use

  abbrev is_empty : Text → Bool
  is_empty [] = true
  is_empty (c ∷ cs) = false

  listed-invalid :
      (s : Settings fl) (held : Option (List Text))
      → is_invalid (listed fl s (read_string_list fl held)).input_type ≡ false
  listed-invalid s none = refl
  listed-invalid s (some l) = refl

  -- The input is the number of a camera.
  abbrev pub is_camera : Text → Bool
  is_camera [] = false
  is_camera (c ∷ cs) = is_digit c

  choose_input-invalid :
      (files : Text → Option (List Text)) (t : Text) (s : Settings fl)
      → is_invalid (choose_input fl files t s).input_type ≡ is_empty t
  unfolding choose_input
  choose_input-invalid files [] s = refl
  choose_input-invalid files (c ∷ cs) s = elim (Bool-cases (is_digit c)) [
    | inl digit ↦ rw digit refl
    | inr other ↦ elim (Bool-cases (is_list_of_images (c ∷ cs))) [
      | inr video ↦ rw (other, video) refl
      | inl listing ↦ rw (other, listing) (listed-invalid s (files (c ∷ cs)))
    ]
  ]

  not-true : (a : Bool) → not a ≡ true → a ≡ false
  not-true false e = refl
  not-true true e = cc

  named_lem : (t : Text) → is_empty t ≡ false → t ≢ []
  named_lem [] e q = cc
  named_lem (c ∷ cs) e q = cc

  named_back : (t : Text) → t ≢ [] → is_empty t ≡ false
  named_back [] n = absurd (n refl)
  named_back (c ∷ cs) n = refl

  good_numbers_lem :
      (tiny : fl.Double) (s : Settings fl)
      → good_numbers fl tiny s ≡ true
      → (pos 0 <ℤ s.board_size.width)
        × (pos 0 <ℤ s.board_size.height)
        × (fl.at_least_d tiny (fl.widen s.square_size) ≡ false)
        × (pos 0 <ℤ s.nr_frames)
  unfolding good_numbers
  good_numbers_lem tiny s e = ground arith

  good_numbers_back :
      (tiny : fl.Double) (s : Settings fl) → IsGood tiny s → good_numbers fl tiny s ≡ true
  unfolding good_numbers
  good_numbers_back tiny s g = ground (arith, g.width, g.height, g.square, g.frames)

  validate-tests :
      (cs : Constants) (tiny : fl.Double) (files : Text → Option (List Text)) (s : Settings fl)
      → (validate fl cs tiny files s).good_input ≡ (
          good_numbers fl tiny s
          && not (is_empty s.input)
          && not (is_missing (pattern_of s.pattern_to_use)))
  unfolding validate
  validate-tests cs tiny files s = rw (choose_input-invalid files s.input s) refl

  tests-IsGood :
      (tiny : fl.Double) (s : Settings fl)
      → (good_numbers fl tiny s
          && not (is_empty s.input)
          && not (is_missing (pattern_of s.pattern_to_use)))
        ≡ true
      → IsGood tiny s
  tests-IsGood tiny s e =
      let (both, known) = and_true (good_numbers fl tiny s && not (is_empty s.input)) e in
      let (numbers, named) = and_true (good_numbers fl tiny s) both in
      let (w, h, sq, fr) = good_numbers_lem tiny s numbers in
      record {
        width = w;
        height = h;
        square = sq;
        frames = fr;
        named = named_lem s.input (not-true (is_empty s.input) named);
        known = missing-IsKnown s.pattern_to_use (not-true _ known);
      }

  IsGood-tests :
      (tiny : fl.Double) (s : Settings fl)
      → IsGood tiny s
      → (good_numbers fl tiny s
          && not (is_empty s.input)
          && not (is_missing (pattern_of s.pattern_to_use)))
        ≡ true
  IsGood-tests tiny s g =
      let known = IsKnown-missing s.pattern_to_use g.known in
      rw (good_numbers_back tiny s g, named_back s.input g.named, known) refl

  -- The settings are accepted if and only if the board has a width and a height above 0, its squares
  -- are greater than 10e-6, at least one frame is asked for, an input is named and the pattern is named as
  -- one of the three: what the input's file holds plays no part.
  pub validate-IsGood :
      (cs : Constants) (tiny : fl.Double) (files : Text → Option (List Text)) (s : Settings fl)
      → ((validate fl cs tiny files s).good_input ≡ true) ↔ IsGood tiny s
  validate-IsGood cs tiny files s = (
    λ e. tests-IsGood tiny s (sym (validate-tests cs tiny files s) ∙ e),
    λ g. validate-tests cs tiny files s ∙ IsGood-tests tiny s g,
  )

  no_pictures_lem :
      (files : Text → Option (List Text)) (s : Settings fl) (t : Text)
      → is_camera t ≡ false
      → is_list_of_images t ≡ true
      → files t ≡ some []
      → pos 0 <ℤ s.nr_frames
      → (choose_input fl files t s).nr_frames ≡ pos 0
  unfolding choose_input is_list_of_images
  no_pictures_lem files s [] other listing held l = cc
  no_pictures_lem files s (c ∷ cs) other listing held l =
      let more : ltb_ℤ s.nr_frames (pos 0) ≡ false = ground arith in
      rw (other, listing, held, more) refl

  -- Good settings whose input is a file that holds an empty list of pictures are accepted, and ask for
  -- 0 frames.
  validate-no_pictures :
      (cs : Constants) (tiny : fl.Double) (files : Text → Option (List Text)) (s : Settings fl)
      → IsGood tiny s
      → is_camera s.input ≡ false
      → is_list_of_images s.input ≡ true
      → files s.input ≡ some []
      → let s' = validate fl cs tiny files s in (s'.good_input ≡ true) × (s'.nr_frames ≡ pos 0)
  unfolding validate
  validate-no_pictures cs tiny files s g other listing held = (
    (validate-IsGood cs tiny files s).1 g,
    no_pictures_lem files s s.input other listing held g.frames,
  )
