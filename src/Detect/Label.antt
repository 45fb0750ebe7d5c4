-- ===== src/Detect/Label.antt =====
-- The class that is followed: what the constructor of `TrackingInfo` (Detect) finds in the class file.
use robot_arm.Base.{
  ℕ, suc, ◌≡◌, refl, ◌⊎◌, inl, inr, true, false, none, some, List, [], ◌∷◌, pos, get_elem?, take,
  All, Bool-cases,
}
use robot_arm.Floats.{Floats}
use robot_arm.Detect.{Vision, TrackingInfo, ready, label_not_found, find, tracking_info}

module _ (fl : Floats) (cv : Vision fl) where
  open cv use {Text, same}

  abbrev pub Unlike : Text → List Text → Type 0
  Unlike label = All λ c. same c label ≡ false

  abbrev pub First : Text → List Text → ℕ → Type 0
  First label classes n =
      (c : Text) × (get_elem? classes n ≡ some c)
      × (same c label ≡ true)
      × Unlike label (take n classes)

  find_lem :
      (label : Text) (classes : List Text)
      → ((find fl cv label classes ≡ none) × Unlike label classes)
        ⊎ ((n : ℕ) × (find fl cv label classes ≡ some n) × First label classes n)
  unfolding find
  find_lem label [] = inl (refl, tt)
  find_lem label (c ∷ cs) = elim (Bool-cases (same c label)) [
    | inl here ↦ rw here (inr (0, refl, (c, refl, here, tt)))
    | inr not_here ↦ elim (find_lem label cs) [
      | inl (e, u) ↦ rw (not_here, e) (inl (refl, (refl, u)))
      | inr (n, e, (k, g, s, u)) ↦ rw (not_here, e) (inr (suc n, refl, (k, g, s, (not_here, u))))
    ]
  ]

  -- With the lines of the class file, the constructor of `TrackingInfo` throws and no line is the
  -- label, or it returns and `id` is the place of the first line that is.
  tracking_info-First :
      (label : Text) (classes : List Text)
      → ((tracking_info fl cv label (some classes) ≡ label_not_found) × Unlike label classes)
        ⊎ ((n : ℕ) × (t : TrackingInfo fl cv) × (tracking_info fl cv label (some classes) ≡ ready t)
            × (t.id ≡ pos n)
            × (t.classes ≡ classes)
            × First label classes n)
  unfolding tracking_info
  tracking_info-First label classes = elim (find_lem label classes) [
    | inl (e, u) ↦ rw e (inl (refl, u))
    | inr (n, e, f) ↦ rw e (inr (n, _, refl, refl, refl, f))
  ]
