-- ===== src/Detect/Whole.antt =====
-- The whole of `postprocess` (Detect/Track) on the outputs of a network whose last layer is "Region".
use robot_arm.Base.{
  ℕ, suc, ◌+◌, ◌<◌, ◌≤◌, ◌≡◌, refl, ap, inl, inr, true, false, not, ◌||◌, if◌then◌else◌, ltb, some,
  List, [], ◌∷◌, ◌++◌, ℤ, length, get_elem?, All, All-append, All-map, arith, Bool-cases,
}
use robot_arm.Floats.{Floats}
use robot_arm.Ws.Run.{done}
use robot_arm.Detect.{Vision, YoloInfo, Detection, TrackingInfo}
use robot_arm.Detect.Decode.{region, region_box}
use robot_arm.Detect.Track.{regions, decode, decode_regions, postprocess, draw_all}
use robot_arm.Detect.Suppress.{suppress}
use robot_arm.Detect.Kept.{vectors, join-vectors, KeepsIndices, suppress_lem}
use robot_arm.Detect.Followed.{IsClass, last_of, outlined, Follows, draw_all_lem}

-- A detection of the list.
abbrev pub Among : {A : Type 0} → List A → A → Type 0
Among xs x = (i : ℕ) × (get_elem? xs i ≡ some x)

All-Among : {A : Type 0} (xs : List A) → All (Among xs) xs
All-Among [] = tt
All-Among (x ∷ xs) = ((0, refl), All-map xs (λ y h. (suc h.0, h.1)) (All-Among xs))

IsClass-le : (n m : ℕ) (c : ℤ) → n ≤ m → IsClass n c → IsClass m c
IsClass-le n m c l (i, e, h) = (i, e, omega arith)

All-zip :
    {A : Type 0} (P Q : A → Type 0) (xs : List A) → All P xs → All Q xs → All (λ x. P x × Q x) xs
All-zip P Q [] p q = tt
All-zip P Q (x ∷ xs) (h, p) (k, q) = ((h, k), All-zip P Q xs p q)

module _ (fl : Floats) (cv : Vision fl) where
  -- What is documented of `minMaxLoc`: the place of the greatest is a place of the row.
  abbrev pub FindsPlace : Type 0
  FindsPlace =
      (scores : List fl.Float)
      → 0 < length scores
      → IsClass (length scores) (cv.min_max_loc scores).1

  -- Every row has a box, the number that is not read and `n` scores.
  abbrev pub Shaped : ℕ → List (List fl.Float) → Type 0
  Shaped n = All λ row. length row ≡ 5 + n

  abbrev Known : ℕ → List (Detection fl) → Type 0
  Known n = All λ d. IsClass n d.class_id

  region_lem :
      FindsPlace
      → (yo : YoloInfo fl) (cols rows : ℤ) (n : ℕ) (out : List (List fl.Float)) → 0 < n
      → Shaped n out
      → (ds : List (Detection fl)) × (region fl cv yo cols rows out ≡ done (vectors fl ds))
        × Known n ds
  unfolding region
  region_lem law yo cols rows n [] l s = ([], refl, tt)
  region_lem law yo cols rows n ((x ∷ y ∷ w ∷ h ∷ o ∷ scores) ∷ out) l (e, s) =
      let (ds, f, p) = region_lem law yo cols rows n out l s in
      let (confidence, class) = cv.min_max_loc scores in
      let d : Detection fl = record {
        class_id = class;
        confidence = fl.narrow confidence;
        box = region_box fl cols rows x y w h;
      } in
      let long : length scores ≡ n = omega arith in
      let known : IsClass n class = rw⁻¹ long (law scores (rw long l)) in
      elim (Bool-cases (fl.less_d (fl.widen yo.conf_thres) confidence)) [
        | inl sure ↦ rw (f, sure) (d ∷ ds, refl, (known, p))
        | inr unsure ↦ rw (f, unsure) (ds, refl, p)
      ]
  region_lem law yo cols rows n (_ ∷ out) l (e, s) = absurd (omega arith)

  decode_regions_lem :
      FindsPlace
      → (yo : YoloInfo fl) (cols rows : ℤ) (n : ℕ) (outs : List (List (List fl.Float))) → 0 < n
      → All (Shaped n) outs
      → (ds : List (Detection fl)) × (decode_regions fl cv yo cols rows outs ≡ done (vectors fl ds))
        × Known n ds
  unfolding decode_regions
  decode_regions_lem law yo cols rows n [] l s = ([], refl, tt)
  decode_regions_lem law yo cols rows n (out ∷ outs) l (h, s) =
      let (ds, e, p) = region_lem law yo cols rows n out l h in
      let (es, f, q) = decode_regions_lem law yo cols rows n outs l s in
      rw (e, f) (ds ++ es, ap done (join-vectors fl ds es), All-append _ ds es p q)

  draw_lem :
      (n : ℕ) (kept : List (Detection fl)) (track : TrackingInfo fl cv)
      → n ≤ length track.classes
      → Known n kept
      → let f = vectors fl kept in
        let t = record track { in_frame = false } in
        (t' : TrackingInfo fl cv) × (draw_all fl cv f.class_ids f.confidences f.boxes t ≡ done t')
        × Follows fl cv (last_of fl track.id kept) (outlined fl track.id kept) t t'
  draw_lem n kept track l p =
      draw_all_lem fl cv kept (record track { in_frame = false })
        (All-map kept (λ d. IsClass-le n (length track.classes) d.class_id l) p)

  -- On the outputs of "Region" layers whose rows have `n` scores, `n` at least 1 and at most the number
  -- of lines of the class file, `postprocess` returns: no assertion fails and no index is out of
  -- range. Of the detections that it decodes it keeps those that the suppression leaves, or all where
  -- there is one output layer and the backend is OpenCV's; each is one of the decoded, with its own
  -- class, confidence and box. `in_frame` says whether one that is kept has the class that is
  -- followed, and `center` and `base` are those of the last such one, or what they were before. The
  -- outlines drawn on the picture are those of the boxes that are kept, in their order and after those
  -- drawn before, red where the class is the one followed.
  pub postprocess-Follows :
      FindsPlace
      → KeepsIndices fl cv
      → (layers : ℕ) (cols rows : ℤ) (n : ℕ) (outs : List (List (List fl.Float))) (yo : YoloInfo fl)
        (track : TrackingInfo fl cv)
      → 0 < n
      → All (Shaped n) outs
      → n ≤ length track.classes
      → (found : List (Detection fl)) × (kept : List (Detection fl)) × (t : TrackingInfo fl cv)
        × (decode fl cv yo cols rows (regions outs) ≡ done (vectors fl found))
        × ((if ltb 1 layers || not yo.opencv
              then suppress fl cv yo (vectors fl found)
              else done (vectors fl found))
            ≡ done (vectors fl kept))
        × All (Among found) kept
        × (postprocess fl cv layers cols rows (regions outs) yo track ≡ done t)
        × Follows fl cv
            (last_of fl track.id kept)
            (outlined fl track.id kept)
            (record track { in_frame = false })
            t
  unfolding decode postprocess
  postprocess-Follows places indices layers cols rows n outs yo track l s enough =
      let (found, e, p) = decode_regions_lem places yo cols rows n outs l s in
      elim (Bool-cases (ltb 1 layers || not yo.opencv)) [
        | inl two ↦
            let (kept, f, q) =
              suppress_lem fl cv indices (λ d. Among found d × IsClass n d.class_id) yo found
                (All-zip (Among found) (λ d. IsClass n d.class_id) found (All-Among found) p) in
            let (t, g, h) = draw_lem n kept track enough (All-map kept (λ d r. r.0.1) q) in
            rw (e, two, f, g) (found, kept, t, refl, f, All-map kept (λ d r. r.0.0) q, refl, h)
        | inr one ↦
            let (t, g, h) = draw_lem n found track enough p in
            rw (e, one, g) (found, found, t, refl, refl, All-Among found, refl, h)
      ]

  -- With indices in range, the suppression leaves detections that were there, each with its own class,
  -- confidence and box, whose confidences reach the threshold.
  suppress-Among :
      KeepsIndices fl cv
      → (yo : YoloInfo fl) (found : List (Detection fl))
      → (kept : List (Detection fl)) × (suppress fl cv yo (vectors fl found)
          ≡ done (vectors fl kept))
        × All (λ d. Among found d × (fl.at_least d.confidence yo.conf_thres ≡ true)) kept
  suppress-Among indices yo found =
      suppress_lem fl cv indices (Among found) yo found (All-Among found)
