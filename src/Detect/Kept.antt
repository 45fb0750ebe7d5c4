-- ===== src/Detect/Kept.antt =====
-- The suppression (Detect/Suppress) keeps the three vectors together: what stays are detections that
-- were there, each with its class, its confidence and its box.
use robot_arm.Base.{
  ℕ, zero, suc, ◌+◌, ◌<◌, ◌≡◌, refl, inl, inr, ap, ◌∙◌, true, Option, none, some, some-injective,
  List, [], ◌∷◌, ◌++◌, map, map-append, ℤ, eqb_ℤ, ltb_ℤ, length, length-map, get_elem?, All,
  All-append, All-map, All-get, arith, Bool-cases, eq_of_eqb_ℤ,
}
use robot_arm.Floats.{Floats}
use robot_arm.Ws.Run.{done}
use robot_arm.Detect.{Rect, Vision, YoloInfo, Found, Detection}
use robot_arm.Detect.Suppress.{
  Groups, push_index, index, select, group, join, repeat, suppress_class, suppress_all, suppress,
}

module _ {A : Type 0} where
  abbrev cons_some : Option A → List A → List A
  cons_some none xs = xs
  cons_some (some x) xs = x ∷ xs

  -- The elements at the indices that are in range.
  abbrev pub picked : List A → List ℕ → List A
  picked xs [] = []
  picked xs (i ∷ is) = cons_some (get_elem? xs i) (picked xs is)

  abbrev pub Picks : (A → Type 0) → List A → ℕ → Type 0
  Picks P xs i = (x : A) × (get_elem? xs i ≡ some x) × P x

module _ {A B : Type 0} where
  index-map :
      (f : A → B) (xs : List A) (i : ℕ) {x : A}
      → get_elem? xs i ≡ some x
      → index (map f xs) i ≡ done (f x)
  index-map f [] i e = cc
  index-map f (y ∷ xs) zero {x} e = rw (some-injective y x e) refl
  index-map f (y ∷ xs) (suc i) e = index-map f xs i e

  pub select-map :
      (P : A → Type 0) (f : A → B) (xs : List A) (is : List ℕ)
      → All (Picks P xs) is
      → select (map f xs) is ≡ done (map f (picked xs is))
  select-map P f xs [] p = refl
  select-map P f xs (i ∷ is) ((x, e, h), p) =
      rw (index-map f xs i e, select-map P f xs is p, e) refl

module _ {A : Type 0} where
  pub picked-All :
      (P : A → Type 0) (xs : List A) (is : List ℕ) → All (Picks P xs) is → All P (picked xs is)
  picked-All P xs [] p = tt
  picked-All P xs (i ∷ is) ((x, e, h), p) = rw e (h, picked-All P xs is p)

  pub length-picked :
      (P : A → Type 0) (xs : List A) (is : List ℕ)
      → All (Picks P xs) is
      → length (picked xs is) ≡ length is
  length-picked P xs [] p = refl
  length-picked P xs (i ∷ is) ((x, e, h), p) = rw e (ap suc (length-picked P xs is p))

  get-found : (xs : List A) (i : ℕ) → i < length xs → (x : A) × (get_elem? xs i ≡ some x)
  get-found [] i l = absurd (omega arith)
  get-found (x ∷ xs) zero l = (x, refl)
  get-found (x ∷ xs) (suc i) l = get-found xs i (omega arith)

  -- Indices in range pick what holds of all elements.
  pub Picks-All :
      (P : A → Type 0) (xs : List A) (is : List ℕ)
      → All P xs
      → All (λ i. i < length xs) is
      → All (Picks P xs) is
  Picks-All P xs [] p l = tt
  Picks-All P xs (i ∷ is) p (l, ls) =
      let (x, e) = get-found xs i l in ((x, e, All-get P xs i p e), Picks-All P xs is p ls)

-- A group whose indices all pick detections of its class.
abbrev InGroup : {A : Type 0} → (A → Type 0) → (A → ℤ) → List A → ℤ × List ℕ → Type 0
InGroup P class xs (c, is) = All (Picks (λ x. P x × (class x ≡ c)) xs) is

module _ {A : Type 0} (P : A → Type 0) (class : A → ℤ) (xs : List A) where
  push_index-InGroup :
      (i : ℕ) (x : A) (groups : Groups)
      → get_elem? xs i ≡ some x
      → P x
      → All (InGroup P class xs) groups
      → All (InGroup P class xs) (push_index (class x) i groups)
  unfolding push_index
  push_index-InGroup i x [] e h p = (((x, e, (h, refl)), tt), tt)
  push_index-InGroup i x ((c, is) ∷ groups) e h (q, p) = elim (Bool-cases (eqb_ℤ (class x) c)) [
    | inl same ↦
        let here : Picks (λ y. P y × (class y ≡ c)) xs i =
          (x, e, (h, eq_of_eqb_ℤ (class x) c same)) in
        rw same (All-append _ is (i ∷ []) q (here, tt), p)
    | inr other ↦ elim (Bool-cases (ltb_ℤ (class x) c)) [
      | inl before ↦ rw (other, before) (((x, e, (h, refl)), tt), (q, p))
      | inr after ↦ rw (other, after) (q, push_index-InGroup i x groups e h p)
    ]
  ]

-- The three vectors of a list of detections.
module _ (fl : Floats) where
  open fl use {Float, at_least}

  abbrev pub vectors : List (Detection fl) → Found fl
  vectors ds = record {
    class_ids = map (λ d. d.class_id) ds;
    confidences = map (λ d. d.confidence) ds;
    boxes = map (λ d. d.box) ds;
  }

  pub join-vectors :
      (ds es : List (Detection fl)) → join fl (vectors ds) (vectors es) ≡ vectors (ds ++ es)
  join-vectors ds es =
      rw
        (
          map-append (λ d. d.class_id) ds es,
          map-append (λ d. d.confidence) ds es,
          map-append (λ d. d.box) ds es,
        )
        refl

  module _ (P : Detection fl → Type 0) (thres : Float) (ds : List (Detection fl)) where
    abbrev Sure : Detection fl → Type 0
    Sure d = P d × (at_least d.confidence thres ≡ true)

    group_lem :
        (i : ℕ) (rest : List (Detection fl)) (groups : Groups)
        → ((j : ℕ) → get_elem? ds (i + j) ≡ get_elem? rest j)
        → All P rest
        → All (InGroup Sure (λ d. d.class_id) ds) groups
        → (groups' : Groups) × (group fl thres i
              (map (λ d. d.class_id) rest)
              (map (λ d. d.confidence) rest)
              groups
            ≡ done groups')
          × All (InGroup Sure (λ d. d.class_id) ds) groups'
    unfolding group
    group_lem i [] groups at p g = (groups, refl, g)
    group_lem i (d ∷ rest) groups at (h, p) g =
        let on : (j : ℕ) → get_elem? ds (suc i + j) ≡ get_elem? rest j =
          λ j. ap (get_elem? ds) (let e : suc i + j ≡ i + suc j = omega arith in e) ∙ at (suc j) in
        let here : get_elem? ds i ≡ some d =
          ap (get_elem? ds) (let e : i ≡ i + 0 = omega arith in e) ∙ at 0 in
        elim (Bool-cases (at_least d.confidence thres)) [
          | inl sure ↦ rw sure (
              group_lem (suc i) rest (push_index d.class_id i groups) on p
                (push_index-InGroup Sure (λ d. d.class_id) ds i d groups here (h, sure) g))
          | inr unsure ↦ rw unsure (group_lem (suc i) rest groups on p g)
        ]

    repeat-picked :
        (c : ℤ) (es : List (Detection fl)) (is : List ℕ)
        → All (Picks (λ d. Sure d × (d.class_id ≡ c)) es) is
        → repeat fl c is ≡ map (λ d. d.class_id) (picked es is)
    repeat-picked c es [] p = refl
    repeat-picked c es (i ∷ is) ((d, e, (h, same)), p) = rw (e, same, repeat-picked c es is p) refl

  -- What is documented of `NMSBoxes`: the indices it keeps are indices of the boxes given.
  abbrev pub KeepsIndices : Vision fl → Type 0
  KeepsIndices cv =
      (boxes : List Rect) (confidences : List Float) (score nms : Float)
      → All (λ i. i < length boxes) (cv.nms_boxes boxes confidences score nms)

  module _ (cv : Vision fl) (law : KeepsIndices cv) (P : Detection fl → Type 0) (yo : YoloInfo fl)
      (ds : List (Detection fl)) where
    suppress_class_lem :
        (c : ℤ) (is : List ℕ)
        → InGroup (Sure P yo.conf_thres ds) (λ d. d.class_id) ds (c, is)
        → (es : List (Detection fl)) × (suppress_class fl cv yo (vectors ds) c is
            ≡ done (vectors es))
          × All (Sure P yo.conf_thres ds) es
    unfolding suppress_class
    suppress_class_lem c is g =
        let Here : Detection fl → Type 0 = λ d. Sure P yo.conf_thres ds d × (d.class_id ≡ c) in
        let es = picked ds is in
        let boxes = map (λ d. d.box) es in
        let kept = cv.nms_boxes boxes (map (λ d. d.confidence) es) yo.conf_thres yo.nms_thres in
        let inside : All (λ i. i < length es) kept =
          rw⁻¹ (length-map es λ d. d.box)
            (law boxes (map (λ d. d.confidence) es) yo.conf_thres yo.nms_thres) in
        let picks = Picks-All Here es kept (picked-All Here ds is g) inside in
        rw
          (
            select-map Here (λ d. d.box) ds is g,
            select-map Here (λ d. d.confidence) ds is g,
            select-map Here (λ d. d.box) es kept picks,
            select-map Here (λ d. d.confidence) es kept picks,
            repeat-picked P yo.conf_thres ds c es kept picks,
          )
          (
            picked es kept,
            refl,
            All-map (picked es kept) (λ d h. h.0) (picked-All Here es kept picks),
          )

    suppress_all_lem :
        (groups : Groups)
        → All (InGroup (Sure P yo.conf_thres ds) (λ d. d.class_id) ds) groups
        → (es : List (Detection fl)) × (suppress_all fl cv yo (vectors ds) groups
            ≡ done (vectors es))
          × All (Sure P yo.conf_thres ds) es
    unfolding suppress_all
    suppress_all_lem [] g = ([], refl, tt)
    suppress_all_lem ((c, is) ∷ groups) (h, g) =
        let (es, e, s) = suppress_class_lem c is h in
        let (fs, f, t) = suppress_all_lem groups g in
        rw (e, f) (es ++ fs, ap done (join-vectors es fs), All-append _ es fs s t)

    pub suppress_lem :
        All P ds
        → (es : List (Detection fl)) × (suppress fl cv yo (vectors ds) ≡ done (vectors es))
          × All (λ d. P d × (at_least d.confidence yo.conf_thres ≡ true)) es
    unfolding suppress
    suppress_lem p =
        let (groups, e, g) =
          group_lem P yo.conf_thres ds 0 ds []
            (λ j. ap (get_elem? ds) (let e : 0 + j ≡ j = omega arith in e)) p tt in
        rw e (suppress_all_lem groups g)
