-- ===== src/Detect/Followed.antt =====
-- Where `postprocess` (Detect/Track) says that the object that is followed stands, and the
-- rectangles that it draws.
use robot_arm.Base.{
  ℕ, zero, suc, ◌<◌, ◌≡◌, refl, sym, ap, ◌∙◌, inl, inr, Bool, true, Option, none, some, List, [],
  ◌∷◌, ◌++◌, map, ℤ, pos, ◌+ℤ◌, ◌/ℤ◌, eqb_ℤ, ltb_ℤ, if◌then◌else◌, length, All, arith, Bool-cases,
}
use mathlib.Core.Path.{subst}
use robot_arm.Floats.{Floats}
use robot_arm.Ws.Run.{done}
use mathlib.Core.List.{append_assoc, append-nil}
use robot_arm.Detect.{Draw, outline, filled, text, Rect, Point2i, Vision, Detection, TrackingInfo}
use robot_arm.Detect.Suppress.{index}
use robot_arm.Detect.Track.{draw, draw_pred, draw_all}
use robot_arm.Detect.Kept.{vectors}

-- A rectangle by two corners, and whether it is red.
abbrev pub Outline : Type 0
Outline = (ℤ × ℤ) × (ℤ × ℤ) × Bool

-- The rectangle round a box.
abbrev pub round_box : Rect → Bool → Outline
round_box b red = ((b.x, b.y), (b.x +ℤ b.width, b.y +ℤ b.height), red)

-- A class of the class file with `n` lines.
abbrev pub IsClass : ℕ → ℤ → Type 0
IsClass n c = (i : ℕ) × (c ≡ pos i) × (i < n)

-- The middle of a box, and of its lower side.
abbrev pub middle : Rect → Point2i
middle b = record {
  x = (b.x +ℤ (b.x +ℤ b.width)) /ℤ pos 2;
  y = (b.y +ℤ (b.y +ℤ b.height)) /ℤ pos 2;
}

abbrev pub foot : Rect → Point2i
foot b = record { x = (b.x +ℤ (b.x +ℤ b.width)) /ℤ pos 2; y = b.y +ℤ b.height }

abbrev or_else : {A : Type 0} → Option A → Option A → Option A
or_else none o = o
or_else (some a) o = some a

module _ (fl : Floats) where
  -- The box of the last detection of a class.
  abbrev pub last_of : ℤ → List (Detection fl) → Option Rect
  last_of id [] = none
  last_of id (d ∷ ds) = or_else (last_of id ds) (if eqb_ℤ d.class_id id then some d.box else none)

  -- The rectangle of each detection, red for the class.
  abbrev pub outlined : ℤ → List (Detection fl) → List Outline
  outlined id = map λ d. round_box d.box (eqb_ℤ d.class_id id)

index_lem : {A : Type 0} (xs : List A) (i : ℕ) → i < length xs → (x : A) × (index xs i ≡ done x)
index_lem [] i l = absurd (omega arith)
index_lem (x ∷ xs) zero l = (x, refl)
index_lem (x ∷ xs) (suc i) l = index_lem xs i (omega arith)

module _ (fl : Floats) (cv : Vision fl) where
  -- The outlines that are drawn on a picture: two corners, and whether it is red.
  pub outlines : List (Draw fl cv) → List Outline
  outlines [] = []
  outlines (outline left top right bottom red ∷ ds) =
      ((left, top), (right, bottom), red) ∷ outlines ds
  outlines (_ ∷ ds) = outlines ds

  outlines-append : (xs ys : List (Draw fl cv)) → outlines (xs ++ ys) ≡ outlines xs ++ outlines ys
  unfolding outlines
  outlines-append [] ys = refl
  outlines-append (outline left top right bottom red ∷ xs) ys =
      ap (((left, top), (right, bottom), red) ∷◌) (outlines-append xs ys)
  outlines-append (filled left top right bottom ∷ xs) ys = outlines-append xs ys
  outlines-append (text label left top ∷ xs) ys = outlines-append xs ys

  -- What the tracking record says after the detections, with the last box of the class or none, and
  -- the rectangles that are drawn.
  pub record Follows (last : Option Rect) (marks : List Outline) (t t' : TrackingInfo fl cv)
      : Type 0 where
    pub classes : t'.classes ≡ t.classes
    pub id : t'.id ≡ t.id
    pub seen : t'.in_frame ≡ (elim last [ none ↦ t.in_frame | some b ↦ true ])
    pub center : t'.center ≡ (elim last [ none ↦ t.center | some b ↦ middle b ])
    pub base : t'.base ≡ (elim last [ none ↦ t.base | some b ↦ foot b ])
    pub drawn : outlines t'.frame ≡ outlines t.frame ++ marks

  draw-outlines :
      (label : cv.Text) (red : Bool) (b : Rect) (frame : List (Draw fl cv))
      → outlines (draw fl cv label red b.x b.y (b.x +ℤ b.width) (b.y +ℤ b.height) frame)
        ≡ outlines frame ++ round_box b red ∷ []
  unfolding draw outlines
  draw-outlines label red b frame = outlines-append frame _

  abbrev seen_at : Bool → Rect → Option Rect
  seen_at followed b = if followed then some b else none

  -- The record after one box.
  abbrev noted : Bool → TrackingInfo fl cv → TrackingInfo fl cv
  noted followed t = if followed then record t { in_frame = true } else t

  draw_pred_lem :
      (c : ℤ) (conf : fl.Float) (b : Rect) (t : TrackingInfo fl cv) (classes : List cv.Text)
      → t.classes ≡ classes
      → IsClass (length classes) c
      → (t' : TrackingInfo fl cv) × (draw_pred fl cv c conf b.x b.y
            (b.x +ℤ b.width)
            (b.y +ℤ b.height)
            t
          ≡ done (eqb_ℤ c t.id, t'))
        × Follows
            (seen_at (eqb_ℤ c t.id) b)
            (round_box b (eqb_ℤ c t.id) ∷ [])
            t
            (noted (eqb_ℤ c t.id) t')
  unfolding draw_pred
  draw_pred_lem c conf b t [] q (i, e, l) = absurd (omega arith)
  draw_pred_lem c conf b t (k ∷ ks) q (i, e, l) =
      let (name, at) = index_lem (k ∷ ks) i l in
      let in_range : ltb_ℤ (pos i) (pos (length (k ∷ ks))) ≡ true = ground arith in
      elim (Bool-cases (eqb_ℤ (pos i) t.id)) [
        | inl same ↦
            rw (q, e, in_range, at, same)
              (
                _,
                refl,
                record {
                  classes = refl;
                  id = refl;
                  seen = refl;
                  center = refl;
                  base = refl;
                  drawn = draw-outlines _ _ b t.frame;
                },
              )
        | inr other ↦
            rw (q, e, in_range, at, other)
              (
                _,
                refl,
                record {
                  classes = refl;
                  id = refl;
                  seen = refl;
                  center = refl;
                  base = refl;
                  drawn = draw-outlines _ _ b t.frame;
                },
              )
      ]

  joined :
      (ms ns : List Outline) (t t₁ t' : TrackingInfo fl cv)
      → outlines t₁.frame ≡ outlines t.frame ++ ms
      → outlines t'.frame ≡ outlines t₁.frame ++ ns
      → outlines t'.frame ≡ outlines t.frame ++ (ms ++ ns)
  joined ms ns t t₁ t' e f = f ∙ ap (◌++ ns) e ∙ append_assoc (outlines t.frame) ms ns

  Follows-trans :
      (first last : Option Rect) (ms ns : List Outline) (t t₁ t' : TrackingInfo fl cv)
      → Follows first ms t t₁
      → Follows last ns t₁ t'
      → Follows (or_else last first) (ms ++ ns) t t'
  Follows-trans first none ms ns t t₁ t' f g = record {
    classes = g.classes ∙ f.classes;
    id = g.id ∙ f.id;
    seen = g.seen ∙ f.seen;
    center = g.center ∙ f.center;
    base = g.base ∙ f.base;
    drawn = joined ms ns t t₁ t' f.drawn g.drawn;
  }
  Follows-trans first (some b) ms ns t t₁ t' f g = record {
    classes = g.classes ∙ f.classes;
    id = g.id ∙ f.id;
    seen = g.seen;
    center = g.center;
    base = g.base;
    drawn = joined ms ns t t₁ t' f.drawn g.drawn;
  }

  -- The record after all boxes, if every class is one of the class file.
  pub draw_all_lem :
      (ds : List (Detection fl)) (t : TrackingInfo fl cv)
      → All (λ d. IsClass (length t.classes) d.class_id) ds
      → let f = vectors fl ds in
        (t' : TrackingInfo fl cv) × (draw_all fl cv f.class_ids f.confidences f.boxes t ≡ done t')
        × Follows (last_of fl t.id ds) (outlined fl t.id ds) t t'
  unfolding draw_all
  draw_all_lem [] t p = (
    t,
    refl,
    record {
      classes = refl;
      id = refl;
      seen = refl;
      center = refl;
      base = refl;
      drawn = sym (append-nil (outlines t.frame));
    },
  )
  draw_all_lem (d ∷ ds) t (h, p) =
      let (t₁, e, f) = draw_pred_lem d.class_id d.confidence d.box t t.classes refl h in
      let t₂ = noted (eqb_ℤ d.class_id t.id) t₁ in
      let (t', e', g) = draw_all_lem ds t₂ (rw f.classes p) in
      let g' : Follows (last_of fl t.id ds) (outlined fl t.id ds) t₂ t' =
        subst (λ i. Follows (last_of fl i ds) (outlined fl i ds) t₂ t') f.id g in
      rw (e, e')
        (
          t',
          refl,
          Follows-trans (seen_at (eqb_ℤ d.class_id t.id) d.box) (last_of fl t.id ds)
              (round_box d.box (eqb_ℤ d.class_id t.id) ∷ []) (outlined fl t.id ds) t t₂ t' f g',
        )
