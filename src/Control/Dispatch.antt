-- ===== src/Control/Dispatch.antt =====
-- What a batch of messages does to the servos.
use robot_arm.Base.{
  ℕ, zero, suc, ◌<◌, ◌≡◌, refl, sym, ap, ◌∙◌, ◌⊎◌, inl, inr, Option, none, some, List, [], ◌∷◌,
  ◌++◌, arith, if◌then◌else◌, length, get_elem?, length-append, Option-cases,
}
use mathlib.Core.List.{append_assoc}
use mathlib.Core.Path.{subst}
use robot_arm.Ws.Run.{done, bad_pointer, ◌>>=◌}
use robot_arm.Ws.Message.{Message}
use robot_arm.Floats.{Floats}
use robot_arm.Gpio.Smooth.{SmoothServo}
use robot_arm.Control.{index, set_index, aim_at, aim, dispatch}
use robot_arm.Control.Indices.{
  Names, is_index, map_option, map_option_id, set_index_lem, length-set_index, index-stray,
}

abbrev pub AllName : ℕ → List Message → Type 0
AllName n [] = Unit
AllName n (m ∷ ms) = Names n m.user_id × AllName n ms

module _ (fl : Floats) where
  -- The servo at `k` after all messages: aimed at the value of each message for it, in order, so
  -- that the last one counts.
  unfoldable pub aimed : List Message → ℕ → SmoothServo fl → SmoothServo fl
  aimed [] k s = s
  aimed (m ∷ ms) k s = aimed ms k (if is_index m.user_id k then aim_at fl m.value s else s)

  -- A message that names a servo changes that servo alone.
  aim_lem :
      (m : Message) (servos : List (SmoothServo fl))
      → Names (length servos) m.user_id
      → (servos' : List (SmoothServo fl)) × (aim fl m servos ≡ done servos')
        × (length servos' ≡ length servos)
        × ((k : ℕ) → get_elem? servos' k ≡ map_option (aimed (m ∷ []) k) (get_elem? servos k))
  unfolding aim aimed
  aim_lem m servos names =
      let (s, e, n, others) = set_index_lem servos m.user_id (aim_at fl m.value) names in
      (set_index servos m.user_id (aim_at fl m.value s), rw (e, aim) refl, n, others)

  map_option-map_option :
      (f g : SmoothServo fl → SmoothServo fl) (o : Option (SmoothServo fl))
      → map_option g (map_option f o) ≡ map_option (λ (s : SmoothServo fl). g (f s)) o
  map_option-map_option f g none = refl
  map_option-map_option f g (some s) = refl

  elem-middle :
      (pre : List Message) (m : Message) (rest : List Message)
      → get_elem? (pre ++ m ∷ rest) (length pre) ≡ some m
  elem-middle [] m rest = refl
  elem-middle (p ∷ pre) m rest = elem-middle pre m rest

  -- One message of the loop, read behind those before it.
  pub dispatch-next :
      (k : ℕ) (pre : List Message) (m : Message) (ms : List Message)
      (servos : List (SmoothServo fl))
      → dispatch fl (suc k) (length pre) (pre ++ m ∷ ms) servos
        ≡ (aim fl m servos >>= dispatch fl k (length (pre ++ m ∷ [])) ((pre ++ m ∷ []) ++ ms))
  unfolding dispatch
  dispatch-next k pre m ms servos =
      let shift : length (pre ++ m ∷ []) ≡ suc (length pre) =
        omega (arith, length-append {0} pre (m ∷ [])) in
      rw (elem-middle pre m ms, dispatch)
        (ap (λ (n : ℕ). aim fl m servos >>= dispatch fl k n (pre ++ m ∷ ms)) (sym shift)
          ∙ ap (λ (b : List Message). aim fl m servos >>= dispatch fl k (length (pre ++ m ∷ [])) b)
              (sym (append_assoc pre (m ∷ []) ms)))

  -- The loop reaches every message and aims each servo by the messages for it.
  pub dispatch_lem :
      (ms pre rest : List Message) (servos : List (SmoothServo fl))
      → AllName (length servos) ms
      → (servos' : List (SmoothServo fl)) × (dispatch fl
            (length ms)
            (length pre)
            (pre ++ (ms ++ rest))
            servos
          ≡ done servos')
        × (length servos' ≡ length servos)
        × ((k : ℕ) → get_elem? servos' k ≡ map_option (aimed ms k) (get_elem? servos k))
  unfolding dispatch aimed
  dispatch_lem [] pre rest servos names =
      (servos, refl, refl, λ k. map_option_id (get_elem? servos k))
  dispatch_lem (m ∷ ms) pre rest servos (name, names) =
      let (s₁, e₁, n₁, o₁) = aim_lem m servos name in
      let (s₂, e₂, n₂, o₂) =
        dispatch_lem ms (pre ++ m ∷ []) rest s₁ (subst (λ (n : ℕ). AllName n ms) (sym n₁) names) in
      (
        s₂,
        dispatch-next (length ms) pre m (ms ++ rest) servos ∙ rw e₁ e₂,
        n₂ ∙ n₁,
        λ k.
            o₂ k
            ∙ ap (map_option (aimed ms k)) (o₁ k)
            ∙ map_option-map_option (aimed (m ∷ []) k) (aimed ms k) (get_elem? servos k),
      )

  aim-cases :
      (m : Message) (servos : List (SmoothServo fl))
      → (aim fl m servos ≡ bad_pointer)
        ⊎ ((servos' : List (SmoothServo fl)) × (aim fl m servos ≡ done servos')
            × (length servos' ≡ length servos))
  unfolding aim
  aim-cases m servos = elim (Option-cases (index servos m.user_id)) [
    | inl e ↦ inl (rw (e, aim) refl)
    | inr (s, e) ↦ inr (
      set_index servos m.user_id (aim_at fl m.value s),
      rw (e, aim) refl,
      length-set_index servos m.user_id _,
    )
  ]

  elem-end : (pre : List Message) → get_elem? (pre ++ []) (length pre) ≡ none
  elem-end [] = refl
  elem-end (p ∷ pre) = elem-end pre

  -- More rounds than there are messages read behind the buffer, unless a message has stopped the
  -- program before.
  pub dispatch-overrun :
      (k : ℕ) (ms pre : List Message) (servos : List (SmoothServo fl))
      → length ms < k
      → dispatch fl k (length pre) (pre ++ ms) servos ≡ bad_pointer
  unfolding dispatch
  dispatch-overrun zero ms pre servos h = absurd (omega arith)
  dispatch-overrun (suc k) [] pre servos h = rw (elem-end pre, dispatch) refl
  dispatch-overrun (suc k) (m ∷ ms) pre servos h = elim (aim-cases m servos) [
    | inl e ↦ dispatch-next k pre m ms servos ∙ rw e refl
    | inr (s₁, e, n) ↦
        dispatch-next k pre m ms servos
        ∙ rw e (dispatch-overrun k ms (pre ++ m ∷ []) s₁ (omega arith))
  ]

  aim-stray :
      (m : Message) (servos : List (SmoothServo fl))
      → (Names (length servos) m.user_id → ⊥)
      → aim fl m servos ≡ bad_pointer
  unfolding aim
  aim-stray m servos stray = rw (index-stray servos m.user_id stray, aim) refl

  -- A message that names no servo stops the loop with a bad pointer, whatever comes before it.
  pub dispatch-stray :
      (before : List Message) (m : Message) (behind pre rest : List Message)
      (servos : List (SmoothServo fl))
      → (Names (length servos) m.user_id → ⊥)
      → dispatch fl
          (length (before ++ m ∷ behind))
          (length pre)
          (pre ++ ((before ++ m ∷ behind) ++ rest))
          servos
        ≡ bad_pointer
  dispatch-stray [] m behind pre rest servos stray =
      dispatch-next (length behind) pre m (behind ++ rest) servos
      ∙ rw (aim-stray m servos stray) refl
  dispatch-stray (b ∷ before) m behind pre rest servos stray = elim (aim-cases b servos) [
    | inl e ↦
        dispatch-next (length (before ++ m ∷ behind)) pre b ((before ++ m ∷ behind) ++ rest) servos
        ∙ rw e refl
    | inr (s₁, e, n) ↦
        dispatch-next (length (before ++ m ∷ behind)) pre b ((before ++ m ∷ behind) ++ rest) servos
        ∙ rw e (
            dispatch-stray before m behind (pre ++ b ∷ []) rest s₁
              (subst (λ (n : ℕ). Names n m.user_id → ⊥) (sym n) stray))
  ]
