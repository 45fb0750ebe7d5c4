-- ===== src/Ws/Callback/Sessions.antt =====
-- The list of live sessions: no pointer twice, no session in it marked as culled.
use robot_arm.Base.{
  ℕ, ◌≡◌, refl, ◌∙◌, inl, inr, true, false, List, [], ◌∷◌, arith, ◌==◌, if◌then◌else◌, Bool-cases,
}
use robot_arm.Ws.Queue.{Ptr}
use robot_arm.Ws.Server.{Session, update, ll_fwd_remove}
use robot_arm.Ws.Server.Laggards.{laggards, survivors, listed}

-- A list of pointers with no pointer twice, as every chain of `pss_list` fields is.
abbrev pub NoRepeat : List Ptr → Type 0
NoRepeat [] = Unit
NoRepeat (p ∷ ps) = (listed p ps ≡ false) × NoRepeat ps

abbrev pub AllAlive : (Ptr → Session) → List Ptr → Type 0
AllAlive sessions [] = Unit
AllAlive sessions (p ∷ ps) = ((sessions p).culled ≡ false) × AllAlive sessions ps

listed-remove :
    (p q : Ptr) (ps : List Ptr) → listed p ps ≡ false → listed p (ll_fwd_remove q ps) ≡ false
unfolding ll_fwd_remove
listed-remove p q [] h = refl
listed-remove p q (r ∷ ps) h = ground (arith, listed-remove p q ps)

pub NoRepeat-remove : (q : Ptr) (ps : List Ptr) → NoRepeat ps → NoRepeat (ll_fwd_remove q ps)
unfolding ll_fwd_remove
NoRepeat-remove q [] d = tt
NoRepeat-remove q (p ∷ ps) (new, d) = elim (Bool-cases (p == q)) [
  | inl hit ↦ rw hit d
  | inr miss ↦ rw miss (listed-remove p q ps new, NoRepeat-remove q ps d)
]

pub AllAlive-remove :
    (f : Ptr → Session) (q : Ptr) (ps : List Ptr) → AllAlive f ps → AllAlive f (ll_fwd_remove q ps)
unfolding ll_fwd_remove
AllAlive-remove f q [] a = tt
AllAlive-remove f q (p ∷ ps) (here, a) = elim (Bool-cases (p == q)) [
  | inl hit ↦ rw hit a
  | inr miss ↦ rw miss (here, AllAlive-remove f q ps a)
]

listed-survivors :
    (f : Ptr → Session) (t : ℕ) (p : Ptr) (ps : List Ptr)
    → listed p ps ≡ false
    → listed p (survivors f t ps) ≡ false
listed-survivors f t p [] h = refl
listed-survivors f t p (q ∷ ps) h = ground (arith, listed-survivors f t p ps)

pub NoRepeat-survivors :
    (f : Ptr → Session) (t : ℕ) (ps : List Ptr) → NoRepeat ps → NoRepeat (survivors f t ps)
NoRepeat-survivors f t [] d = tt
NoRepeat-survivors f t (p ∷ ps) (new, d) = elim (Bool-cases ((f p).tail == t)) [
  | inl lags ↦ rw lags (NoRepeat-survivors f t ps d)
  | inr keeps ↦ rw keeps (listed-survivors f t p ps new, NoRepeat-survivors f t ps d)
]

pub AllAlive-agree :
    (f g : Ptr → Session) (ps : List Ptr)
    → ((q : Ptr) → (g q).culled ≡ (f q).culled)
    → AllAlive f ps
    → AllAlive g ps
AllAlive-agree f g [] same a = tt
AllAlive-agree f g (p ∷ ps) same (here, a) = (same p ∙ here, AllAlive-agree f g ps same a)

pub AllAlive-update :
    (f : Ptr → Session) (p : Ptr) (v : Session) (ps : List Ptr)
    → v.culled ≡ (f p).culled
    → AllAlive f ps
    → AllAlive (update f p v) ps
AllAlive-update f p v ps e a = AllAlive-agree f (update f p v) ps (λ q. ground (arith, e)) a

laggards-tail :
    (f : Ptr → Session) (t : ℕ) (p : Ptr) (ps : List Ptr)
    → ((f p).tail == t) ≡ false
    → listed p (laggards f t ps) ≡ false
laggards-tail f t p [] h = refl
laggards-tail f t p (q ∷ ps) h = elim (Bool-cases ((f q).tail == t)) [
  | inl lags ↦ rw lags (ground (arith, laggards-tail f t p ps h, apart))
  | inr keeps ↦ rw keeps (laggards-tail f t p ps h)
]
  where
    apart : q ≡ p → ((f q).tail == t) ≡ false
    apart e = rw e h

-- No survivor of the cull is marked.
pub AllAlive-survivors :
    (f g : Ptr → Session) (t : ℕ) (all ps : List Ptr)
    → ((q : Ptr) → (g q).culled ≡ (if listed q (laggards f t all) then true else (f q).culled))
    → AllAlive f ps
    → AllAlive g (survivors f t ps)
AllAlive-survivors f g t all [] flags a = tt
AllAlive-survivors f g t all (p ∷ ps) flags (here, a) = elim (Bool-cases ((f p).tail == t)) [
  | inl lags ↦ rw lags (AllAlive-survivors f g t all ps flags a)
  | inr keeps ↦
      rw keeps
        (flags p ∙ rw (laggards-tail f t p all keeps) here, AllAlive-survivors f g t all ps flags a)
]
