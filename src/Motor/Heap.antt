-- ===== src/Motor/Heap.antt =====
-- The heap of `step_thread` (Motor/Thread): how many arrays of wave ids are live, and which pointers
-- lead to one.
use robot_arm.Base.{
  ℕ, zero, suc, ◌<◌, ◌≡◌, ◌≢◌, refl, ap, Option, none, some, List, [], ◌∷◌, ◌++◌, ℤ, length, get_or,
  set, arith,
}
use robot_arm.Ws.Run.{bad_pointer}
use robot_arm.Motor.Thread.{Pointer, unset, at, Heap, read_array}

-- The arrays that are allocated and not deleted.
abbrev pub live : Heap → ℕ
live [] = 0
live (none ∷ h) = live h
live (some wid ∷ h) = suc (live h)

pub live-append : (h : Heap) (wid : List ℤ) → live (h ++ some wid ∷ []) ≡ suc (live h)
live-append [] wid = refl
live-append (none ∷ h) wid = live-append h wid
live-append (some v ∷ h) wid = ap suc (live-append h wid)

pub live-set :
    (h : Heap) (i : ℕ) {wid : List ℤ}
    → get_or h i none ≡ some wid
    → suc (live (set h i none)) ≡ live h
live-set [] i e = cc
live-set (none ∷ h) zero e = cc
live-set (some v ∷ h) zero e = refl
live-set (none ∷ h) (suc i) e = live-set h i e
live-set (some v ∷ h) (suc i) e = ap suc (live-set h i e)

pub get-append-new : (h : Heap) (o : Option (List ℤ)) → get_or (h ++ o ∷ []) (length h) none ≡ o
get-append-new [] o = refl
get-append-new (x ∷ h) o = get-append-new h o

pub get-append-old :
    (h : Heap) (o : Option (List ℤ)) (i : ℕ)
    → i < length h
    → get_or (h ++ o ∷ []) i none ≡ get_or h i none
get-append-old [] o i l = absurd (omega arith)
get-append-old (x ∷ h) o zero l = refl
get-append-old (x ∷ h) o (suc i) l = get-append-old h o i (omega arith)

pub get-set-other : (h : Heap) (i j : ℕ) → i ≢ j → get_or (set h i none) j none ≡ get_or h j none
get-set-other [] i j n = refl
get-set-other (x ∷ h) zero zero n = absurd (n refl)
get-set-other (x ∷ h) zero (suc j) n = refl
get-set-other (x ∷ h) (suc i) zero n = refl
get-set-other (x ∷ h) (suc i) (suc j) n = get-set-other h i j λ e. n (ap suc e)

pub get-lt : (h : Heap) (i : ℕ) {wid : List ℤ} → get_or h i none ≡ some wid → i < length h
get-lt [] i e = cc
get-lt (x ∷ h) zero e = omega arith
get-lt (x ∷ h) (suc i) e = omega (arith, get-lt h i e)

pub get-dead : (h : Heap) (i : ℕ) → live h ≡ 0 → get_or h i none ≡ none
get-dead [] i z = refl
get-dead (none ∷ h) zero z = refl
get-dead (none ∷ h) (suc i) z = get-dead h i z
get-dead (some v ∷ h) i z = absurd (omega arith)

-- The pointer before the first move, and after a move: its array, if any, was allocated once.
abbrev pub Old : Pointer → Heap → Type 0
Old unset h = Unit
Old (at i) h = i < length h

pub read-dead :
    (p : Pointer) (h : Heap) (wid : List ℤ)
    → Old p h
    → live h ≡ 0
    → read_array p (h ++ some wid ∷ []) ≡ bad_pointer
read-dead unset h wid old none_live = refl
read-dead (at i) h wid old none_live =
    rw (get-append-old h (some wid) i old, get-dead h i none_live) refl

abbrev pub Owned : Pointer → Heap → Type 0
Owned p h = (i : ℕ) × (wid : List ℤ) × (p ≡ at i) × (get_or h i none ≡ some wid)
