-- ===== src/Ws/Connections/Slots.antt =====
-- The loops of `insert_id` and `remove_id` over the slots.
use robot_arm.Base.{
  ℕ, suc, ◌+◌, ◌<◌, ◌≤◌, ◌≡◌, refl, ◌≢◌, inl, inr, Bool, true, false, ◌||◌, List, [], ◌∷◌, ℤ, pos,
  negsuc, ◌-ℤ◌, arith, ◌==◌, if◌then◌else◌, length, set, Bool-cases,
}
use robot_arm.Ws.Connections.{no_id, clear_ids, claim_slot, occupied, release_slot}

abbrev pub holds : ℕ → List ℕ → Bool
holds id [] = false
holds id (c ∷ cs) = (c == id) || holds id cs

-- The slots in use hold distinct ids.
abbrev pub Distinct : List ℕ → Type 0
Distinct [] = Unit
Distinct (c ∷ cs) = (c ≢ no_id → holds c cs ≡ false) × Distinct cs

-- The first free slot from `i` on, and the slots before it.
abbrev pub first_free : List ℕ → ℕ
first_free [] = 0
first_free (c ∷ cs) = if c == no_id then 0 else suc (first_free cs)

pub occupied-le : (cs : List ℕ) → occupied cs ≤ length cs
unfolding occupied
occupied-le [] = omega arith
occupied-le (c ∷ cs) = ground (arith, occupied-le cs)

pub clear_ids-empty :
    (cs : List ℕ) → (occupied (clear_ids cs) ≡ 0) × (length (clear_ids cs) ≡ length cs)
unfolding occupied clear_ids
clear_ids-empty [] = (refl, refl)
clear_ids-empty (c ∷ cs) = ground (arith, clear_ids-empty cs)

pub claim_slot-free :
    (id : ℕ) (cs : List ℕ) (i : ℕ)
    → occupied cs < length cs
    → claim_slot id cs i ≡ (set cs (first_free cs) id, pos (i + first_free cs))
unfolding claim_slot occupied
claim_slot-free id [] i h = absurd (omega arith)
claim_slot-free id (c ∷ cs) i h = ground (arith, claim_slot-free id cs (suc i))

pub claim_slot-full :
    (id : ℕ) (cs : List ℕ) (i : ℕ) → occupied cs ≡ length cs → claim_slot id cs i ≡ (cs, negsuc 0)
unfolding claim_slot occupied
claim_slot-full id [] i h = refl
claim_slot-full id (c ∷ cs) i h = ground (arith, claim_slot-full id cs (suc i), occupied-le cs)

-- A claim of a free slot.
pub record Claimed (id : ℕ) (cs : List ℕ) : Type 0 where
  pub below : first_free cs < length cs
  pub counted : occupied (set cs (first_free cs) id) ≡ suc (occupied cs)
  pub held : holds id (set cs (first_free cs) id) ≡ true

pub Claimed-lem : (id : ℕ) (cs : List ℕ) → id ≢ no_id → occupied cs < length cs → Claimed id cs
unfolding occupied
Claimed-lem id [] ne h = absurd (omega arith)
Claimed-lem id (c ∷ cs) ne h = elim (Bool-cases (c == no_id)) [
  | inl free ↦ ground arith
  | inr used ↦ ground (arith, Claimed-lem id cs ne)
]

pub holds-set_other :
    (id a : ℕ) (cs : List ℕ) → a ≢ id → a ≢ no_id → holds a (set cs (first_free cs) id) ≡ holds a cs
holds-set_other id a [] ne nn = refl
holds-set_other id a (c ∷ cs) ne nn = ground (arith, holds-set_other id a cs)

pub Distinct-set :
    (id : ℕ) (cs : List ℕ)
    → holds id cs ≡ false
    → Distinct cs
    → Distinct (set cs (first_free cs) id)
Distinct-set id [] new d = tt
Distinct-set id (c ∷ cs) new (apart, d) = elim (Bool-cases (c == no_id)) [
  | inl free ↦ rw free (ground arith)
  | inr used ↦
      rw used (ground (arith, holds-set_other id c cs), Distinct-set id cs (ground arith) d)
]

pub clear_ids_free : (cs : List ℕ) → occupied cs ≡ 0 → clear_ids cs ≡ cs
unfolding occupied clear_ids
clear_ids_free [] h = refl
clear_ids_free (c ∷ cs) h = ground (arith, clear_ids_free cs)

pub release_slot-absent :
    (id : ℕ) (cs : List ℕ) (n : ℤ) → holds id cs ≡ false → release_slot id cs n ≡ (cs, n)
unfolding release_slot
release_slot-absent id [] n h = refl
release_slot-absent id (c ∷ cs) n h = ground (arith, release_slot-absent id cs n)

-- A release undoes the claim of a new id.
pub release_slot-claimed :
    (id : ℕ) (cs : List ℕ) (n : ℤ)
    → id ≢ no_id
    → holds id cs ≡ false
    → occupied cs < length cs
    → release_slot id (set cs (first_free cs) id) n ≡ (cs, n -ℤ pos 1)
unfolding release_slot occupied
release_slot-claimed id [] n ne new h = absurd (omega arith)
release_slot-claimed id (c ∷ cs) n ne new h =
    ground (arith, release_slot-claimed id cs n, release_slot-absent id cs n)

-- A release of an id in the table.
pub record Released (id : ℕ) (cs : List ℕ) (n : ℤ) : Type 0 where
  pub count : (release_slot id cs n).1 ≡ n -ℤ pos 1
  pub size : length (release_slot id cs n).0 ≡ length cs
  pub counted : suc (occupied (release_slot id cs n).0) ≡ occupied cs
  pub gone : Distinct cs → holds id (release_slot id cs n).0 ≡ false

pub Released-lem :
    (id : ℕ) (cs : List ℕ) (n : ℤ) → id ≢ no_id → holds id cs ≡ true → Released id cs n
unfolding release_slot occupied
Released-lem id [] n ne h = absurd (cc)
Released-lem id (c ∷ cs) n ne h = elim (Bool-cases (c == id)) [
  | inl hit ↦ record {
    count = ground arith;
    size = ground arith;
    counted = ground arith;
    gone = λ (apart, d). ground (arith, apart);
  }
  | inr miss ↦
      let r : Released id cs n = Released-lem id cs n ne (ground arith) in
      record {
        count = ground (arith, r.count);
        size = ground (arith, r.size);
        counted = ground (arith, r.counted);
        gone = λ (apart, d). ground (arith, r.gone d);
      }
]

pub holds-release_other :
    (id a : ℕ) (cs : List ℕ) (n : ℤ)
    → a ≢ id
    → a ≢ no_id
    → holds a (release_slot id cs n).0 ≡ holds a cs
unfolding release_slot
holds-release_other id a [] n ne nn = refl
holds-release_other id a (c ∷ cs) n ne nn = ground (arith, holds-release_other id a cs n)

-- Clearing a slot keeps the other ids distinct.
pub holds-release_false :
    (id a : ℕ) (cs : List ℕ) (n : ℤ)
    → a ≢ no_id
    → holds a cs ≡ false
    → holds a (release_slot id cs n).0 ≡ false
unfolding release_slot
holds-release_false id a [] n nn h = refl
holds-release_false id a (c ∷ cs) n nn h = ground (arith, holds-release_false id a cs n)

pub Distinct-release :
    (id : ℕ) (cs : List ℕ) (n : ℤ) → Distinct cs → Distinct (release_slot id cs n).0
unfolding release_slot
Distinct-release id [] n d = tt
Distinct-release id (c ∷ cs) n (apart, d) = elim (Bool-cases (c == id)) [
  | inl hit ↦ rw hit (λ ne. absurd (ne refl), d)
  | inr miss ↦
      rw miss (λ ne. holds-release_false id c cs n ne (apart ne), Distinct-release id cs n d)
]
