-- ===== src/Ws/Connections/Table.antt =====
-- What `insert_id` and `remove_id` do to the table of connections.
use robot_arm.Base.{
  ℕ, suc, ◌<◌, ◌≤◌, ◌≡◌, refl, ap, sym, ◌∙◌, ◌≢◌, inl, inr, true, false, ℤ, pos, negsuc, ◌-ℤ◌,
  arith, length, set, Bool-cases, length-set, if◌then◌else◌,
}
use native.Mathlib.Decide.{dec_lt}
use robot_arm.Ws.Connections.{
  no_id, table_size, Connections, initial, clear_ids, claim_slot, occupied, insert_id, remove_id,
}
use robot_arm.Ws.Connections.Slots.{
  holds, Distinct, first_free, occupied-le, clear_ids_free, claim_slot-free, claim_slot-full,
  Claimed-lem, Distinct-set, release_slot-absent, release_slot-claimed, Released-lem,
  holds-release_other, Distinct-release,
}

pub record IsTable (s : Connections) : Type 0 where
  pub size : length s.ids ≡ table_size
  pub count : s.count ≡ pos (occupied s.ids)
  pub distinct : Distinct s.ids
  pub unused : s.first_time ≡ true → occupied s.ids ≡ 0

pub IsTable-initial : IsTable initial
unfolding occupied
IsTable-initial = record { size = refl; count = refl; distinct = ground arith; unused = λ _. refl }

-- The count that the control loop polls is between 0 and the table's size.
pub count-bounds : (s : Connections) → IsTable s → (n : ℕ) × (s.count ≡ pos n) × (n ≤ table_size)
count-bounds s t = (occupied s.ids, t.count, omega (arith, occupied-le s.ids, t.size))

suc-sub-one : (n : ℕ) → pos (suc n) -ℤ pos 1 ≡ pos n
unfolding ◌-ℤ◌
suc-sub-one n = ground arith

one_less : (c : ℤ) (m n : ℕ) → c ≡ pos m → suc n ≡ m → c -ℤ pos 1 ≡ pos n
one_less c m n e f = rw (e, ← f) (suc-sub-one n)

module _ (id : ℕ) (s : Connections) (t : IsTable s) where
  -- The slots that `insert_id` works on.
  start-eq : (if s.first_time then clear_ids s.ids else s.ids) ≡ s.ids
  start-eq = elim (Bool-cases s.first_time) [
    | inl first ↦ rw first (clear_ids_free s.ids (t.unused first))
    | inr later ↦ rw later refl
  ]

  insert_id-shape : insert_id id s ≡ (
    record {
      first_time = false;
      ids = (claim_slot id s.ids 0).0;
      count = pos (occupied (claim_slot id s.ids 0).0);
    },
    (claim_slot id s.ids 0).1,
  )
  unfolding insert_id
  insert_id-shape = rw start-eq

  -- A new client gets the first free slot, and the count goes up by one.
  insert_id-free :
      occupied s.ids < table_size
      → insert_id id s ≡ (
        record {
          first_time = false;
          ids = set s.ids (first_free s.ids) id;
          count = pos (occupied (set s.ids (first_free s.ids) id));
        },
        pos (first_free s.ids),
      )
  insert_id-free h =
      rw (insert_id-shape, claim_slot-free id s.ids 0 (omega (arith, t.size)))
        (ap
          (λ (k : ℕ). (
            record {
              first_time = false;
              ids = set s.ids (first_free s.ids) id;
              count = pos (occupied (set s.ids (first_free s.ids) id));
            },
            pos k,
          ))
          (omega arith))

  -- In a full table there is no slot: -1, and the ids and their count stay.
  insert_id-full :
      occupied s.ids ≡ table_size → insert_id id s ≡ (record s { first_time = false }, negsuc 0)
  insert_id-full h =
      rw (insert_id-shape, claim_slot-full id s.ids 0 (omega (arith, t.size)), ← t.count)

  -- What a call of `insert_id` with a new id gives.
  pub record Inserted (s' : Connections) (index : ℤ) : Type 0 where
    pub table : IsTable s'
    pub free :
        occupied s.ids < table_size
        → (index ≡ pos (first_free s.ids))
          × (s'.ids ≡ set s.ids (first_free s.ids) id)
          × (holds id s'.ids ≡ true)
          × (s'.count ≡ pos (suc (occupied s.ids)))
    pub full :
        occupied s.ids ≡ table_size → (index ≡ negsuc 0) × (s'.ids ≡ s.ids) × (s'.count ≡ s.count)

  -- The one case of `Inserted`, for a table with room.
  Inserted-free :
      id ≢ no_id
      → holds id s.ids ≡ false
      → occupied s.ids < table_size
      → Inserted
          (record {
            first_time = false;
            ids = set s.ids (first_free s.ids) id;
            count = pos (occupied (set s.ids (first_free s.ids) id));
          })
          (pos (first_free s.ids))
  Inserted-free ne new h =
      let c = Claimed-lem id s.ids ne (omega (arith, t.size)) in
      record {
        table = record {
          size = length-set s.ids (first_free s.ids) id ∙ t.size;
          count = refl;
          distinct = Distinct-set id s.ids new t.distinct;
          unused = λ f. cc;
        };
        free = λ _. (refl, refl, c.held, ap pos c.counted);
        full = λ f. absurd (omega (arith, f));
      }

  Inserted-full :
      occupied s.ids ≡ table_size → Inserted (record s { first_time = false }) (negsuc 0)
  Inserted-full h = record {
    table = record { size = t.size; count = t.count; distinct = t.distinct; unused = λ f. cc };
    free = λ f. absurd (omega (arith, f));
    full = λ _. (refl, refl, refl);
  }

  -- On a well-formed table, a new id that is not null goes into the first free slot, whose index
  -- is returned, and the count goes up by one; in a full table -1 is returned and the ids and the
  -- count stay. The table stays well formed.
  pub insert_id_lem :
      id ≢ no_id → holds id s.ids ≡ false → Inserted (insert_id id s).0 (insert_id id s).1
  insert_id_lem ne new = elim (dec_lt (occupied s.ids) table_size) [
    | yes h ↦ rw (insert_id-free h) (Inserted-free ne new h)
    | no h ↦
        let all : occupied s.ids ≡ table_size = omega (arith, occupied-le s.ids, t.size) in
        rw (insert_id-full all) (Inserted-full all)
  ]

  -- On a well-formed table with room, a new id that is not null and is removed right after it was
  -- inserted leaves the ids and the count as they were.
  pub remove-insert :
      id ≢ no_id
      → holds id s.ids ≡ false
      → occupied s.ids < table_size
      → remove_id id (insert_id id s).0 ≡ record s { first_time = false }
  unfolding remove_id
  remove-insert ne new h =
      let c = Claimed-lem id s.ids ne (omega (arith, t.size)) in
      rw
        (
          insert_id-free h,
          release_slot-claimed id s.ids (pos (occupied (set s.ids (first_free s.ids) id))) ne new
              (omega (arith, t.size)),
        )
        (ap (λ (n : ℤ). record s { first_time = false; count = n })
          (ap (λ (k : ℕ). pos k -ℤ pos 1) c.counted ∙ suc-sub-one (occupied s.ids) ∙ sym t.count))

  -- What a call of `remove_id` gives.
  pub record Removed (s' : Connections) : Type 0 where
    pub table : IsTable s'
    pub gone : holds id s'.ids ≡ false
    pub others : (a : ℕ) → a ≢ id → a ≢ no_id → holds a s'.ids ≡ holds a s.ids
    pub count : s'.count ≡ (if holds id s.ids then s.count -ℤ pos 1 else s.count)

  -- On a well-formed table, `remove_id` of an id that is not null takes it out, with one off the
  -- count if it was there, keeps every other id, and leaves a well-formed table.
  pub remove_id_lem : id ≢ no_id → Removed (remove_id id s)
  unfolding remove_id
  remove_id_lem ne = elim (Bool-cases (holds id s.ids)) [
    | inl there ↦
        let r = Released-lem id s.ids s.count ne there in
        record {
          table = record {
            size = r.size ∙ t.size;
            count = r.count ∙ one_less s.count (occupied s.ids) _ t.count r.counted;
            distinct = Distinct-release id s.ids s.count t.distinct;
            unused = λ f. absurd (omega (arith, t.unused f, r.counted));
          };
          gone = r.gone t.distinct;
          others = λ a na nn. holds-release_other id a s.ids s.count na nn;
          count = rw there r.count;
        }
    | inr absent ↦
        rw (release_slot-absent id s.ids s.count absent)
          (record { table = t; gone = absent; others = λ a na nn. refl; count = rw absent refl })
  ]
