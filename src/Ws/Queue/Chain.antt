-- ===== src/Ws/Queue/Chain.antt =====
-- What a queue in memory stands for: the addresses and values of its elements, front first.
use robot_arm.Base.{
  ◌≡◌, refl, ◌≢◌, Bool, true, false, ◌||◌, Option, Option, none, some, List, [], ◌∷◌, arith, ◌==◌,
  length,
}
use robot_arm.Ws.Queue.{Ptr, null, Elt, Heap, Mem, write}

abbrev pub Cells : Type 0 → Type 0
Cells A = List (Ptr × A)

module _ {A : Type 0} where
  abbrev pub has : Ptr → Cells A → Bool
  has a [] = false
  has a ((p, _) ∷ xs) = (a == p) || has a xs

  abbrev pub first : Cells A → Ptr
  first [] = null
  first ((p, _) ∷ xs) = p

  abbrev pub last : Ptr → Cells A → Ptr
  last p [] = p
  last _ ((p, _) ∷ xs) = last p xs

  -- The elements lie at distinct non-null addresses, each pointing to the next, the last to null.
  abbrev pub Chain : Heap A → Cells A → Type 0
  Chain h [] = Unit
  Chain h ((p, v) ∷ xs) =
      (p ≢ null)
      × (has p xs ≡ false)
      × (h p ≡ some (record { next = first xs; msg = v }))
      × Chain h xs

  -- An empty queue may keep any tail: `deq` leaves it dangling.
  pub record IsQueue (m : Mem A) (xs : Cells A) : Type 0 where
    pub chain : Chain m.heap xs
    pub head : m.queue.head ≡ first xs
    pub tail : xs ≢ [] → m.queue.tail ≡ last null xs
    pub count : m.queue.length ≡ length xs

  -- A change that spares the elements' addresses keeps the chain.
  pub Chain-frame :
      (h g : Heap A) (xs : Cells A)
      → Chain h xs
      → ((a : Ptr) → has a xs ≡ true → g a ≡ h a)
      → Chain g xs
  Chain-frame h g [] c same = tt
  Chain-frame h g ((p, v) ∷ xs) (ne, new, e, c) same =
      (ne, new, ground (arith, same p), Chain-frame h g xs c (λ a i. same a (ground arith)))

  pub has-last : (p : Ptr) (v : A) (xs : Cells A) → has (last p xs) ((p, v) ∷ xs) ≡ true
  has-last p v [] = ground arith
  has-last p v ((q, w) ∷ xs) = ground (arith, has-last q w xs)

  pub not-mem_of_none :
      (h : Heap A) (a : Ptr) (xs : Cells A) → Chain h xs → h a ≡ none → has a xs ≡ false
  not-mem_of_none h a [] c unused = refl
  not-mem_of_none h a ((p, v) ∷ xs) (ne, new, e, c) unused =
      ground (arith, not-mem_of_none h a xs c unused)

  pub ne_of_has : (a b : Ptr) (xs : Cells A) → has a xs ≡ true → has b xs ≡ false → a ≢ b
  ne_of_has a b xs i o e = cc

  -- On a list that is not empty the default does not matter.
  pub last_default : (a b : Ptr) (xs : Cells A) → xs ≢ [] → last a xs ≡ last b xs
  last_default a b [] ne = absurd (ne refl)
  last_default a b ((p, v) ∷ xs) ne = refl

  pub write_same : (h : Heap A) (p : Ptr) (c : Option (Elt A)) → write h p c p ≡ c
  unfolding write
  write_same h p c = ground arith

  pub write_other : (h : Heap A) (p a : Ptr) (c : Option (Elt A)) → a ≢ p → write h p c a ≡ h a
  unfolding write
  write_other h p a c ne = ground arith
