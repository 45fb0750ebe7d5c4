-- ===== src/Ws/Connections.antt =====
-- The table of connected clients of RaspberryPi/src/ws/message_queue.c: `insert_id`, `remove_id`,
-- `add_connection`, `get_connections`. An id is a `struct lws *`, a number here, null a free slot.
-- The `static bool` of `insert_id` is a field of the state.
pub mod Slots
pub mod Table
use robot_arm.Base.{
  ℕ, zero, suc, ◌+◌, ◌≡◌, ◌≢◌, Bool, true, false, List, [], ◌∷◌, ℤ, pos, negsuc, ◌+ℤ◌, ◌-ℤ◌, ◌==◌,
  if◌then◌else◌, length, replicate,
}

abbrev pub no_id : ℕ
no_id = 0

abbrev pub max_connections : ℕ
max_connections = 16

abbrev pub table_size : ℕ
table_size = max_connections + 4

pub record Connections : Type 0 where
  pub first_time : Bool
  pub ids : List ℕ
  pub count : ℤ

-- The program's start: static storage is zero.
abbrev pub initial : Connections
initial = record { first_time = true; ids = replicate table_size no_id; count = pos 0 }

-- The loop that sets each slot to NULL.
unfoldable pub clear_ids : List ℕ → List ℕ
clear_ids [] = []
clear_ids (c ∷ cs) = no_id ∷ clear_ids cs

-- The loop that writes `id` to the first free slot and breaks; its index from `i` on, or -1.
unfoldable pub claim_slot : ℕ → List ℕ → ℕ → List ℕ × ℤ
claim_slot id [] i = ([], negsuc 0)
claim_slot id (c ∷ cs) i =
    let (cs', index) = claim_slot id cs (suc i) in
    if c == no_id then (id ∷ cs, pos i) else (c ∷ cs', index)

-- The loop that counts the slots in use.
unfoldable pub occupied : List ℕ → ℕ
occupied [] = 0
occupied (c ∷ cs) = if c == no_id then occupied cs else suc (occupied cs)

pub add_connection : Connections → Connections
add_connection s = record s { count = s.count +ℤ pos 1 }

unfoldable pub get_connections : Connections → ℤ
get_connections s = s.count

pub get_connection_ids : Connections → List ℕ
get_connection_ids s = s.ids

pub insert_id : ℕ → Connections → Connections × ℤ
unfolding clear_ids claim_slot occupied
insert_id id s =
    let ids = if s.first_time then clear_ids s.ids else s.ids in
    let (ids', index) = claim_slot id ids 0 in
    (record { first_time = false; ids = ids'; count = pos (occupied ids') }, index)

-- The loop that clears the first slot that holds `id` and breaks; the count of connections goes
-- along.
unfoldable pub release_slot : ℕ → List ℕ → ℤ → List ℕ × ℤ
release_slot id [] n = ([], n)
release_slot id (c ∷ cs) n =
    let (cs', n') = release_slot id cs n in
    if c == id then (no_id ∷ cs, n -ℤ pos 1) else (c ∷ cs', n')

pub remove_id : ℕ → Connections → Connections
unfolding release_slot
remove_id id s = let (ids, n) = release_slot id s.ids s.count in record s { ids = ids; count = n }
