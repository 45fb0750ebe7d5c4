-- ===== src/Ws/Lws.antt =====
-- What the server calls of libwebsockets: its ring buffer of outgoing messages (`lws_ring_*`), as an
-- interface. The library is not part of the program's sources.
use robot_arm.Base.{ℕ, Option, List, ℤ}

-- `struct msg` of RaspberryPi/src/ws/ws_common.h: the bytes behind the room for the header, none
-- once they are freed.
pub record Msg : Type 0 where
  pub payload : Option (List ℕ)
  pub len : ℕ

pub record Lws : Type 1 where
  pub Ring : Type 0
  pub get_count_free_elements : Ring → ℕ
  pub get_count_waiting_elements : Ring → ℕ → ℕ
  pub get_oldest_tail : Ring → ℕ
  -- `lws_ring_insert` of one element: the ring, and how many were inserted.
  pub insert : Ring → Msg → Ring × ℕ
  pub get_element : Ring → ℕ → Option Msg
  -- `lws_ring_consume_and_update_oldest_tail`: the consumer's tail, how many to consume, the tails
  -- of all sessions in the list; the ring and the consumer's new tail.
  pub consume_and_update_oldest_tail : Ring → ℕ → ℤ → List ℕ → Ring × ℕ
