-- ===== src/Tcp.antt =====
-- The TCP link between the arm and the computer that looks at its pictures: `read_int32_t`,
-- `send_int32_t` and the frames of `cam_io_thread` in RaspberryPi/src/arducam_lws.cpp; `read_buf`,
-- `send_int` and `readImageThread` in Windows/XNlib/include/xn_net.hpp. The socket is a parameter.
pub mod Reading
pub mod Frames
pub mod Closed
pub mod Stream
pub mod Looks
pub mod Shots
pub mod Watched
pub mod Writers
pub mod Examples
use robot_arm.Base.{
  ℕ, zero, suc, ◌+◌, ◌-◌, ◌*◌, ◌/◌, ◌%◌, ◌^◌, ◌<◌, ◌≤◌, ◌≡◌, ◌≢◌, Bool, true, false, Option, none,
  some, List, [], ◌∷◌, ◌++◌, ℤ, pos, negsuc, to_i32, of_i32, if◌then◌else◌, ltb, length, get_or,
  replicate,
}
use robot_arm.Ws.Run.{Run, done, bad_pointer, out_of_fuel, ◌>>=◌}

-- What `recv` answers: some bytes, 0 from a closed connection, -1.
pub data Received : Type 0 where
  bytes : List ℕ → Received
  closed : Received
  failed : Received

-- A socket: its state, and one call of `recv` for at most the given number of bytes.
pub record Socket : Type 1 where
  pub State : Type 0
  pub recv : State → ℕ → Received × State

-- What TCP guarantees while bytes are under way: a call of `recv` takes at least one and at most as
-- many as it asks for, from the front of `pending`.
pub record IsStream (so : Socket) (pending : so.State → List ℕ) : Type 0 where
  pub recv_some :
      (s : so.State) (n : ℕ)
      → 0 < n
      → pending s ≢ []
      → (c : List ℕ) × (s' : so.State) × (so.recv s n ≡ (bytes c, s'))
        × (0 < length c)
        × (length c ≤ n)
        × (pending s ≡ c ++ pending s')

-- Without its last element.
abbrev pub drop_last : List ℕ → Option (List ℕ)
drop_last [] = none
drop_last (b ∷ bs) = elim (drop_last bs) [ none ↦ some [] | some cs ↦ some (b ∷ cs) ]

-- `htonl` and the four bytes that are sent.
unfoldable pub be_bytes : ℤ → List ℕ
be_bytes n =
    of_i32 n / 2 ^ 24 ∷ of_i32 n / 2 ^ 16 % 2 ^ 8 ∷ of_i32 n / 2 ^ 8 % 2 ^ 8 ∷ of_i32 n % 2 ^ 8 ∷ []

-- `ntohl` of the four bytes that were received.
unfoldable pub ntohl : List ℕ → ℤ
ntohl bs =
    to_i32 (2 ^ 24 * get_or bs 0 0 + 2 ^ 16 * get_or bs 1 0 + 2 ^ 8 * get_or bs 2 0 + get_or bs 3 0)

pub send_int : ℤ → List ℕ
send_int val = be_bytes val

-- The size of the picture, then the picture.
pub send_frame : List ℕ → List ℕ
send_frame frame = be_bytes (pos (length frame)) ++ frame

abbrev pub max_read : ℕ
max_read = 130272

-- The buffer of `readImageThread`, zero behind the picture.
pub padded : List ℕ → List ℕ
padded bs = bs ++ replicate (max_read - length bs) 0

-- What `readImageThread` leaves for others: `arm_state`, and the buffer of the last picture.
pub record Viewer : Type 0 where
  pub arm_state : ℤ
  pub frame : List ℕ

module _ (so : Socket) where
  open so use {State, recv}

  -- The rest of a round of `read_buf`, behind the answer of `recv`; `again` is the next round. The
  -- bytes are written behind `buf`, in memory that has `room` for as many. An answer of -1 moves the
  -- pointer back and the rest up by one, as adding it does; before the first byte the pointer leaves
  -- the buffer.
  pub after_recv :
      ℕ
      → (ℕ → List ℕ → State → Run (List ℕ × State))
      → ℕ
      → List ℕ
      → Received × State
      → Run (List ℕ × State)
  after_recv room again left buf (bytes c, s) =
      let rest = again (left - length c) (buf ++ c) s in
      if ltb room (length (buf ++ c))
      then bad_pointer
      else if ltb 0 (left - length c)
      then rest
      else done (buf ++ c, s)
  after_recv room again left buf (closed, s) =
      let rest = again left buf s in if ltb 0 left then rest else done (buf, s)
  after_recv room again left buf (failed, s) = elim (drop_last buf) [
    | none ↦ bad_pointer
    | some buf' ↦ again (suc left) buf' s
  ]

  -- `left` bytes to go behind `buf`.
  pub read_buf : ℕ → ℕ → ℕ → List ℕ → State → Run (List ℕ × State)
  unfolding after_recv
  read_buf room zero left buf s = out_of_fuel
  read_buf room (suc k) left buf s = after_recv room (read_buf room k) left buf (recv s left)

  pub read_int32_t : ℕ → State → Run (ℤ × State)
  read_int32_t fuel s = do (bs, s') ← read_buf 4 fuel 4 [] s; done (ntohl bs, s')

  -- What follows the number: a negative number is a state of the arm, any other the size of the
  -- picture that follows, which is read into the buffer whatever its size.
  pub read_body : ℕ → ℤ → Viewer → State → Run (Viewer × State)
  read_body fuel (negsuc n) v s = done (record v { arm_state = negsuc n }, s)
  read_body fuel (pos n) v s = do
    (bs, s') ← read_buf max_read fuel n [] s
    done (record v { frame = padded bs }, s')

  -- One round of the loop of `readImageThread`.
  pub read_image : ℕ → Viewer → State → Run (Viewer × State)
  read_image fuel v s = do (left, s') ← read_int32_t fuel s; read_body fuel left v s'
