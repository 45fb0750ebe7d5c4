-- ===== src/Tcp/Closed.antt =====
-- What a read does when the other side has gone.
use robot_arm.Base.{ℕ, zero, suc, ◌<◌, ◌≡◌, refl, true, List, [], arith, ltb}
use robot_arm.Ws.Run.{out_of_fuel}
use robot_arm.Tcp.{closed, Socket, read_buf, read_int32_t}

module _ (so : Socket) (s : so.State) (gone : (n : ℕ) → so.recv s n ≡ (closed, s)) where
  read_buf-closed :
      (room fuel left : ℕ) (buf : List ℕ)
      → 0 < left
      → read_buf so room fuel left buf s ≡ out_of_fuel
  unfolding read_buf
  read_buf-closed room zero left buf h = refl
  read_buf-closed room (suc k) left buf h =
      rw (gone left, some_left left h) (read_buf-closed room k left buf h)
    where
      some_left : (left : ℕ) → 0 < left → ltb 0 left ≡ true
      some_left left h = ground arith

  -- On a connection whose every `recv` answers 0, as a closed one does, `read_int32_t` never
  -- returns, whatever number of rounds it is given.
  pub read_int32_t-closed : (fuel : ℕ) → read_int32_t so fuel s ≡ out_of_fuel
  unfolding read_int32_t
  read_int32_t-closed fuel = rw (read_buf-closed 4 fuel 4 [] (omega arith))
