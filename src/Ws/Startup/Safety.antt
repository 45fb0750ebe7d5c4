-- ===== src/Ws/Startup/Safety.antt =====
-- What the start guarantees where no wakeup is spurious.
use robot_arm.Base.{◌≡◌, refl, Bool, true, false, some, arith}
use robot_arm.Ws.Startup.{
  Creator, waiting, woken, unlocking, returned, Service, initialising, signalling, releasing,
  creator, service, Startup, initial, Step, create, main_lock, main_wait, spurious_wakeup,
  main_relock, main_unlock, server_lock, server_init, server_signal, server_unlock, server_fail,
  serve, server_stop, Reach, here, next,
}
use robot_arm.Ws.Startup.LostWakeup.{has_signalled}

-- Between a thread's lock and its unlock or wait.
abbrev pub main_inside : Creator → Bool
main_inside waiting = true
main_inside unlocking = true
main_inside _ = false

abbrev pub server_inside : Service → Bool
server_inside initialising = true
server_inside (signalling _) = true
server_inside (releasing _) = true
server_inside _ = false

-- The wait is over.
abbrev past_wait : Creator → Bool
past_wait woken = true
past_wait unlocking = true
past_wait returned = true
past_wait _ = false

record IsSafe (s : Startup) : Type 0 where
  main_owns : main_inside s.main ≡ true → s.lock ≡ some creator
  server_owns : server_inside s.server ≡ true → s.lock ≡ some service
  after_signal : past_wait s.main ≡ true → has_signalled s.server ≡ true
  options : s.dangling ≡ false

Step-IsSafe : {s t : Startup} → Step false s t → IsSafe s → IsSafe t
Step-IsSafe (create e) i = ground arith
Step-IsSafe (main_lock e f) i = ground arith
Step-IsSafe (main_wait e) i = ground arith
Step-IsSafe (spurious_wakeup e f) i = ground arith
Step-IsSafe (main_relock e f) i = ground arith
Step-IsSafe (main_unlock e) i = ground arith
Step-IsSafe (server_lock e f) i = ground arith
Step-IsSafe (server_init b e) i = ground arith
Step-IsSafe (server_signal e) i = ground arith
Step-IsSafe (server_unlock e) i = ground arith
Step-IsSafe (server_fail e) i = ground arith
Step-IsSafe (serve e) i = i
Step-IsSafe (server_stop e) i = ground arith

Reach-IsSafe : {s : Startup} → Reach false initial s → IsSafe s
Reach-IsSafe here = record {
  main_owns = λ e. cc;
  server_owns = λ e. cc;
  after_signal = λ e. cc;
  options = refl;
}
Reach-IsSafe (next r st) = Step-IsSafe st (Reach-IsSafe r)

-- In every state that is reached without a spurious wakeup the two threads are never both inside
-- their critical sections; once `ws_create_thread` has returned, the server thread has signalled that
-- the context exists or that it failed; and the options were read while their frame was alive.
pub Reach-safe :
    (s : Startup)
    → Reach false initial s
    → (main_inside s.main ≡ true → server_inside s.server ≡ false)
      × (s.main ≡ returned → has_signalled s.server ≡ true)
      × (s.dangling ≡ false)
Reach-safe s r =
    let i = Reach-IsSafe r in
    (ground (arith, i.main_owns, i.server_owns), ground (arith, i.after_signal), i.options)
