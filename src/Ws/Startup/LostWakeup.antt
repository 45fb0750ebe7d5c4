-- ===== src/Ws/Startup/LostWakeup.antt =====
-- The order of the signal and the wait in `ws_create_thread` and `start_server_loop`.
use robot_arm.Base.{◌≡◌, refl, Bool, true, false, none, some, arith}
use robot_arm.Ws.Startup.{
  blocked, returned, Service, absent, entering, initialising, signalling, serving, service, Startup,
  initial, Step, create, main_lock, main_wait, spurious_wakeup, main_relock, main_unlock,
  server_lock, server_init, server_signal, server_unlock, server_fail, serve, server_stop, Reach,
  here, next,
}

-- The server thread has sent its only signal.
abbrev pub has_signalled : Service → Bool
has_signalled absent = false
has_signalled entering = false
has_signalled initialising = false
has_signalled (signalling _) = false
has_signalled _ = true

record IsLost (s : Startup) : Type 0 where
  waits : s.main ≡ blocked
  sent : has_signalled s.server ≡ true

Step-IsLost : {s t : Startup} → Step false s t → IsLost s → IsLost t
Step-IsLost (create e) l = ground arith
Step-IsLost (main_lock e f) l = ground arith
Step-IsLost (main_wait e) l = ground arith
Step-IsLost (spurious_wakeup e f) l = ground arith
Step-IsLost (main_relock e f) l = ground arith
Step-IsLost (main_unlock e) l = ground arith
Step-IsLost (server_lock e f) l = ground arith
Step-IsLost (server_init b e) l = ground arith
Step-IsLost (server_signal e) l = ground arith
Step-IsLost (server_unlock e) l = ground arith
Step-IsLost (server_fail e) l = ground arith
Step-IsLost (serve e) l = l
Step-IsLost (server_stop e) l = ground arith

Reach-IsLost : {s t : Startup} → Reach false s t → IsLost s → IsLost t
Reach-IsLost here l = l
Reach-IsLost (next r st) l = Step-IsLost st (Reach-IsLost r l)

-- The schedule in which the server thread signals before the caller takes the mutex.
signalled_first : Startup
signalled_first = record { main = blocked; server = serving; lock = none; dangling = false }

signalled_first-Reach : Reach false initial signalled_first
unfolding signalled_first
signalled_first-Reach =
    next
      (next
        (next
          (next
            (next (next (next here (create refl)) (server_lock refl refl)) (server_init true refl))
            (server_signal refl))
          (server_unlock refl))
        (main_lock refl refl))
      (main_wait refl)

-- Without spurious wakeups there is a schedule after which `ws_create_thread` waits for ever: the
-- server thread takes the mutex and signals before the caller waits, and whatever runs from then on,
-- the caller stays blocked.
pub lost_wakeup :
    (s : Startup) × Reach false initial s
    × (s.server ≡ serving)
    × ((t : Startup) → Reach false s t → t.main ≡ blocked)
unfolding signalled_first
lost_wakeup = (
  signalled_first,
  signalled_first-Reach,
  refl,
  λ t r. (Reach-IsLost r (record { waits = refl; sent = refl })).waits,
)

early_return : Startup
early_return = record {
  main = returned;
  server = signalling true;
  lock = some service;
  dangling = true;
}

-- With spurious wakeups `ws_create_thread` can return before the server thread has read the options
-- that lie in its stack frame.
pub dangling_options : (s : Startup) × Reach true initial s × (s.dangling ≡ true)
unfolding early_return
dangling_options = (
  early_return,
  next
      (next
        (next
          (next
            (next (next (next (next here (create refl)) (main_lock refl refl)) (main_wait refl))
              (spurious_wakeup refl refl))
            (main_relock refl refl))
          (main_unlock refl))
        (server_lock refl refl))
      (server_init true refl),
  refl,
)
