-- ===== src/Ws/Examples/Start.antt =====
-- The start of the server thread, in the order in which it should go.
use robot_arm.Base.{◌≡◌, refl, true, false, none}
use robot_arm.Ws.Startup.{
  returned, serving, Startup, initial, create, main_lock, main_wait, main_relock, main_unlock,
  server_lock, server_init, server_signal, server_unlock, Reach, here, next,
}
use robot_arm.Ws.Startup.LostWakeup.{has_signalled}
use robot_arm.Ws.Startup.Safety.{main_inside, server_inside, Reach-safe}

abbrev started : Startup
started = record { main = returned; server = serving; lock = none; dangling = false }

started-Reach : Reach false initial started
started-Reach =
    next
      (next
        (next
          (next
            (next
              (next (next (next (next here (create refl)) (main_lock refl refl)) (main_wait refl))
                (server_lock refl refl))
              (server_init true refl))
            (server_signal refl))
          (server_unlock refl))
        (main_relock refl refl))
      (main_unlock refl)

Reach-safe_example :
    (main_inside started.main ≡ true → server_inside started.server ≡ false)
    × (started.main ≡ returned → has_signalled started.server ≡ true)
    × (started.dangling ≡ false)
Reach-safe_example = Reach-safe started started-Reach
