-- ===== src/Ws/Startup.antt =====
-- How the server thread starts: `ws_create_thread` and `start_server_loop` of
-- RaspberryPi/src/ws/ws_ring_server.c as two threads that interleave at each call on `binary_sem` and
-- `start_cond`. A wakeup without a signal, which POSIX allows of `pthread_cond_wait`, is a step where
-- the parameter `spurious` is true.
pub mod Safety
pub mod LostWakeup
use robot_arm.Base.{◌≡◌, Bool, true, false, Option, none, some}

-- Where `ws_create_thread` stands: before `pthread_create`, before the lock, before the wait, in the
-- wait, woken and before the lock that the wait takes again, before the unlock, returned.
pub data Creator : Type 0 where
  creating locking waiting blocked woken unlocking returned : Creator

-- Where `start_server_loop` stands: not created, before the lock, before it copies the options and
-- makes the context, before the signal, before the unlock (both with whether there is a context), in
-- the service loop, ended.
pub data Service : Type 0 where
  absent entering initialising : Service
  signalling releasing : Bool → Service
  serving ended : Service

pub data Thread : Type 0 where
  creator service : Thread

pub record Startup : Type 0 where
  pub main : Creator
  pub server : Service
  -- the owner of `binary_sem`
  pub lock : Option Thread
  -- whether the server thread has read the options from a stack frame that had been left
  pub dangling : Bool

abbrev pub initial : Startup
initial = record { main = creating; server = absent; lock = none; dangling = false }

abbrev pub has_returned : Creator → Bool
has_returned returned = true
has_returned _ = false

-- A waiting thread is woken; with none the signal is lost.
abbrev pub wake : Creator → Creator
wake blocked = woken
wake m = m

pub data Step (spurious : Bool) (s : Startup) : Startup → Type 0 where
  create : s.main ≡ creating → Step spurious s (record s { main = locking; server = entering })
  main_lock :
      s.main ≡ locking
      → s.lock ≡ none
      → Step spurious s (record s { main = waiting; lock = some creator })
  main_wait : s.main ≡ waiting → Step spurious s (record s { main = blocked; lock = none })
  spurious_wakeup : spurious ≡ true → s.main ≡ blocked → Step spurious s (record s { main = woken })
  main_relock :
      s.main ≡ woken
      → s.lock ≡ none
      → Step spurious s (record s { main = unlocking; lock = some creator })
  main_unlock : s.main ≡ unlocking → Step spurious s (record s { main = returned; lock = none })
  server_lock :
      s.server ≡ entering
      → s.lock ≡ none
      → Step spurious s (record s { server = initialising; lock = some service })
  -- `created` says whether `lws_create_context` gave a context
  server_init :
      (created : Bool)
      → s.server ≡ initialising
      → Step spurious s (record s { server = signalling created; dangling = has_returned s.main })
  server_signal :
      {created : Bool}
      → s.server ≡ signalling created
      → Step spurious s (record s { server = releasing created; main = wake s.main })
  server_unlock :
      s.server ≡ releasing true → Step spurious s (record s { server = serving; lock = none })
  server_fail :
      s.server ≡ releasing false → Step spurious s (record s { server = ended; lock = none })
  serve : s.server ≡ serving → Step spurious s s
  server_stop : s.server ≡ serving → Step spurious s (record s { server = ended })

pub data Reach (spurious : Bool) (s : Startup) : Startup → Type 0 where
  here : Reach spurious s s
  next : {t u : Startup} → Reach spurious s t → Step spurious t u → Reach spurious s u
