-- ===== src/Motor/Examples.antt =====
-- The theorems on the stepper program at concrete inputs, with whole numbers for floating-point ones
-- and waves that are only counted.
use robot_arm.Base.{false, ℕ, suc, true, none, List, ◌≡◌, refl, [], ◌∷◌, ◌++◌, ℤ, pos, ◌-ℤ◌}
use robot_arm.Ws.Run.{done, bad_pointer}
use robot_arm.Gpio.Examples.Servos.{whole}
use robot_arm.Motor.Wave.{Pigpio, chain_of}
use robot_arm.Motor.Thread.{read_array, Globals, Thread, initial, delete_waves, run}
use robot_arm.Motor.Heap.{live}
use robot_arm.Motor.Journey.{run-Owns, near_start-bad_pointer}
use robot_arm.Motor.Main.{
  typing, Event, main_acts, encoder_turns, thread_round, interrupted, Program, main_begin, course,
}
use robot_arm.Motor.Resumed.{RestsAt, stop-main_begin}
use robot_arm.Motor.Ids.{Numbered, ids_from, slow_down-deletes_new}

abbrev counted : Pigpio
counted = record {
  Waves = ℕ;
  wave_clear = λ w. 0;
  wave_add_new = λ w. w;
  wave_add_generic = λ ps w. w;
  wave_create = λ w. (suc w, pos w);
  wave_chain = λ bytes w. w;
  wave_delete = λ i w. w;
  wave_tx_stop = λ w. w;
  wave_get_micros = λ w. pos 150;
  gpio_terminate = λ w. 0;
}

counted-Numbered : Numbered counted
counted-Numbered = record {
  count = λ w. w;
  count-clear = λ w. refl;
  count-add_new = λ w. refl;
  count-add_generic = λ ps w. refl;
  create-id = λ w l. refl;
  count-create = λ w l. refl;
}

-- The motor at a step, on its way to another.
abbrev seen : ℤ → ℤ → Globals whole
seen at to = record { cpos = at; tpos = to; cur_angle = at; target_angle = to }

run-Owns_example :
    (t : Thread whole counted) × (run whole counted 12
        (seen (pos 0) (pos 0)
          ∷ seen (pos 0) (pos 400)
          ∷ seen (pos 350) (pos 400)
          ∷ seen (pos 400) (pos 400)
          ∷ seen (pos 400) (pos 0)
          ∷ [])
        (initial whole counted 0)
      ≡ done t)
    × (live t.heap ≡ 1)
unfolding ◌-ℤ◌
run-Owns_example =
    run-Owns whole counted 12
      (seen (pos 0) (pos 0)
        ∷ seen (pos 0) (pos 400)
        ∷ seen (pos 350) (pos 400)
        ∷ seen (pos 400) (pos 400)
        ∷ seen (pos 400) (pos 0)
        ∷ [])
      0 refl

near_start-bad_pointer_example :
    run whole counted 12
      ((seen (pos 0) (pos 400) ∷ seen (pos 400) (pos 400) ∷ []) ++ seen (pos 400) (pos 420) ∷ [])
      (initial whole counted 0)
    ≡ bad_pointer
unfolding ◌-ℤ◌
near_start-bad_pointer_example =
    near_start-bad_pointer whole counted 12 (seen (pos 0) (pos 400) ∷ seen (pos 400) (pos 400) ∷ [])
      (seen (pos 400) (pos 420)) 0 refl refl refl refl

slow_down-deletes_new_example :
    (t : Thread whole counted) × (w' : ℕ) × (run whole counted 12
        (seen (pos 0) (pos 400) ∷ seen (pos 310) (pos 400) ∷ [])
        (initial whole counted 0)
      ≡ done t)
    × (read_array t.wid_current t.heap ≡ done (ids_from 0 200))
    × (t.waves
        ≡ delete_waves whole counted
            (ids_from 0 200)
            (counted.wave_chain (chain_of (ids_from 0 200)) w'))
unfolding ◌-ℤ◌
slow_down-deletes_new_example =
    slow_down-deletes_new whole counted counted-Numbered 12 (seen (pos 0) (pos 400))
      (seen (pos 310) (pos 400)) 0 refl refl refl refl

abbrev on_the_way : Program whole counted
on_the_way = record {
  globals = seen (pos 310) (pos 400);
  running = true;
  stage = typing;
  file = none;
  thread = initial whole counted 200;
}

-- The motor goes on, the thread makes its last test, an angle is typed and the program ends.
abbrev rest_of_program : List (Event whole)
rest_of_program =
    encoder_turns (pos 311) ∷ thread_round ∷ main_acts (pos 500) ∷ main_acts (pos 0) ∷ []

stop-main_begin_example :
    (q : Program whole counted) × (course whole counted 12
        (interrupted true ∷ rest_of_program)
        on_the_way
      ≡ done q)
    × (q.running ≡ false)
    × RestsAt whole counted 12 (pos 310) (main_begin whole counted 0 q.file)
unfolding initial
stop-main_begin_example =
    stop-main_begin whole counted 12 on_the_way rest_of_program 0 (refl, (refl, (refl, (refl, tt))))
