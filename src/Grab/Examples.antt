-- ===== src/Grab/Examples.antt =====
-- The theorems on the hand-over at concrete inputs, over a socket that gives one byte at a time.
use robot_arm.Base.{ℕ, none, some, ◌≡◌, refl, List, [], ◌∷◌, pos, negsuc, ◌/ℤ◌, arith}
use robot_arm.Ws.Run.{done, ◌>>=◌}
use robot_arm.Gpio.Examples.Servos.{whole, servo}
use robot_arm.Vec.{Vec3}
use robot_arm.Ik.Examples.{arm, whole-IsOrder}
use robot_arm.Tcp.Examples.{socket, pending, socket-IsStream}
use robot_arm.Grab.{Point, Arm, servo_ctl_rounds}
use robot_arm.Ik.Angles.{ArmStops}
use robot_arm.Grab.Loop.{Limb, Goal, main_rounds, int_handler, target_angles, neutral, tenth}
use robot_arm.Grab.Start.{IsHalfTurn, main_start, main_start-neutral}
use robot_arm.Grab.Messages.{
  Exchange, IsPoint, exchange, send_all, serve_all, servo_ctl_rounds-serve_all,
}

abbrev ahead : Vec3 whole
ahead = record { x = pos 100; y = pos 30; z = pos 20 }

abbrev goals : List (Goal whole)
goals = some (ahead, pos 150) ∷ none ∷ some (ahead, pos 80) ∷ []

abbrev pub grabber : Arm whole
grabber = record {
  chain = arm;
  claw_angle = pos 0;
  wrist_t_max = pos 10;
  cams = record {
    dir = pos 1;
    servo_cam_x = servo;
    servo_cam_y = servo;
    cam_ang_orig = record { x = pos 0; y = pos 0 };
    cam_ang_diff = record { x = pos 0; y = pos 0 };
  };
  goals = [];
  sent = [];
}

abbrev object : Point
object = (pos 100, negsuc 40, pos 0)

abbrev offset : Point
offset = (pos 5, pos 6, pos 7)

abbrev face : Point
face = (pos 1, pos 2, pos 30)

object-IsPoint : IsPoint object
object-IsPoint =
    ((omega arith, omega arith), (omega arith, omega arith), (omega arith, omega arith))

offset-IsPoint : IsPoint offset
offset-IsPoint =
    ((omega arith, omega arith), (omega arith, omega arith), (omega arith, omega arith))

face-IsPoint : IsPoint face
face-IsPoint = ((omega arith, omega arith), (omega arith, omega arith), (omega arith, omega arith))

abbrev exchanges : List Exchange
exchanges = exchange 3 object offset face ∷ exchange 0 object offset face ∷ []

servo_ctl_rounds-serve_all_example :
    (s : List ℕ) × (servo_ctl_rounds whole socket
        (pos 1)
        (pos 2)
        4
        (3 ∷ 0 ∷ [])
        grabber
        (send_all exchanges (9 ∷ []))
      ≡ (serve_all whole (pos 1) (pos 2) exchanges grabber >>= λ a. done (a, s)))
    × (s ≡ 9 ∷ [])
servo_ctl_rounds-serve_all_example =
    servo_ctl_rounds-serve_all whole socket pending socket-IsStream (pos 1) (pos 2) 4 exchanges
      (9 ∷ []) grabber (send_all exchanges (9 ∷ []))
      (
        (object-IsPoint, offset-IsPoint, face-IsPoint),
        ((object-IsPoint, offset-IsPoint, face-IsPoint), tt),
      )
      (omega arith) refl

whole-IsHalfTurn : IsHalfTurn whole
unfolding ◌/ℤ◌
whole-IsHalfTurn = record { turn = refl; above = refl; below = refl }

main_start-neutral_example :
    (start l l' : Limb whole) × (main_start whole (pos 1) (pos 2) (pos 0) [] ≡ done start)
    × (main_rounds whole (pos 1) goals start ≡ done l)
    × ArmStops whole l.0.servos
    × (int_handler whole l ≡ done l')
    × (target_angles whole l'.0 ≡ neutral whole)
    × (l'.1.target_angle ≡ tenth whole)
main_start-neutral_example =
    main_start-neutral whole whole-IsOrder (pos 1) (pos 2) (pos 0) [] (pos 1) goals whole-IsHalfTurn
