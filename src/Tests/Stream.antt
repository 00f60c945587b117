-- ===== src/Tests/Stream.antt =====
-- Runs of the end of a motion over the wire, and a connection whose state is the states to come.
use libfranka.Prelude.{
  ℕ, ◌≡◌, refl, inl, inr, true, Option, none, some, List, [], ◌∷◌, Result, ok, raise, arith,
}
use libfranka.Interface.{
  Command, MotionGeneratorMode, ControllerMode, RobotMode, WireState, empty_motion,
}
use libfranka.Exceptions.{Exception, network}
use libfranka.ControlTypes.{RealtimeConfig}
use libfranka.RobotState.{empty_robot_state}
use libfranka.Logger.{new}
use libfranka.Robot.{Network, Impl, cancel_motion, finish_motion}
use libfranka.Robot.Finishes.{finish_motion-returns}
use libfranka.Robot.Finish.{IsIdle}
use libfranka.Tests.Wire.{Wire, wired, channel, Phase, coming, wired-IsStream}
use libfranka.Robot.Returns.{cancel_motion-returns}
use libfranka.Tests.Script.{count_double, count_matrices, moving, resting, success}

abbrev pub Stream : Type 0
Stream = List (WireState ℕ)

abbrev arrive : Stream → Result (Exception ℕ) (WireState ℕ) × Stream
arrive [] = (raise (network "UDP receive: Timeout"), [])
arrive (r ∷ q) = (ok r, q)

instance abbrev pub streaming : Network Stream ℕ
streaming = record {
  udp_port = λ c. 2000;
  udp_receive = λ c. (ok none, c);
  udp_blocking_receive = arrive;
  udp_send = λ command c. (ok tt, c);
  tcp_throw_if_connection_closed = λ c. (ok tt, c);
  tcp_send_connect = λ version port c. (ok 7, c);
  tcp_send_request = λ request c. (ok 7, c);
  tcp_blocking_receive_response = λ k id c. (ok success, c);
  tcp_receive_response = λ k id handler c. (ok true, c);
}

abbrev pub flowing : Impl Stream ℕ
flowing = record {
  network = moving 4 ∷ moving 5 ∷ resting 8 ∷ [];
  logger = new 2;
  realtime_config = RealtimeConfig.enforce;
  ri_version = 5;
  robot_mode = RobotMode.move;
  motion_generator_mode = MotionGeneratorMode.joint_position;
  current_move_motion_generator_mode = MotionGeneratorMode.joint_position;
  controller_mode = ControllerMode.joint_impedance;
  current_move_controller_mode = ControllerMode.joint_impedance;
  message_id = 3;
  current_state = empty_robot_state;
}

-- A robot whose states 4, 5 and 8 are to come; a response is waited for, or none.
abbrev served : Option (Command × ℕ) → Wire
served p = record {
  tcp = channel p 7;
  udp = record { udp_socket = 4 ∷ 5 ∷ 8 ∷ []; udp_server_address = 9; udp_port = 2000 };
}

abbrev on_wire : Wire → Impl Wire ℕ
on_wire c = record {
  network = c;
  logger = new 2;
  realtime_config = RealtimeConfig.enforce;
  ri_version = 5;
  robot_mode = RobotMode.move;
  motion_generator_mode = MotionGeneratorMode.joint_position;
  current_move_motion_generator_mode = MotionGeneratorMode.joint_position;
  controller_mode = ControllerMode.joint_impedance;
  current_move_controller_mode = ControllerMode.joint_impedance;
  message_id = 3;
  current_state = empty_robot_state;
}

-- The third state is still.
cancel_motion-returns_example :
    (t : Impl Wire ℕ) × (cancel_motion 2 3 5 (on_wire (served none)) ≡ (ok tt, t)) × IsIdle t
cancel_motion-returns_example =
    cancel_motion-returns coming Phase wired-IsStream 0 3 5 (on_wire (served none))
      (omega arith, (omega arith, (omega arith, tt))) (inr (inr (inl refl))) (7, refl)

finish_motion-returns_example :
    (t : Impl Wire ℕ) × (finish_motion 2 4 5
        (some empty_motion)
        none
        (on_wire (served (some (Command.move, 5))))
      ≡ (ok tt, t))
    × IsIdle t
finish_motion-returns_example =
    finish_motion-returns coming Phase wired-IsStream 0 3 5 empty_motion none
      (on_wire (served (some (Command.move, 5)))) refl
      ((λ _. refl), (λ h. absurd (cc)), (λ _ h. absurd (cc)))
      (omega arith, (omega arith, (omega arith, tt))) (inr (inr (inl refl))) (7, refl)
