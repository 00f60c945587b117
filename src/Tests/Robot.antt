-- ===== src/Tests/Robot.antt =====
-- Runs of `Robot::Impl`.
use mathlib.Core.List.{Memᴰ}
use libfranka.Prelude.{
  ℕ, ◌↔◌, ◌≡◌, ◌<◌, ◌≤◌, refl, inl, true, false, none, some, [], ◌∷◌, ok, raise, arith, All, ◌>>◌,
  pure, String,
}
use libfranka.Interface.{
  RobotMode, ControllerMode, Response, Command, k_version, WireState, MoveController, MoveGenerator,
  Deviation, empty_motion, move,
}
use libfranka.RobotState.{empty_robot_state}
use libfranka.RobotState
use libfranka.Robot.{
  Impl, on_network, receive_robot_state, finish_motion, cancel_motion, start_motion, update_state,
  drain, await, none_accepted, finish_running, finish_loop, finish_status, conclude, conclude_with,
  update, send_robot_command, send_unless, refusal, handle_move, handle_command_response,
  handle_stop_move, throw_on_motion_error, cancel_loop, execute_command, handle, start_loop,
  poll_response, flush_logger, plain, filled_command, is_running, running_generator,
  running_controller,
}
use libfranka.Robot.Receive.{receive_robot_state-newer}
use libfranka.Robot.Newest.{receive_robot_state-newest}
use libfranka.Robot.Guards.{IsAllowed, send_robot_command-guarded}
use libfranka.Robot.Finish.{IsIdle, finish_motion-IsIdle, cancel_motion-IsIdle}
use libfranka.Robot.Start.{HasBegun, start_motion-ok}
use libfranka.ControlTypes.{RealtimeConfig}
use libfranka.Robot.Construct.{handle_connect, connect_robot, fresh, construct, construct-ok}
use libfranka.Robot.Errors.{
  verdict, verdict_of_byte, verdict-handle_command_response, throw_on_motion_error-ok,
}
use libfranka.Tests.Script.{
  Script, count_double, count_matrices, scripted, moving, resting, success, motion_started, plays,
  at_rest, in_motion, pending, pending-IsQueue,
}

-- Two datagrams wait, the newer one first; a third comes later.
abbrev two_waiting : Impl Script ℕ
two_waiting = at_rest (plays (resting 4 ∷ resting 3 ∷ resting 5 ∷ []) 2 [])

receive_robot_state-newer_example :
    (1 < 4)
    × ((receive_robot_state 5 two_waiting).1
        ≡ update_state
            (resting 4)
            (record two_waiting { network = (receive_robot_state 5 two_waiting).1.network }))
unfolding receive_robot_state drain await none_accepted update_state
receive_robot_state-newer_example =
    receive_robot_state-newer 5 two_waiting (receive_robot_state 5 two_waiting).1 (resting 4) refl

receive_robot_state-newest_example :
    (w : WireState ℕ) × (c : Script) × (receive_robot_state 5 two_waiting
      ≡ (ok w, update_state w (record two_waiting { network = c })))
    × Memᴰ w (pending two_waiting.network)
    × All (λ x. x.message_id ≤ w.message_id) (pending two_waiting.network)
    × (pending c ≡ [])
receive_robot_state-newest_example =
    receive_robot_state-newest pending pending-IsQueue 5 two_waiting (resting 4) (omega arith)
      (Memᴰ.head refl) (omega arith)

-- A motion without torques.
abbrev running_motion : Impl Script ℕ
running_motion = in_motion (plays [] 0 [])

send_robot_command-guarded_example :
    (IsAllowed (some (empty_motion {F = ℕ})) none running_motion
      → send_robot_command (some empty_motion) none running_motion
        ≡ (on_network (
                scripted.udp_send
                  (filled_command running_motion.message_id (some empty_motion) none))
              >> pure (filled_command running_motion.message_id (some empty_motion) none))
            running_motion)
    × (¬ (IsAllowed (some (empty_motion {F = ℕ})) none running_motion)
        → (what : String) × (send_robot_command (some empty_motion) none running_motion
            ≡ (raise (plain what), running_motion)))
send_robot_command-guarded_example =
    send_robot_command-guarded (some empty_motion) none running_motion (inl refl)

abbrev ending : Impl Script ℕ
ending = in_motion (plays (moving 4 ∷ resting 6 ∷ []) 0 (success ∷ []))

finish_motion-IsIdle_example : IsIdle (finish_motion 5 5 7 (some empty_motion) none ending).1
unfolding finish_motion finish_running finish_loop finish_status conclude conclude_with handle_move
    update send_robot_command send_unless receive_robot_state drain await none_accepted update_state
    refusal
finish_motion-IsIdle_example =
    finish_motion-IsIdle 5 5 7 (some empty_motion) none ending
      (finish_motion 5 5 7 (some empty_motion) none ending).1 refl

-- The robot acknowledges the stop, and then the motion.
abbrev cancelling : Impl Script ℕ
cancelling = in_motion (plays (moving 4 ∷ resting 6 ∷ []) 0 (success ∷ success ∷ []))

cancel_motion-IsIdle_example : IsIdle (cancel_motion 5 5 7 cancelling).1
unfolding cancel_motion cancel_loop execute_command handle handle_command_response handle_stop_move
    receive_robot_state drain await none_accepted update_state
cancel_motion-IsIdle_example =
    cancel_motion-IsIdle 5 5 7 cancelling (cancel_motion 5 5 7 cancelling).1 refl

abbrev small : Deviation ℕ
small = record { translation = 1; rotation = 1; elbow = 1 }

abbrev starting : Impl Script ℕ
starting = at_rest (plays (resting 3 ∷ moving 4 ∷ []) 0 (motion_started ∷ []))

abbrev begun : Impl Script ℕ
begun =
    (start_motion 5 5 MoveController.joint_impedance MoveGenerator.joint_position small small
      starting).1

start_motion-ok_example :
    (is_running starting ≡ false)
    × (begun.current_move_motion_generator_mode ≡ running_generator MoveGenerator.joint_position)
    × (begun.current_move_controller_mode ≡ running_controller MoveController.joint_impedance)
    × (begun.logger.ring_size ≡ 0)
    × ((u : Impl Script ℕ) × HasBegun
          (move MoveController.joint_impedance MoveGenerator.joint_position small small)
          7
          u
        × (begun ≡ (flush_logger u).1))
unfolding start_motion start_loop poll_response flush_logger execute_command handle
    handle_command_response handle_move update send_robot_command send_unless receive_robot_state
    drain await none_accepted update_state
start_motion-ok_example =
    start_motion-ok 5 5 MoveController.joint_impedance MoveGenerator.joint_position small small
      starting begun refl

-- "Motion started" in response to a `Move` while no motion generator runs.
verdict-handle_command_response_example :
    verdict (
      handle_command_response {F = ℕ}
        (move MoveController.joint_impedance MoveGenerator.joint_position small small)
        false
        RobotMode.idle
        motion_started)
    ≡ verdict_of_byte 12 true false 1
verdict-handle_command_response_example =
    verdict-handle_command_response
      (move MoveController.joint_impedance MoveGenerator.joint_position small small) false
      RobotMode.idle motion_started

throw_on_motion_error-ok_example :
    (throw_on_motion_error
        (record (empty_robot_state {F = ℕ}) { robot_mode = RobotState.RobotMode.move })
        7
        running_motion
      ≡ (ok tt, running_motion))
    ↔ ((RobotState.RobotMode.move ≡ RobotState.RobotMode.move)
        × (running_motion.motion_generator_mode ≡ running_motion.current_move_motion_generator_mode)
        × (running_motion.controller_mode ≡ running_motion.current_move_controller_mode)
        × (running_motion ≡ running_motion))
throw_on_motion_error-ok_example =
    throw_on_motion_error-ok
      (record (empty_robot_state {F = ℕ}) { robot_mode = RobotState.RobotMode.move }) 7
      running_motion running_motion

-- The robot answers with its version, and the first state follows.
abbrev listening : Script
listening = plays (resting 3 ∷ []) 0 (record { status = 0; version = 4 } ∷ [])

construct-ok_example :
    (c x v u : Script) × (id : ℕ) × (r : Response) × (first : WireState ℕ) × (some listening
      ≡ some c)
    × (scripted.tcp_send_connect k_version 2000 c ≡ (ok id, x))
    × (scripted.tcp_blocking_receive_response Command.connect id x ≡ (ok r, v))
    × (r.status ≡ 0)
    × (scripted.udp_blocking_receive v ≡ (ok first, u))
    × (record (at_rest listening) {
      network = record listening { datagrams = []; responses = []; arrived = 0 };
      message_id = 3;
      ri_version = 4;
    }
        ≡ update_state first (fresh ControllerMode.other 2 RealtimeConfig.enforce r.version u))
unfolding construct connect_robot handle_connect update_state
construct-ok_example =
    construct-ok ControllerMode.other 2 RealtimeConfig.enforce (some listening) refl
