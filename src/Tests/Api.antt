-- ===== src/Tests/Api.antt =====
-- Runs of the class `Robot`.
use libfranka.Prelude.{
  ℕ, ◌≡◌, ◌≢◌, refl, true, false, some, [], ◌∷◌, length, filled, Result, ok, raise, running, Method,
}
use libfranka.Interface.{MoveController, MoveGenerator, RobotMode, MotionGeneratorMode}
use libfranka.Interface
use libfranka.ControlTypes.{JointPositions, ControllerMode}
use libfranka.ControlTools.{check_finite}
use libfranka.Exceptions.{Exception}
use libfranka.Duration.{Duration}
use libfranka.RobotState.{RobotState, convert_robot_state}
use libfranka.Robot.{
  start_motion, start_loop, poll_response, flush_logger, execute_command, handle,
  handle_command_response, handle_move, throw_on_motion_error, finish_motion, finish_running,
  finish_loop, finish_status, conclude, conclude_with, refusal, update, send_robot_command,
  send_unless, receive_robot_state, drain, await, none_accepted, update_state,
}
use libfranka.Robot.Finish.{IsIdle}
use libfranka.ActiveControl.{ActiveControl, new}
use libfranka.ControlLoop.{
  Session, System, with_mode, check_realtime, run, run_body, cycles_of, motion_cycles, spin_motion,
  next_state, convert_motion,
}
use libfranka.RobotApi.{
  Robot, Call, control_mode, read_one, Start, motion, World, init, Reach, begins, later, starts,
  start, start_control, start_block, try_to_lock, not_owned, call, block, mode_block, with_lock,
}
use libfranka.RobotApi.Counts.{IsExclusive, owners}
use libfranka.RobotApi.Exclusive.{Reach-IsExclusive, active-alone}
use libfranka.RobotApi.Leaves.{call-IsIdle, call-mutex}
use libfranka.Tests.Script.{
  Script, count_double, count_matrices, scripted, moving, resting, success, motion_started, plays,
  at_rest,
}
use libfranka.Tests.Stream.{Stream, streaming, flowing}
use libfranka.Tests.Loop.{count_geometry}

abbrev realtime_system : System
realtime_system = record {
  has_highest_priority = true;
  error_message = "";
  has_realtime_kernel = true;
}

-- A robot that will start a motion, go on with it for a state, and stop.
abbrev obedient : Script
obedient =
    plays (resting 3 ∷ moving 4 ∷ moving 5 ∷ resting 6 ∷ []) 0 (motion_started ∷ success ∷ [])

abbrev untouched : World Script ℕ ℕ
untouched = init 5 5 5 realtime_system (at_rest obedient) 0

abbrev joint_motion : Start
joint_motion = motion MoveGenerator.joint_position MoveController.joint_impedance

abbrev control : ActiveControl Script ℕ
control = new (start 5 5 joint_motion untouched.robot).1.robot.impl 7 MoveController.joint_impedance

abbrev under_way : World Script ℕ ℕ
under_way = record untouched {
  robot = (start 5 5 joint_motion untouched.robot).1;
  actives = control ∷ [];
}

under_way-Reach : Reach 5 5 5 realtime_system (at_rest obedient) 0 under_way
unfolding start start_control start_block try_to_lock start_motion start_loop poll_response
    flush_logger execute_command handle handle_command_response handle_move update
    send_robot_command send_unless receive_robot_state drain await none_accepted update_state
under_way-Reach = later begins (starts joint_motion refl)

Reach-IsExclusive_example : IsExclusive under_way
Reach-IsExclusive_example =
    Reach-IsExclusive 5 5 5 realtime_system (at_rest obedient) 0 under_way under_way-Reach

active-alone_example :
    ((c : Call ℕ ℕ)
      → call 5 5 5 realtime_system c under_way.robot ≡ (raise not_owned, under_way.robot))
    × ((x : Start) → start 5 5 x under_way.robot ≡ (raise not_owned, under_way.robot))
    × (length under_way.blocks ≡ 0)
    × (owners {N = Script} {F = ℕ} [] ≡ 0)
active-alone_example =
    active-alone 5 5 5 realtime_system (at_rest obedient) 0 under_way control [] [] under_way-Reach
      refl refl

abbrev stand : RobotState ℕ → Duration → Method (Exception ℕ) ℕ (JointPositions ℕ)
stand state step u = (ok (record { q = filled 1 7; motion_finished = true }), u)

abbrev stand_still : Call ℕ ℕ
stand_still =
    control_mode MoveGenerator.joint_position (some stand) ControllerMode.joint_impedance false 1000

-- A robot that answers every request with success, moves for a state and stops.
abbrev at_hand : Session (Robot Stream ℕ) ℕ
at_hand = record {
  robot = record {
    impl = record flowing {
      network = moving 4 ∷ resting 8 ∷ [];
      robot_mode = RobotMode.idle;
      motion_generator_mode = MotionGeneratorMode.idle;
      controller_mode = Interface.ControllerMode.other;
    };
    control_mutex = false;
  };
  user = 0;
}

call-IsIdle_example :
    (at_hand.robot.control_mutex ≡ false)
    × ((call 5 5 5 realtime_system stand_still at_hand).1.robot.control_mutex ≡ false)
    × IsIdle (call 5 5 5 realtime_system stand_still at_hand).1.robot.impl
unfolding call with_lock try_to_lock block mode_block with_mode check_realtime start_motion
    start_loop poll_response flush_logger execute_command handle handle_command_response handle_move
    update send_robot_command send_unless receive_robot_state drain await none_accepted update_state
    run run_body cycles_of motion_cycles spin_motion next_state convert_motion check_finite
    throw_on_motion_error finish_motion finish_running finish_loop finish_status conclude
    conclude_with refusal convert_robot_state
call-IsIdle_example =
    call-IsIdle 5 5 5 realtime_system stand_still at_hand
      (call 5 5 5 realtime_system stand_still at_hand).1 refl refl

-- The robot while another thread holds the lock.
abbrev busy : Session (Robot Script ℕ) ℕ
busy = record untouched.robot { robot = record untouched.robot.robot { control_mutex = true } }

call-mutex_example : (call 5 5 5 realtime_system read_one busy).1.robot.control_mutex ≡ true
unfolding call with_lock try_to_lock
call-mutex_example = call-mutex 5 5 5 realtime_system read_one busy refused
  where
    refused : {A : Type 0} → ◌≢◌ {A = Result (Exception ℕ) A} (raise not_owned) running
    refused h = absurd (cc)
