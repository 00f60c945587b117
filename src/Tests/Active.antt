-- ===== src/Tests/Active.antt =====
-- Runs of an active control.
use libfranka.Prelude.{ℕ, ◌≡◌, refl, true, false, ◌||◌, none, some, [], ◌∷◌, filled}
use libfranka.Interface.{MoveController, ControllerMode}
use libfranka.ControlTypes.{Torques, Motion, joint_positions, motion_finished}
use libfranka.ControlTools.{check_finite}
use libfranka.RobotState
use libfranka.RobotState.{convert_robot_state}
use libfranka.Duration.{of_msec, sub}
use libfranka.Robot.{
  is_some, finish_motion, finish_running, finish_loop, finish_status, conclude, conclude_with,
  handle_move, update, send_robot_command, send_unless, receive_robot_state, drain, await,
  none_accepted, update_state, refusal, create_motion_command, create_controller_command,
  cancel_motion, cancel_loop, execute_command, handle, handle_command_response, handle_stop_move,
  write_torques, discard, read_once, throw_on_motion_error,
}
use libfranka.Robot.Finish.{IsIdle}
use libfranka.ActiveControl.{
  ActiveControl, new, is_external, is_torque_control_finished, time_since, write_once,
  write_torques_once, destroy, active_read_once, finish_with,
}
use libfranka.ActiveControl.Writes.{
  HasEnded, GoesOn, write_once-ok, write_torques_once-ok, destroy-ok,
}
use libfranka.ActiveControl.Reads.{IsRead, active_read_once-ok}
use libfranka.Tests.Script.{
  Script, count_double, count_matrices, scripted, moving, resting, success, plays, in_motion,
}

abbrev holding : ActiveControl Script ℕ
holding =
    new (in_motion (plays (moving 4 ∷ resting 6 ∷ []) 0 (success ∷ []))) 7
      MoveController.joint_impedance

abbrev last_position : Motion ℕ
last_position = joint_positions (record { q = filled 1 7; motion_finished = true })

abbrev over : ActiveControl Script ℕ
over = (write_once 5 5 last_position none holding).1

write_once-ok_example :
    (holding.control_finished ≡ false)
    × (is_some {A = Torques ℕ} none ≡ is_external holding.controller_type)
    × ((motion_finished last_position || is_torque_control_finished {F = ℕ} none) ≡ true
        → HasEnded over)
    × ((motion_finished last_position || is_torque_control_finished {F = ℕ} none) ≡ false
        → GoesOn holding over)
unfolding write_once finish_with create_motion_command finish_motion finish_running finish_loop
    finish_status conclude conclude_with handle_move update send_robot_command send_unless
    receive_robot_state drain await none_accepted update_state refusal check_finite
write_once-ok_example = write_once-ok 5 5 last_position none holding over refl

-- Torques while the external controller runs.
abbrev torque_control : ActiveControl Script ℕ
torque_control =
    new
      (record (in_motion (plays [] 0 [])) {
        controller_mode = ControllerMode.external_controller;
        current_move_controller_mode = ControllerMode.external_controller;
      })
      7 MoveController.external_controller

abbrev some_torques : Torques ℕ
some_torques = record { tau_j = filled 1 7; motion_finished = false }

abbrev driven : ActiveControl Script ℕ
driven = (write_torques_once 5 5 some_torques torque_control).1

write_torques_once-ok_example :
    (torque_control.control_finished ≡ false)
    × (some_torques.motion_finished ≡ true → HasEnded driven)
    × (some_torques.motion_finished ≡ false → GoesOn torque_control driven)
unfolding write_torques_once write_torques create_controller_command send_robot_command send_unless
    refusal check_finite
write_torques_once-ok_example = write_torques_once-ok 5 5 some_torques torque_control driven refl

abbrev abandoned : ActiveControl Script ℕ
abandoned =
    new (in_motion (plays (moving 4 ∷ resting 6 ∷ []) 0 (success ∷ success ∷ []))) 7
      MoveController.joint_impedance

destroy-ok_example :
    ((destroy 5 5 abandoned).1.owns_lock ≡ false)
    × (abandoned.control_finished ≡ false → IsIdle (destroy 5 5 abandoned).1.robot_impl)
    × (abandoned.control_finished ≡ true
        → (destroy 5 5 abandoned).1.robot_impl ≡ abandoned.robot_impl)
unfolding destroy cancel_motion cancel_loop execute_command handle handle_command_response
    handle_stop_move receive_robot_state drain await none_accepted update_state
destroy-ok_example = destroy-ok 5 5 abandoned (destroy 5 5 abandoned).1 refl

abbrev reading : ActiveControl Script ℕ
reading = record holding { last_read_access = some (of_msec 3) }

abbrev seen : RobotState.RobotState ℕ
seen = convert_robot_state (moving 4)

active_read_once-ok_example :
    IsRead reading.robot_impl seen (active_read_once 5 reading).1.robot_impl
    × (seen.robot_mode ≡ RobotState.move)
    × ((active_read_once 5 reading).1.robot_impl.motion_generator_mode
        ≡ (active_read_once 5 reading).1.robot_impl.current_move_motion_generator_mode)
    × ((active_read_once 5 reading).1.robot_impl.controller_mode
        ≡ (active_read_once 5 reading).1.robot_impl.current_move_controller_mode)
    × (of_msec 1 ≡ time_since (some (of_msec 3)) seen.time)
    × ((active_read_once 5 reading).1.last_read_access ≡ some seen.time)
unfolding active_read_once read_once discard throw_on_motion_error receive_robot_state drain await
    none_accepted update_state convert_robot_state sub
active_read_once-ok_example = active_read_once-ok 5 reading (active_read_once 5 reading).1 refl
