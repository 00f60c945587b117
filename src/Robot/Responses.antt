-- ===== src/Robot/Responses.antt =====
-- `handleCommandResponse` of src/robot_impl.h: what the status of a response means, for each command.
use libfranka.Prelude.{Bool, String, ◌<>◌, Result, ok, raise, if◌then◌else◌}
use libfranka.Interface.{
  RobotMode, same_robot, Request, Response, name, move, stop_move, automatic_error_recovery,
}
use libfranka.Interface.Status
use libfranka.Exceptions.{Exception, command, protocol}

-- The text of `operator<<(std::ostream&, RobotMode)` of src/robot_state.cpp.
abbrev pub mode_name : RobotMode → String
mode_name RobotMode.user_stopped = "\"User stopped\""
mode_name RobotMode.idle = "\"Idle\""
mode_name RobotMode.move = "\"Move\""
mode_name RobotMode.guiding = "\"Guiding\""
mode_name RobotMode.reflex = "\"Reflex\""
mode_name RobotMode.automatic_error_recovery = "\"Automatic error recovery\""
mode_name RobotMode.other = "\"Other\""

abbrev pub command_not_possible_msg : RobotMode → String
command_not_possible_msg shown =
    " command rejected: command not possible in the current mode ("
    <> mode_name shown
    <> ")!"
    <> (if same_robot shown RobotMode.other then " Did you open the brakes?" else "")

abbrev pub safety_msg : String
safety_msg =
    " command rejected due to activated safety function! Please disable all safety functions."

module _ {F : Type 0} where
  -- `throw CommandException("libfranka: "s + kName + text)`
  abbrev pub refuse : String → String → Result (Exception F) (Unit {0})
  refuse of text = raise (command ("libfranka: " <> of <> text))

  abbrev pub unexpected : String → Result (Exception F) (Unit {0})
  unexpected of =
      raise (protocol ("libfranka: Unexpected response while handling " <> of <> " command!"))

  -- The template for the getters and setters.
  unfoldable pub handle_getter_setter :
      String → RobotMode → Status.GetterSetter → Result (Exception F) (Unit {0})
  handle_getter_setter of shown Status.GetterSetter.success = ok tt
  handle_getter_setter of shown Status.GetterSetter.command_not_possible_rejected =
      refuse of (command_not_possible_msg shown)
  handle_getter_setter of shown Status.GetterSetter.invalid_argument_rejected =
      refuse of " command rejected: invalid argument!"
  handle_getter_setter of shown Status.GetterSetter.rejected_due_to_safety =
      refuse of (safety_msg <> " ")
  handle_getter_setter of shown (Status.GetterSetter.unlisted b) = unexpected of

  -- The specialisation for `Move`.
  unfoldable pub handle_move : Bool → RobotMode → Status.Move → Result (Exception F) (Unit {0})
  handle_move generating shown Status.Move.success = ok tt
  handle_move generating shown Status.Move.motion_started =
      if generating
      then raise (protocol "libfranka: Move received unexpected motion started message.")
      else ok tt
  handle_move generating shown Status.Move.emergency_aborted =
      refuse "Move" " command aborted: User Stop pressed!"
  handle_move generating shown Status.Move.reflex_aborted =
      refuse "Move" " command aborted: motion aborted by reflex!"
  handle_move generating shown Status.Move.input_error_aborted =
      refuse "Move" " command aborted: invalid input provided!"
  handle_move generating shown Status.Move.command_not_possible_rejected =
      refuse "Move" (command_not_possible_msg shown)
  handle_move generating shown Status.Move.start_at_singular_pose_rejected =
      refuse "Move" " command rejected: cannot start at singular pose!"
  handle_move generating shown Status.Move.invalid_argument_rejected =
      refuse "Move" " command rejected: maximum path deviation out of range!"
  handle_move generating shown Status.Move.preempted = refuse "Move" " command preempted!"
  handle_move generating shown Status.Move.aborted = refuse "Move" " command aborted!"
  handle_move generating shown Status.Move.preempted_due_to_safety =
      refuse "Move"
        " command preempted due to activated safety function! Please disable all safety functions."
  handle_move generating shown Status.Move.rejected_due_to_safety = refuse "Move" safety_msg
  handle_move generating shown (Status.Move.unlisted b) = unexpected "Move"

  -- The specialisation for `StopMove`. It names `Move` where a safety function is active.
  unfoldable pub handle_stop_move : RobotMode → Status.StopMove → Result (Exception F) (Unit {0})
  handle_stop_move shown Status.StopMove.success = ok tt
  handle_stop_move shown Status.StopMove.command_not_possible_rejected =
      refuse "Stop Move" (command_not_possible_msg shown)
  handle_stop_move shown Status.StopMove.aborted =
      refuse "Stop Move" (command_not_possible_msg shown)
  handle_stop_move shown Status.StopMove.emergency_aborted =
      refuse "Stop Move" " command aborted: User Stop pressed!"
  handle_stop_move shown Status.StopMove.reflex_aborted =
      refuse "Stop Move" " command aborted: motion aborted by reflex!"
  handle_stop_move shown Status.StopMove.rejected_due_to_safety = refuse "Move" safety_msg
  handle_stop_move shown (Status.StopMove.unlisted b) = unexpected "Stop Move"

  -- The specialisation for `AutomaticErrorRecovery`. It too names `Move`.
  unfoldable pub handle_recovery : RobotMode → Status.Recovery → Result (Exception F) (Unit {0})
  handle_recovery shown Status.Recovery.success = ok tt
  handle_recovery shown Status.Recovery.emergency_aborted =
      refuse "Automatic Error Recovery" " command aborted: User Stop pressed!"
  handle_recovery shown Status.Recovery.reflex_aborted =
      refuse "Automatic Error Recovery" " command aborted: motion aborted by reflex!"
  handle_recovery shown Status.Recovery.command_not_possible_rejected =
      refuse "Automatic Error Recovery" (command_not_possible_msg shown)
  handle_recovery shown Status.Recovery.manual_error_recovery_required_rejected =
      refuse "Automatic Error Recovery" " command rejected: manual error recovery required!"
  handle_recovery shown Status.Recovery.aborted =
      refuse "Automatic Error Recovery" " command aborted!"
  handle_recovery shown Status.Recovery.rejected_due_to_safety = refuse "Move" safety_msg
  handle_recovery shown (Status.Recovery.unlisted b) = unexpected "Automatic Error Recovery"

  -- `handleCommandResponse<T>`, by the command `T` that the response answers.
  unfoldable pub handle_command_response :
      Request F → Bool → RobotMode → Response → Result (Exception F) (Unit {0})
  handle_command_response (move _ _ _ _) generating shown r =
      handle_move generating shown (Status.move r.status)
  handle_command_response stop_move generating shown r =
      handle_stop_move shown (Status.stop_move r.status)
  handle_command_response automatic_error_recovery generating shown r =
      handle_recovery shown (Status.recovery r.status)
  handle_command_response request generating shown r =
      handle_getter_setter (name request) shown (Status.getter_setter r.status)
