-- ===== src/Robot/Motions.antt =====
-- `startMotion`, `finishMotion` and `cancelMotion` of src/robot_impl.cpp. The loops that wait for the
-- robot take fuel, one unit for each round; each round may use `fuel` datagrams.
use libfranka.Prelude.{
  ℕ, zero, suc, Bool, true, not, ◌||◌, Option, none, some, [], Double, Result, ok, raise, Method,
  pure, throw, throw_if, diverge, ◌>>=◌, ◌>>◌, get, modify, if◌then◌else◌,
}
use libfranka.Interface.{
  Command, command_of, MotionGeneratorMode, ControllerMode, same_motion, same_controller,
  MotionGeneratorCommand, ControllerCommand, empty_motion, Deviation, MoveController, MoveGenerator,
  Request, Response, stop_move, move,
}
use libfranka.Interface.Status
use libfranka.Exceptions.{Exception, control, command}
use libfranka.ControlTypes.{Torques}
use libfranka.LoadCalculations.{Eigen}
use libfranka.RobotState.{RobotState, empty_robot_state}
use libfranka.Robot.State.{
  Network, Impl, on_network, checked, motion_generator_running, controller_running,
}
use libfranka.Robot.Responses.{handle_command_response}
use libfranka.Robot.Channel.{plain, update, receive_robot_state}
use libfranka.Robot.Commands.{
  create_control_exception, create_controller_command, execute_command, conclude, flush_logger,
}

-- The two switches of `startMotion`. Their `default` branches are unreachable from an enumerator.
abbrev pub running_generator : MoveGenerator → MotionGeneratorMode
running_generator MoveGenerator.joint_position = MotionGeneratorMode.joint_position
running_generator MoveGenerator.joint_velocity = MotionGeneratorMode.joint_velocity
running_generator MoveGenerator.cartesian_position = MotionGeneratorMode.cartesian_position
running_generator MoveGenerator.cartesian_velocity = MotionGeneratorMode.cartesian_velocity

abbrev pub running_controller : MoveController → ControllerMode
running_controller MoveController.joint_impedance = ControllerMode.joint_impedance
running_controller MoveController.cartesian_impedance = ControllerMode.cartesian_impedance
running_controller MoveController.external_controller = ControllerMode.external_controller

module _ {F : Type 0} where
  -- `catch (const CommandException& e) { throw ControlException(e.what()); }`
  abbrev pub as_control : {A : Type 0} → Result (Exception F) A → Result (Exception F) A
  as_control (raise (command what)) = raise (control what none [])
  as_control r = r

module _ {N F : Type 0} where
  -- The motion that was started is what the robot runs.
  abbrev pub started : Impl N F → Bool
  started s = not (
      not (same_motion s.motion_generator_mode s.current_move_motion_generator_mode)
      || not (same_controller s.controller_mode s.current_move_controller_mode))

  abbrev pub is_running : Impl N F → Bool
  is_running s = motion_generator_running s || controller_running s

  abbrev pub set_current_move : MotionGeneratorMode → ControllerMode → Impl N F → Impl N F
  set_current_move g c s = record s {
    current_move_motion_generator_mode = g;
    current_move_controller_mode = c;
  }

  module _ ⦃d : Double F⦄ ⦃n : Network N F⦄ where
    -- `tcpReceiveResponse<T>(id, handleCommandResponse<T>)` under `catch (const CommandException&)`.
    unfoldable pub poll_response : Request F → ℕ → Method (Exception F) (Impl N F) Bool
    poll_response request id s =
        let (r, s') =
          on_network
            (n.tcp_receive_response (command_of request) id
              (handle_command_response request (motion_generator_running s) s.robot_mode))
            s in
        (as_control r, s')

    -- What `finishMotion` does with the response to `Move`.
    unfoldable pub finish_status :
        RobotState F → Response → Status.Move → Method (Exception F) (Impl N F) (Unit {0})
    finish_status last r Status.Move.reflex_aborted = do
      log ← flush_logger
      throw (
          create_control_exception "Motion finished commanded, but the robot is still moving!"
            Status.Move.reflex_aborted last.last_motion_errors log)
    finish_status last r _ =
        conclude last.last_motion_errors r
          (modify (set_current_move MotionGeneratorMode.idle ControllerMode.other))

    module _ ⦃e : Eigen F⦄ where
      -- The loop of `startMotion`.
      unfoldable pub start_loop :
          (fuel : ℕ) → ℕ → Request F → ℕ → Method (Exception F) (Impl N F) (Unit {0})
      start_loop fuel zero request id = diverge
      start_loop fuel (suc rounds) request id = do
        s ← get
        if started s
            then pure tt
            else (poll_response request id >>= λ received.
                if received
                then pure tt
                else (update fuel none none >>= λ _. start_loop fuel rounds request id))

      unfoldable pub start_motion :
          (fuel rounds : ℕ)
          → MoveController
          → MoveGenerator
          → Deviation F
          → Deviation F
          → Method (Exception F) (Impl N F) ℕ
      start_motion fuel rounds controller generator path goal = do
        s ← get
        throw_if (is_running s) (plain "libfranka robot: Attempted to start multiple motions!")
        modify (set_current_move (running_generator generator) (running_controller controller))
        move_command_id ← execute_command (move controller generator path goal)
        start_loop fuel rounds (move controller generator path goal) move_command_id
        flushed ← flush_logger
        pure move_command_id

      -- The loop of `finishMotion`; it returns the state that the last call of `update` returned.
      unfoldable pub finish_loop :
          (fuel : ℕ)
          → ℕ
          → MotionGeneratorCommand F
          → Option (ControllerCommand F)
          → RobotState F
          → Method (Exception F) (Impl N F) (RobotState F)
      finish_loop fuel zero m c last = diverge
      finish_loop fuel (suc rounds) m c last = do
        s ← get
        if is_running s
            then (update fuel (some m) c >>= λ next. finish_loop fuel rounds m c next)
            else pure last

      -- `finishMotion` past its early return.
      unfoldable pub finish_running :
          (fuel rounds : ℕ)
          → ℕ
          → Option (MotionGeneratorCommand F)
          → Option (ControllerCommand F)
          → Method (Exception F) (Impl N F) (Unit {0})
      finish_running fuel rounds motion_id none c =
          throw (plain "libfranka robot: No motion generator command given!")
      finish_running fuel rounds motion_id (some m) c = do
        last ←
            finish_loop fuel rounds (record m { motion_generation_finished = true }) c
              empty_robot_state
        response ← on_network (n.tcp_blocking_receive_response Command.move motion_id)
        finish_status last response (Status.move response.status)

      unfoldable pub finish_motion :
          (fuel rounds : ℕ)
          → ℕ
          → Option (MotionGeneratorCommand F)
          → Option (ControllerCommand F)
          → Method (Exception F) (Impl N F) (Unit {0})
      unfolding finish_running
      finish_motion fuel rounds motion_id motion c = do
        s ← get
        if not (is_running s)
            then modify (set_current_move MotionGeneratorMode.idle ControllerMode.other)
            else finish_running fuel rounds motion_id motion c

      -- `finishMotion(uint32_t, const Torques&)`
      unfoldable pub finish_motion_torques :
          (fuel rounds : ℕ) → ℕ → Torques F → Method (Exception F) (Impl N F) (Unit {0})
      finish_motion_torques fuel rounds motion_id t = do
        controller_command ← checked (create_controller_command t)
        finish_motion fuel rounds motion_id (some empty_motion) (some controller_command)

    -- The `do`-`while` loop of `cancelMotion`.
    unfoldable pub cancel_loop : (fuel : ℕ) → ℕ → Method (Exception F) (Impl N F) (Unit {0})
    cancel_loop fuel zero = diverge
    cancel_loop fuel (suc rounds) = do
      received ← receive_robot_state fuel
      s ← get
      if is_running s then cancel_loop fuel rounds else pure tt

    unfoldable pub cancel_motion :
        (fuel rounds : ℕ) → ℕ → Method (Exception F) (Impl N F) (Unit {0})
    cancel_motion fuel rounds motion_id = do
      stopped ← (λ s. (as_control (execute_command stop_move s).0, (execute_command stop_move s).1))
      cancel_loop fuel rounds
      ignored ← on_network (n.tcp_receive_response Command.move motion_id (λ _. ok tt))
      modify (set_current_move MotionGeneratorMode.idle ControllerMode.other)
