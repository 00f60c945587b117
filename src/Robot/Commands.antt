-- ===== src/Robot/Commands.antt =====
-- Commands of src/robot_impl.cpp and src/robot_impl.h: requests over TCP, the commands that are built
-- from the input of a controller, `writeOnce`, and `throwOnMotionError`.
use libfranka.Prelude.{
  bind, ℕ, String, ◌+◌, ◌*◌, ◌-◌, ◌%◌, ◌^◌, Bool, true, false, not, ◌||◌, Option, none, some, List,
  [], ◌∷◌, Array, filled, Double, nought, unit, Result, ok, raise, running, Method, pure, throw,
  diverge, ◌>>=◌, ◌>>◌, get, if◌then◌else◌,
}
use libfranka.Interface.{
  Command, command_of, same_motion, same_controller, MotionGeneratorCommand, ControllerCommand,
  empty_motion, Request, Response,
}
use libfranka.Interface.Status
use libfranka.Exceptions.{Exception, Record, control, command, protocol}
use libfranka.ControlTypes.{
  Torques, Motion, joint_positions, joint_velocities, cartesian_pose, cartesian_velocities,
  has_elbow,
}
use libfranka.ControlTools.{check_finite, check_matrix, check_elbow}
use libfranka.RobotState.{RobotState, Errors, RobotMode}
use libfranka.Logger.{flush}
use libfranka.Robot.State.{Network, Impl, on_network, checked, motion_generator_running}
use libfranka.Robot.Responses.{handle_command_response, handle_move}
use libfranka.Robot.Channel.{send_robot_command}

module _ {N F : Type 0} where
  -- The state of the robot no longer agrees with the motion that was started.
  abbrev pub motion_disagrees : RobotMode → Impl N F → Bool
  motion_disagrees RobotMode.move s =
      not (same_motion s.motion_generator_mode s.current_move_motion_generator_mode)
      || not (same_controller s.controller_mode s.current_move_controller_mode)
  motion_disagrees _ s = true

module _ {F : Type 0} ⦃d : Double F⦄ where
  -- Packets lost between the last two states of a log, in `uint64_t`.
  unfoldable pub lost_packets : (last before : Record F) → ℕ
  lost_packets last before =
      (last.state.time.count + 2 * 2 ^ 64 - before.state.time.count - 1) % 2 ^ 64

  -- The success rate and the lost packets, if the log has two records.
  unfoldable pub last_samples : List (Record F) → Option (F × ℕ)
  unfolding lost_packets
  last_samples [] = none
  last_samples (before ∷ []) = none
  last_samples (before ∷ last ∷ []) =
      let lost = lost_packets last before in
      some (
        d.mul before.state.control_command_success_rate
            (d.sub unit (d.div (d.literal lost 0) (d.literal 100 0))),
        lost,
      )
  last_samples (_ ∷ b ∷ c ∷ rest) = last_samples (b ∷ c ∷ rest)

  unfoldable pub create_control_exception :
      String → Status.Move → Errors → List (Record F) → Exception F
  create_control_exception message Status.Move.reflex_aborted reflex_errors log =
      control message (some (record { errors = reflex_errors; samples = last_samples log })) log
  create_control_exception message _ reflex_errors log = control message none log

  -- The elbow of a Cartesian command.
  unfoldable pub with_elbow :
      Array F 2 → MotionGeneratorCommand F → Result (Exception F) (MotionGeneratorCommand F)
  with_elbow elbow m =
      if has_elbow elbow
      then (bind (check_elbow elbow) λ _. ok (record m { valid_elbow = true; elbow_c = elbow }))
      else ok (record m { valid_elbow = false; elbow_c = filled nought 2 })

  -- The four overloads of `createMotionCommand`.
  unfoldable pub create_motion_command : Motion F → Result (Exception F) (MotionGeneratorCommand F)
  unfolding with_elbow
  create_motion_command (joint_positions m) =
      bind (check_finite m.q) λ _. ok (record empty_motion { q_c = m.q })
  create_motion_command (joint_velocities m) =
      bind (check_finite m.dq) λ _. ok (record empty_motion { dq_c = m.dq })
  create_motion_command (cartesian_pose m) =
      bind (check_matrix m.o_t_ee)
        λ _. with_elbow m.elbow (record empty_motion { o_t_ee_c = m.o_t_ee })
  create_motion_command (cartesian_velocities m) =
      bind (check_finite m.o_dp_ee)
        λ _. with_elbow m.elbow (record empty_motion { o_dp_ee_c = m.o_dp_ee })

  unfoldable pub create_controller_command : Torques F → Result (Exception F) (ControllerCommand F)
  create_controller_command t = bind (check_finite t.tau_j) λ _. ok (record { tau_j_d = t.tau_j })

  module _ {N : Type 0} ⦃n : Network N F⦄ where
    -- `handleCommandResponse<T>(response)` as a method.
    unfoldable pub handle : Request F → Response → Method (Exception F) (Impl N F) (Unit {0})
    handle request r s =
        (handle_command_response request (motion_generator_running s) s.robot_mode r, s)

    unfoldable pub execute_command : Request F → Method (Exception F) (Impl N F) ℕ
    unfolding handle
    execute_command request = do
      command_id ← on_network (n.tcp_send_request request)
      response ← on_network (n.tcp_blocking_receive_response (command_of request) command_id)
      handle request response
      pure command_id

    -- `writeOnce(const Torques&)`
    unfoldable pub write_torques : Torques F → Method (Exception F) (Impl N F) (Unit {0})
    write_torques t = do
      control_command ← checked (create_controller_command t)
      on_network n.tcp_throw_if_connection_closed
      sent ← send_robot_command (some empty_motion) (some control_command)
      pure tt

    -- `writeOnce(motion)` and `writeOnce(motion, torques)`
    unfoldable pub write_motion : Motion F → Method (Exception F) (Impl N F) (Unit {0})
    write_motion m = do
      motion_command ← checked (create_motion_command m)
      on_network n.tcp_throw_if_connection_closed
      sent ← send_robot_command (some motion_command) none
      pure tt

    unfoldable pub write_motion_and_torques :
        Motion F → Torques F → Method (Exception F) (Impl N F) (Unit {0})
    write_motion_and_torques m t = do
      motion_command ← checked (create_motion_command m)
      control_command ← checked (create_controller_command t)
      on_network n.tcp_throw_if_connection_closed
      sent ← send_robot_command (some motion_command) (some control_command)
      pure tt

    -- `logger_.flush()`
    unfoldable pub flush_logger : Method (Exception F) (Impl N F) (List (Record F))
    flush_logger s = (ok (flush s.logger).0, record s { logger = (flush s.logger).1 })

    -- What the result of `handleCommandResponse<Move>` makes of a motion: a `CommandException`
    -- becomes a `ControlException` with the errors and the log, any other exception passes, and
    -- `done` follows a success.
    unfoldable pub conclude_with :
        Errors
        → Status.Move
        → Method (Exception F) (Impl N F) (Unit {0})
        → Result (Exception F) (Unit {0})
        → Method (Exception F) (Impl N F) (Unit {0})
    unfolding flush_logger
    conclude_with errors status done (ok _) = done
    conclude_with errors status done (raise (command what)) = do
      log ← flush_logger
      throw (create_control_exception what status errors log)
    conclude_with errors status done (raise e) = throw e
    conclude_with errors status done running = diverge

    unfoldable pub conclude :
        Errors
        → Response
        → Method (Exception F) (Impl N F) (Unit {0})
        → Method (Exception F) (Impl N F) (Unit {0})
    conclude errors r done s =
        conclude_with errors (Status.move r.status) done
          (handle_move (motion_generator_running s) s.robot_mode (Status.move r.status)) s

    unfoldable pub throw_on_motion_error :
        RobotState F → ℕ → Method (Exception F) (Impl N F) (Unit {0})
    unfolding conclude
    throw_on_motion_error robot_state motion_id = do
      s ← get
      if motion_disagrees robot_state.robot_mode s
          then (on_network (n.tcp_blocking_receive_response Command.move motion_id) >>= λ response.
              conclude robot_state.last_motion_errors response
                (throw (protocol "Unexpected reply to a Move command")))
          else pure tt
