-- ===== src/Robot/Channel.antt =====
-- The real-time channel: `sendRobotCommand`, `receiveRobotState`, `update` and `readOnce` of
-- src/robot_impl.cpp. A loop that waits for datagrams takes fuel, one unit for each datagram.
use libfranka.Prelude.{
  ℕ, String, zero, suc, Bool, true, false, not, ◌&&◌, ◌||◌, Option, none, some, Double, Method,
  pure, throw, diverge, ◌>>=◌, ◌>>◌, get, modify, ltb, ◌==◌, if◌then◌else◌, [],
}
use libfranka.Interface.{
  MotionGeneratorMode, external_controller, same_motion, same_controller, WireState, WireCommand,
  MotionGeneratorCommand, ControllerCommand, empty_command, empty_state,
}
use libfranka.Exceptions.{Exception, control}
use libfranka.LoadCalculations.{Eigen}
use libfranka.RobotState.{RobotState, convert_robot_state}
use libfranka.Logger.{log}
use libfranka.Robot.State.{Network, Impl, on_network, update_state}

abbrev pub is_some {ℓ} : {A : Type ℓ} → Option A → Bool
is_some none = false
is_some (some _) = true

-- The three guards of `sendRobotCommand` in their order, given which parts the command has, whether no
-- motion generator was started, and whether the external controller was.
unfoldable pub refusal : (has_motion has_control idle external : Bool) → Option String
refusal has_motion has_control idle external =
    if has_motion && idle
    then some "libfranka robot: Trying to send motion command, but no motion generator running!"
    else if has_control && not external
    then some "libfranka robot: Trying to send control command, but no controller running!"
    else if not idle && external && (not has_motion || not has_control)
    then some "libfranka robot: Trying to send partial robot command!"
    else none

module _ {F : Type 0} where
  -- `ControlException(message)` with neither a report nor a log.
  abbrev pub plain : String → Exception F
  plain message = control message none []

  -- The command as far as the pointers that are not null fill it.
  abbrev pub filled_command :
      ⦃d : Double F⦄
      → ℕ
      → Option (MotionGeneratorCommand F)
      → Option (ControllerCommand F)
      → WireCommand F
  filled_command id none none = empty_command
  filled_command id (some m) none = record empty_command { message_id = id; motion = m }
  filled_command id none (some c) = record empty_command { message_id = id; control = c }
  filled_command id (some m) (some c) = record empty_command {
    message_id = id;
    motion = m;
    control = c;
  }

  -- `if (received_state.message_id > latest_accepted_state.message_id) latest... = received_state;`
  abbrev pub accept : WireState F → WireState F → WireState F
  accept latest received = if ltb latest.message_id received.message_id then received else latest

  -- `while (network_->udpReceive(&received)) { ... }` goes on as long as there is a datagram.
  abbrev pub on_datagram :
      {S A : Type 0}
      → Method (Exception F) S A
      → (WireState F → Method (Exception F) S A)
      → Option (WireState F)
      → Method (Exception F) S A
  on_datagram leave again none = leave
  on_datagram leave again (some r) = again r

  -- `latest_accepted_state` before a state is accepted; its other members are indeterminate.
  unfoldable pub none_accepted : ⦃d : Double F⦄ → ℕ → WireState F
  none_accepted id = record empty_state { message_id = id }

module _ {N F : Type 0} ⦃d : Double F⦄ where
  module _ ⦃n : Network N F⦄ where
    -- The command goes out unless it was refused.
    unfoldable pub send_unless :
        Option String → WireCommand F → Method (Exception F) (Impl N F) (WireCommand F)
    send_unless (some what) command = throw (plain what)
    send_unless none command = on_network (n.udp_send command) >> pure command

    -- A null pointer is `none`.
    unfoldable pub send_robot_command :
        Option (MotionGeneratorCommand F)
        → Option (ControllerCommand F)
        → Method (Exception F) (Impl N F) (WireCommand F)
    send_robot_command none none = pure (filled_command 0 none none)
    send_robot_command m c = do
      s ← get
      send_unless
          (refusal (is_some m) (is_some c)
            (same_motion s.current_move_motion_generator_mode MotionGeneratorMode.idle)
            (same_controller s.current_move_controller_mode external_controller))
          (filled_command s.message_id m c)

    -- The loop over the states that the socket already holds.
    unfoldable pub drain : ℕ → WireState F → Method (Exception F) (Impl N F) (WireState F)
    drain zero latest = diverge
    drain (suc fuel) latest =
        on_network n.udp_receive >>= on_datagram (pure latest) λ r. drain fuel (accept latest r)

    -- The loop that waits for a valid state.
    unfoldable pub await : ℕ → WireState F → Method (Exception F) (Impl N F) (WireState F)
    await zero latest = diverge
    await (suc fuel) latest = do
      s ← get
      if latest.message_id == s.message_id
          then (on_network n.udp_blocking_receive >>= λ r. await fuel (accept latest r))
          else pure latest

    unfoldable pub receive_robot_state : ℕ → Method (Exception F) (Impl N F) (WireState F)
    receive_robot_state fuel = do
      s ← get
      drained ← drain fuel (none_accepted s.message_id)
      latest ← await fuel drained
      modify (update_state latest)
      pure latest

    -- Delete old data from the UDP buffer.
    unfoldable pub discard : ℕ → Method (Exception F) (Impl N F) (Unit {0})
    discard zero = diverge
    discard (suc fuel) = on_network n.udp_receive >>= on_datagram (pure tt) λ _. discard fuel

    module _ ⦃e : Eigen F⦄ where
      unfoldable pub update :
          ℕ
          → Option (MotionGeneratorCommand F)
          → Option (ControllerCommand F)
          → Method (Exception F) (Impl N F) (RobotState F)
      update fuel m c = do
        on_network n.tcp_throw_if_connection_closed
        sent ← send_robot_command m c
        received ← receive_robot_state fuel
        let state = convert_robot_state received
        modify (λ s. record s { logger = log s.logger state sent })
        pure state

      unfoldable pub read_once : ℕ → Method (Exception F) (Impl N F) (RobotState F)
      read_once fuel = do
        discard fuel
        received ← receive_robot_state fuel
        let state = convert_robot_state received
        modify (λ s. record s { current_state = state })
        pure state
