-- ===== src/Robot/State.antt =====
-- The members of `Robot::Impl` and the operations of `Network` that it calls.
use libfranka.Prelude.{ℕ, Bool, not, Option, Result, Method}
use libfranka.Interface.{
  MotionGeneratorMode, ControllerMode, external_controller, RobotMode, same_motion, same_controller,
  WireState, WireCommand, Request, Command, Response,
}
use libfranka.ControlTypes.{RealtimeConfig}
use libfranka.Exceptions.{Exception}
use libfranka.RobotState.{RobotState}
use libfranka.Logger.{Logger}

-- `class Network` as its client sees it, over a state `N` of the connection. `udp_receive` returns
-- false as `none`; an operation on a response has the command `T` as an argument; the handler of
-- `tcp_receive_response` returns or throws.
pub record Network (N F : Type 0) : Type 0 where
  pub udp_port : N → ℕ  -- uint16_t
  pub udp_receive : Method (Exception F) N (Option (WireState F))
  pub udp_blocking_receive : Method (Exception F) N (WireState F)
  pub udp_send : WireCommand F → Method (Exception F) N (Unit {0})
  pub tcp_throw_if_connection_closed : Method (Exception F) N (Unit {0})
  pub tcp_send_connect : (version udp_port : ℕ) → Method (Exception F) N ℕ  -- of a `Connect`
  pub tcp_send_request : Request F → Method (Exception F) N ℕ
  pub tcp_blocking_receive_response : Command → ℕ → Method (Exception F) N Response
  pub tcp_receive_response :
      Command → ℕ → (Response → Result (Exception F) (Unit {0})) → Method (Exception F) N Bool

pub record Impl (N F : Type 0) : Type 0 where
  pub network : N
  pub logger : Logger F
  pub realtime_config : RealtimeConfig
  pub ri_version : ℕ  -- uint16_t
  pub robot_mode : RobotMode
  pub motion_generator_mode : MotionGeneratorMode
  pub current_move_motion_generator_mode : MotionGeneratorMode
  pub controller_mode : ControllerMode
  pub current_move_controller_mode : ControllerMode
  pub message_id : ℕ  -- uint64_t
  pub current_state : RobotState F

module _ {N F : Type 0} where
  -- A call of the network from a method of `Robot::Impl`.
  abbrev pub on_network :
      {A : Type 0} → Method (Exception F) N A → Method (Exception F) (Impl N F) A
  on_network m s = ((m s.network).0, record s { network = (m s.network).1 })

  -- A call of a function that only reads the object, or none of it.
  abbrev pub checked : {A : Type 0} → Result (Exception F) A → Method (Exception F) (Impl N F) A
  checked r s = (r, s)

  abbrev pub motion_generator_running : Impl N F → Bool
  motion_generator_running s = not (same_motion s.motion_generator_mode MotionGeneratorMode.idle)

  abbrev pub controller_running : Impl N F → Bool
  controller_running s = same_controller s.controller_mode external_controller

  unfoldable pub update_state : WireState F → Impl N F → Impl N F
  update_state r s = record s {
    robot_mode = r.robot_mode;
    motion_generator_mode = r.motion_generator_mode;
    controller_mode = r.controller_mode;
    message_id = r.message_id;
  }
