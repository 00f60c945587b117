-- ===== src/Interface/Service.antt =====
-- common/include/research_interface/robot/service_types.h: the commands of the TCP channel.
use libfranka.Prelude.{ℕ, Bool, Array, String}

-- `Move::ControllerMode` and `Move::MotionGeneratorMode`
pub data MoveController : Type 0 where
  joint_impedance cartesian_impedance external_controller : MoveController

pub data MoveGenerator : Type 0 where
  joint_position joint_velocity cartesian_position cartesian_velocity : MoveGenerator

-- `Move::Deviation`
pub record Deviation (F : Type 0) : Type 0 where
  pub translation : F
  pub rotation : F
  pub elbow : F

-- `Request` of each command that the class `Robot::Impl` sends once it is connected, with its fields;
-- each has a `handleCommandResponse`, which `Connect` has not.
pub data Request (F : Type 0) : Type 0 where
  move : MoveController → MoveGenerator → Deviation F → Deviation F → Request F
  stop_move : Request F
  set_collision_behavior :
      Array F 7
      → Array F 7
      → Array F 7
      → Array F 7
      → Array F 6
      → Array F 6
      → Array F 6
      → Array F 6
      → Request F
  set_joint_impedance : Array F 7 → Request F
  set_cartesian_impedance : Array F 6 → Request F
  set_guiding_mode : Array Bool 6 → Bool → Request F
  set_ee_to_k : Array F 16 → Request F
  set_ne_to_ee : Array F 16 → Request F
  set_load : F → Array F 3 → Array F 9 → Request F
  automatic_error_recovery : Request F

-- `Command`: the type parameter of the operations on a response.
pub data Command : Type 0 where
  connect move stop_move : Command
  set_collision_behavior set_joint_impedance set_cartesian_impedance : Command
  set_guiding_mode set_ee_to_k set_ne_to_ee set_load : Command
  automatic_error_recovery : Command

-- `T::kCommand`
abbrev pub command_of : {F : Type 0} → Request F → Command
command_of (move controller generator path goal) = Command.move
command_of stop_move = Command.stop_move
command_of (set_collision_behavior a b c d e f g h) = Command.set_collision_behavior
command_of (set_joint_impedance k) = Command.set_joint_impedance
command_of (set_cartesian_impedance k) = Command.set_cartesian_impedance
command_of (set_guiding_mode m e) = Command.set_guiding_mode
command_of (set_ee_to_k t) = Command.set_ee_to_k
command_of (set_ne_to_ee t) = Command.set_ne_to_ee
command_of (set_load m c i) = Command.set_load
command_of automatic_error_recovery = Command.automatic_error_recovery

-- `T::Response`: the byte of its status, and the version that the response of `Connect` carries.
pub record Response : Type 0 where
  pub status : ℕ  -- uint8_t
  pub version : ℕ  -- uint16_t

-- `kVersion`
abbrev pub k_version : ℕ
k_version = 5

-- `CommandTraits<T>::kName`
abbrev pub name : {F : Type 0} → Request F → String
name (move controller generator path goal) = "Move"
name stop_move = "Stop Move"
name (set_collision_behavior a b c d e f g h) = "Set Collision Behavior"
name (set_joint_impedance k) = "Set Joint Impedance"
name (set_cartesian_impedance k) = "Set Cartesian Impedance"
name (set_guiding_mode m e) = "Set Guiding Mode"
name (set_ee_to_k t) = "Set EE to K"
name (set_ne_to_ee t) = "Set NE to EE"
name (set_load m c i) = "Set Load"
name automatic_error_recovery = "Automatic Error Recovery"
