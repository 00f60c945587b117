-- ===== src/Exceptions.antt =====
-- include/franka/exception.h, with `Record` of include/franka/log.h, which `ControlException` carries.
use libfranka.Prelude.{ℕ, String, List, Option}
use libfranka.RobotState.{RobotState, Errors}
use libfranka.ControlTypes.{
  Torques, JointPositions, JointVelocities, CartesianPose, CartesianVelocities,
}

-- `franka::RobotCommand`
pub record RobotCommand (F : Type 0) : Type 0 where
  pub joint_positions : JointPositions F
  pub joint_velocities : JointVelocities F
  pub cartesian_pose : CartesianPose F
  pub cartesian_velocities : CartesianVelocities F
  pub torques : Torques F

pub record Record (F : Type 0) : Type 0 where
  pub state : RobotState F
  pub command : RobotCommand F

-- What `createControlException` writes behind the message of an aborted motion: the errors, and the
-- success rate with the packets lost if two states are in the log.
pub record ReflexReport (F : Type 0) : Type 0 where
  pub errors : Errors
  pub samples : Option (F × ℕ)

pub data Exception (F : Type 0) : Type 0 where
  network : String → Exception F
  protocol : String → Exception F
  incompatible_version : (server library : ℕ) → Exception F
  control : String → Option (ReflexReport F) → List (Record F) → Exception F
  command : String → Exception F
  realtime : String → Exception F
  invalid_operation : String → Exception F
  model : String → Exception F
  -- a `Poco::Exception` that was not turned into one of these
  poco : String → Exception F
  -- `std::invalid_argument`
  invalid_argument : String → Exception F
