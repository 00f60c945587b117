-- ===== src/ControlTypes.antt =====
-- include/franka/control_types.h and src/control_types.cpp: what the callbacks of a controller return.
pub mod FromLists
use libfranka.Prelude.{Bool, not, Array, nil, ◌▸◌, Double, nought, ◌&&◌}

pub data ControllerMode : Type 0 where
  joint_impedance cartesian_impedance : ControllerMode

pub data RealtimeConfig : Type 0 where
  enforce ignore : RealtimeConfig

-- `motion_finished` of each type is the field of its base class `Finishable`.
pub record Torques (F : Type 0) : Type 0 where
  pub tau_j : Array F 7
  pub motion_finished : Bool

pub record JointPositions (F : Type 0) : Type 0 where
  pub q : Array F 7
  pub motion_finished : Bool

pub record JointVelocities (F : Type 0) : Type 0 where
  pub dq : Array F 7
  pub motion_finished : Bool

pub record CartesianPose (F : Type 0) : Type 0 where
  pub o_t_ee : Array F 16
  pub elbow : Array F 2
  pub motion_finished : Bool

pub record CartesianVelocities (F : Type 0) : Type 0 where
  pub o_dp_ee : Array F 6
  pub elbow : Array F 2
  pub motion_finished : Bool

-- The four types that a motion generator may produce: the template parameter of `ControlLoop`,
-- `ActiveMotionGenerator` and `Robot::Impl::writeOnce`.
pub data Motion (F : Type 0) : Type 0 where
  joint_positions : JointPositions F → Motion F
  joint_velocities : JointVelocities F → Motion F
  cartesian_pose : CartesianPose F → Motion F
  cartesian_velocities : CartesianVelocities F → Motion F

module _ {F : Type 0} where
  abbrev pub motion_finished : Motion F → Bool
  motion_finished (joint_positions m) = m.motion_finished
  motion_finished (joint_velocities m) = m.motion_finished
  motion_finished (cartesian_pose m) = m.motion_finished
  motion_finished (cartesian_velocities m) = m.motion_finished

  -- `elbow != decltype(elbow)()`: some element differs from zero.
  abbrev pub has_elbow : ⦃d : Double F⦄ → Array F 2 → Bool
  has_elbow ⦃d⦄ (a ▸ b ▸ nil) = not (d.eq a nought && d.eq b nought)
