-- ===== src/ControlLoop/Construct.antt =====
-- The constructors of `ControlLoop<T>`. What the operating system says of the thread and of the kernel
-- is an argument.
use libfranka.Prelude.{
  String, Bool, true, false, not, ◌&&◌, Option, none, Double, Method, pure, throw_if, ◌>>=◌, ◌>>◌,
  get,
}
use libfranka.Interface.{MoveGenerator, MoveController}
use libfranka.ControlTypes.{
  Torques, RealtimeConfig, enforce, ignore, ControllerMode, joint_impedance, cartesian_impedance,
}
use libfranka.Exceptions.{Exception, realtime, invalid_argument}
use libfranka.Duration.{Duration}
use libfranka.RobotState.{RobotState}
use libfranka.Robot.{is_some}
use libfranka.ControlLoop.Convert.{Generated}
use libfranka.ControlLoop.Loop.{RobotControl, ControlLoop, k_default_deviation}

-- `setCurrentThreadToHighestSchedulerPriority` and `hasRealtimeKernel`.
pub record System : Type 0 where
  pub has_highest_priority : Bool
  pub error_message : String
  pub has_realtime_kernel : Bool

abbrev pub enforces : RealtimeConfig → Bool
enforces enforce = true
enforces ignore = false

-- The switch over the controller mode.
abbrev pub controller_of : ControllerMode → MoveController
controller_of joint_impedance = MoveController.joint_impedance
controller_of cartesian_impedance = MoveController.cartesian_impedance

module _ {R F : Type 0} ⦃r : RobotControl R F⦄ where
  -- The protected constructor, which the others call first.
  unfoldable pub check_realtime : System → Method (Exception F) R (Unit {0})
  check_realtime system = do
    s ← get
    throw_if (not system.has_highest_priority && enforces (r.realtime_config s))
        (realtime system.error_message)
    throw_if (enforces (r.realtime_config s) && not system.has_realtime_kernel)
        (realtime "libfranka: Running kernel does not have realtime capabilities.")

  module _ {U : Type 0} ⦃d : Double F⦄ (k : MoveGenerator) where
    -- `ControlLoop(robot, control_callback, motion_callback, limit_rate, cutoff_frequency)`
    unfoldable pub with_control :
        System
        → Option (RobotState F → Duration → Method (Exception F) U (Torques F))
        → Option (RobotState F → Duration → Method (Exception F) U (Generated k F))
        → (limit_rate : Bool) → (cutoff_frequency : F) → Method (Exception F) R (ControlLoop k U F)
    with_control system control motion limit_rate cutoff_frequency = do
      check_realtime system
      throw_if (not (is_some control))
          (invalid_argument "libfranka: Invalid control callback given.")
      throw_if (not (is_some motion)) (invalid_argument "libfranka: Invalid motion callback given.")
      id ←
          r.start_motion MoveController.external_controller k k_default_deviation
            k_default_deviation
      pure (record {
        motion_callback = motion;
        control_callback = control;
        limit_rate = limit_rate;
        cutoff_frequency = cutoff_frequency;
        motion_id = id;
      })

    -- `ControlLoop(robot, controller_mode, motion_callback, limit_rate, cutoff_frequency)`
    unfoldable pub with_mode :
        System
        → ControllerMode
        → Option (RobotState F → Duration → Method (Exception F) U (Generated k F))
        → (limit_rate : Bool) → (cutoff_frequency : F) → Method (Exception F) R (ControlLoop k U F)
    with_mode system mode motion limit_rate cutoff_frequency = do
      check_realtime system
      throw_if (not (is_some motion)) (invalid_argument "libfranka: Invalid motion callback given.")
      id ← r.start_motion (controller_of mode) k k_default_deviation k_default_deviation
      pure (record {
        motion_callback = motion;
        control_callback = none;
        limit_rate = limit_rate;
        cutoff_frequency = cutoff_frequency;
        motion_id = id;
      })
