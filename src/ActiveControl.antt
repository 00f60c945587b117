-- ===== src/ActiveControl.antt =====
-- src/active_control.cpp, src/active_motion_generator.cpp and src/active_torque_control.cpp: a motion
-- that the caller drives cycle by cycle. The object holds the lock of the control mutex until the
-- motion is finished.
pub mod Writes
pub mod Reads
use libfranka.Prelude.{
  ℕ, Bool, true, false, not, ◌&&◌, ◌||◌, Option, none, some, Double, nought, Result, ok, raise,
  running, Method, pure, throw_if, ◌>>=◌, ◌>>◌, get, modify, if◌then◌else◌, filled,
}
use libfranka.Interface.{MoveController, empty_motion}
use libfranka.ControlTypes.{Torques, Motion, motion_finished}
use libfranka.Exceptions.{Exception}
use libfranka.LoadCalculations.{Eigen}
use libfranka.RobotState.{RobotState}
use libfranka.Duration.{Duration, sub}
use libfranka.Robot.{
  Network, Impl, is_some, plain, create_motion_command, create_controller_command, write_torques,
  write_motion, write_motion_and_torques, finish_motion, cancel_motion, read_once,
  throw_on_motion_error,
}

-- `ActiveControl` with the `controller_type_` of `ActiveMotionGenerator`. `owns_lock` is whether
-- `control_lock` owns the control mutex.
pub record ActiveControl (N F : Type 0) : Type 0 where
  pub robot_impl : Impl N F
  pub motion_id : ℕ
  pub owns_lock : Bool
  pub control_finished : Bool
  pub last_read_access : Option Duration
  pub controller_type : MoveController

abbrev pub is_external : MoveController → Bool
is_external MoveController.external_controller = true
is_external _ = false

abbrev pub is_torque_control_finished : {F : Type 0} → Option (Torques F) → Bool
is_torque_control_finished none = false
is_torque_control_finished (some t) = t.motion_finished

-- `time - last_read_access.value()` once it has a value.
abbrev pub time_since : Option Duration → Duration → Duration
time_since none time = sub time time
time_since (some last) time = sub time last

module _ {N F : Type 0} where
  -- The constructor.
  abbrev pub new : Impl N F → ℕ → MoveController → ActiveControl N F
  new robot id controller = record {
    robot_impl = robot;
    motion_id = id;
    owns_lock = true;
    control_finished = false;
    last_read_access = none;
    controller_type = controller;
  }

  -- A call of a method of the robot.
  abbrev pub on_robot :
      {A : Type 0} → Method (Exception F) (Impl N F) A → Method (Exception F) (ActiveControl N F) A
  on_robot m s = ((m s.robot_impl).0, record s { robot_impl = (m s.robot_impl).1 })

  -- A call of a function that reads nothing of the object.
  abbrev pub checked_by :
      {A : Type 0} → Result (Exception F) A → Method (Exception F) (ActiveControl N F) A
  checked_by r s = (r, s)

  -- `control_finished = true; control_lock.unlock();`
  abbrev pub finished : ActiveControl N F → ActiveControl N F
  finished s = record s { control_finished = true; owns_lock = false }

module _ {N F : Type 0} ⦃d : Double F⦄ ⦃n : Network N F⦄ ⦃e : Eigen F⦄ where
  -- The branch of `ActiveMotionGenerator::writeOnce` for the last command of a motion.
  unfoldable pub finish_with :
      (fuel rounds : ℕ)
      → Motion F
      → Option (Torques F)
      → Method (Exception F) (ActiveControl N F) (Unit {0})
  finish_with fuel rounds m none = do
    s ← get
    motion_command ← checked_by (create_motion_command m)
    on_robot (finish_motion fuel rounds s.motion_id (some motion_command) none)
    modify finished
  finish_with fuel rounds m (some t) = do
    s ← get
    motion_command ← checked_by (create_motion_command m)
    control_command ← checked_by (create_controller_command t)
    on_robot (finish_motion fuel rounds s.motion_id (some motion_command) (some control_command))
    modify finished

  -- The branch for the other commands.
  unfoldable pub write_through :
      Motion F → Option (Torques F) → Method (Exception F) (ActiveControl N F) (Unit {0})
  write_through m none = on_robot (write_motion m)
  write_through m (some t) = on_robot (write_motion_and_torques m t)

  -- `ActiveMotionGenerator::writeOnce`
  unfoldable pub write_once :
      (fuel rounds : ℕ)
      → Motion F
      → Option (Torques F)
      → Method (Exception F) (ActiveControl N F) (Unit {0})
  write_once fuel rounds m control_input = do
    s ← get
    throw_if s.control_finished
        (plain "writeOnce must not be called after the motion has finished.")
    throw_if (is_some control_input && not (is_external s.controller_type))
        (plain "Torques can only be commanded in kExternalController mode.")
    throw_if (not (is_some control_input) && is_external s.controller_type) (
        plain
          "Torque command missing, please use writeOnce(const MotionGeneratorType& motion_generator_input, const Torques& control_input) for external controllers.")
    if motion_finished m || is_torque_control_finished control_input
        then finish_with fuel rounds m control_input
        else write_through m control_input

  -- `ActiveTorqueControl::writeOnce`
  unfoldable pub write_torques_once :
      (fuel rounds : ℕ) → Torques F → Method (Exception F) (ActiveControl N F) (Unit {0})
  write_torques_once fuel rounds t = do
    s ← get
    throw_if s.control_finished
        (plain "writeOnce must not be called after the motion has finished.")
    if t.motion_finished
        then (checked_by (create_controller_command t) >>= λ controller_command.
            on_robot (
              finish_motion fuel rounds s.motion_id
                (some (record empty_motion { dq_c = filled nought 7 })) (some controller_command))
            >> modify finished)
        else on_robot (write_torques t)

  unfoldable pub active_read_once :
      (fuel : ℕ) → Method (Exception F) (ActiveControl N F) (RobotState F × Duration)
  active_read_once fuel = do
    s ← get
    robot_state ← on_robot (read_once fuel)
    on_robot (throw_on_motion_error robot_state s.motion_id)
    modify (λ u. record u { last_read_access = some robot_state.time })
    pure (robot_state, time_since s.last_read_access robot_state.time)

  -- `~ActiveControl`, the destructor of the lock included.
  unfoldable pub destroy : (fuel rounds : ℕ) → Method (Exception F) (ActiveControl N F) (Unit {0})
  destroy fuel rounds = do
    s ← get
    if s.control_finished then pure tt else on_robot (cancel_motion fuel rounds s.motion_id)
    modify (λ u. record u { owns_lock = false })
