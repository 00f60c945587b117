-- ===== src/RobotApi/Calls.antt =====
-- The operations of `Robot`.
use libfranka.Prelude.{
  bind, ℕ, zero, suc, Bool, false, Result, ok, Option, none, some, filled, Double, nought, ok,
  Method, pure, diverge, ◌>>=◌, get, if◌then◌else◌,
}
use libfranka.Geometry.{Geometry}
use libfranka.LoadCalculations.{Eigen}
use libfranka.Interface
use libfranka.Interface.{
  MoveGenerator, MoveController, Request, stop_move, set_collision_behavior, set_joint_impedance,
  set_cartesian_impedance, set_guiding_mode, set_ee_to_k, set_ne_to_ee, set_load,
  automatic_error_recovery,
}
use libfranka.ControlTypes.{Torques, JointVelocities, ControllerMode, RealtimeConfig}
use libfranka.Exceptions.{Exception}
use libfranka.Duration.{Duration}
use libfranka.RobotState.{RobotState}
use libfranka.Robot.{Network, Impl, start_motion, update, read_once}
use libfranka.Robot.Construct.{construct}
use libfranka.ControlLoop.{
  Generated, Session, System, by_robot, by_user, with_control, with_mode, run, k_default_deviation,
}
use libfranka.ActiveControl.{ActiveControl, new}
use libfranka.RobotApi.Lock.{
  Robot, robot_control, on_impl, try_to_lock, with_lock, unlocked_on_raise,
}

-- A callback of the user, with a state of its own.
abbrev pub Callback : (F U A : Type 0) → Type 0
Callback F U A = RobotState F → Duration → Method (Exception F) U A

-- `JointVelocities{{0.0, 0.0, 0.0, 0.0, 0.0, 0.0, 0.0}}`
abbrev pub standstill : {F U : Type 0} ⦃d : Double F⦄ → Callback F U (JointVelocities F)
standstill state step = pure (record { dq = filled nought 7; motion_finished = false })

module _ {N F U : Type 0} ⦃d : Double F⦄ ⦃n : Network N F⦄ ⦃e : Eigen F⦄ where
  module _ ⦃g : Geometry F⦄ (fuel rounds cycles : ℕ) (system : System) where
    -- The block of the overloads of `control` with a control callback and a motion generator.
    unfoldable pub control_block :
        (k : MoveGenerator)
        → Option (Callback F U (Torques F))
        → Option (Callback F U (Generated k F))
        → (limit_rate : Bool) → (cutoff_frequency : F)
        → Method (Exception F) (Session (Impl N F) U) (Unit {0})
    control_block k control motion limit_rate cutoff_frequency = do
      loop ← by_robot (
          with_control ⦃r = robot_control fuel rounds⦄ k system control motion limit_rate
            cutoff_frequency)
      run ⦃r = robot_control fuel rounds⦄ cycles loop

    -- The block of the overloads with a motion generator and a controller mode.
    unfoldable pub mode_block :
        (k : MoveGenerator)
        → Option (Callback F U (Generated k F))
        → ControllerMode
        → (limit_rate : Bool) → (cutoff_frequency : F)
        → Method (Exception F) (Session (Impl N F) U) (Unit {0})
    mode_block k motion mode limit_rate cutoff_frequency = do
      loop ← by_robot (
          with_mode ⦃r = robot_control fuel rounds⦄ k system mode motion limit_rate
            cutoff_frequency)
      run ⦃r = robot_control fuel rounds⦄ cycles loop

  -- The loop of `read`.
  unfoldable pub read_cycles :
      (fuel cycles : ℕ)
      → (RobotState F → Method (Exception F) U Bool)
      → Method (Exception F) (Session (Impl N F) U) (Unit {0})
  read_cycles fuel zero read_callback = diverge
  read_cycles fuel (suc cycles) read_callback = do
    robot_state ← by_robot (update fuel none none)
    more ← by_user (read_callback robot_state)
    if more then read_cycles fuel cycles read_callback else pure tt

-- The operations that hold the control mutex in a block: the overloads of `control`, `read`,
-- `readOnce`.
pub data Call (F U : Type 0) : Type 0 where
  control_torques :
      Option (Callback F U (Torques F)) → (limit_rate : Bool) → (cutoff_frequency : F) → Call F U
  control_motion :
      (k : MoveGenerator)
      → Option (Callback F U (Torques F))
      → Option (Callback F U (Generated k F))
      → (limit_rate : Bool) → (cutoff_frequency : F) → Call F U
  control_mode :
      (k : MoveGenerator)
      → Option (Callback F U (Generated k F))
      → ControllerMode
      → (limit_rate : Bool) → (cutoff_frequency : F) → Call F U
  read : (RobotState F → Method (Exception F) U Bool) → Call F U
  read_one : Call F U

-- What the operation returns.
abbrev pub Answer : {F U : Type 0} → Call F U → Type 0
Answer (control_torques control limit_rate cutoff_frequency) = Unit {0}
Answer (control_motion k control motion limit_rate cutoff_frequency) = Unit {0}
Answer (control_mode k motion mode limit_rate cutoff_frequency) = Unit {0}
Answer (read read_callback) = Unit {0}
Answer {F = F} read_one = RobotState F

module _ {N F U : Type 0} ⦃d : Double F⦄ ⦃n : Network N F⦄ ⦃e : Eigen F⦄ where
  module _ ⦃g : Geometry F⦄ (fuel rounds cycles : ℕ) (system : System) where
    unfoldable pub block : (c : Call F U) → Method (Exception F) (Session (Impl N F) U) (Answer c)
    block (control_torques control limit_rate cutoff_frequency) =
        control_block fuel rounds cycles system MoveGenerator.joint_velocity control
          (some standstill) limit_rate cutoff_frequency
    block (control_motion k control motion limit_rate cutoff_frequency) =
        control_block fuel rounds cycles system k control motion limit_rate cutoff_frequency
    block (control_mode k motion mode limit_rate cutoff_frequency) =
        mode_block fuel rounds cycles system k motion mode limit_rate cutoff_frequency
    block (read read_callback) = read_cycles fuel cycles read_callback
    block read_one = by_robot (read_once fuel)

    unfoldable pub call : (c : Call F U) → Method (Exception F) (Session (Robot N F) U) (Answer c)
    call c = with_lock (block c)

  -- The block of `startControl<T>` and of `startTorqueControl`; the object that it returns owns the
  -- lock.
  unfoldable pub start_block :
      (fuel rounds : ℕ)
      → MoveController
      → MoveGenerator
      → Method (Exception F) (Session (Robot N F) U) (ActiveControl N F)
  start_block fuel rounds controller generator = do
    motion_id ← on_impl (
        by_robot
          (start_motion fuel rounds controller generator k_default_deviation k_default_deviation))
    s ← get
    pure (new s.robot.impl motion_id controller)

  -- `startControl<T>`, of which `startJointPositionControl` and its like are the instances.
  unfoldable pub start_control :
      (fuel rounds : ℕ)
      → MoveGenerator
      → MoveController
      → Method (Exception F) (Session (Robot N F) U) (ActiveControl N F)
  unfolding start_block
  start_control fuel rounds generator controller =
      try_to_lock >>= λ _ s. unlocked_on_raise (start_block fuel rounds controller generator s)

  unfoldable pub start_torque_control :
      (fuel rounds : ℕ) → Method (Exception F) (Session (Robot N F) U) (ActiveControl N F)
  unfolding start_block
  start_torque_control fuel rounds = try_to_lock >>= λ _ s.
      unlocked_on_raise
        (start_block fuel rounds MoveController.external_controller MoveGenerator.joint_velocity s)

-- `Robot::Robot`; the connection is that to `kCommandPort` of the address.
unfoldable pub connect_to :
    {N F : Type 0} ⦃d : Double F⦄ ⦃n : Network N F⦄
    → Interface.ControllerMode
    → (log_size : ℕ) → RealtimeConfig
    → N
    → Result (Exception F) (Robot N F)
connect_to indeterminate log_size config network =
    bind (construct indeterminate log_size config (some network))
      λ impl. ok (record { impl = impl; control_mutex = false })

-- `serverVersion`
abbrev pub server_version : {N F : Type 0} → Robot N F → ℕ
server_version s = s.impl.ri_version
