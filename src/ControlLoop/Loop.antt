-- ===== src/ControlLoop/Loop.antt =====
-- The callbacks, the two spins and the loop of `ControlLoop<T>`. A callback is the user's: it may
-- keep a state `U` of its own, and it may throw. The loop takes fuel, `cycles`, one for each state.
use libfranka.Prelude.{
  ℕ, zero, suc, Bool, not, Option, none, some, Double, Result, ok, raise, running, bind, Method,
  pure, throw, diverge, ◌>>=◌, ◌>>◌, if◌then◌else◌,
}
use libfranka.Geometry.{Geometry}
use libfranka.LoadCalculations.{Eigen}
use libfranka.Interface.{
  MoveGenerator, MoveController, Deviation, MotionGeneratorCommand, ControllerCommand, empty_motion,
  empty_control,
}
use libfranka.ControlTypes.{Torques, motion_finished, RealtimeConfig}
use libfranka.ControlTools.{check_finite}
use libfranka.Exceptions.{Exception, invalid_argument}
use libfranka.Duration.{Duration, sub}
use libfranka.RobotState.{RobotState}
use libfranka.RateLimiting.{k_delta_t, k_max_torque_rate, limit_torques}
use libfranka.LowpassFilter.{lowpass_all}
use libfranka.ControlLoop.Convert.{Generated, as_motion, apply_if, filters, convert_motion}

-- `RobotControl`: what the loop needs of a robot, over a type `R` of its states.
pub record RobotControl (R F : Type 0) : Type 0 where
  pub start_motion :
      MoveController → MoveGenerator → Deviation F → Deviation F → Method (Exception F) R ℕ
  pub finish_motion :
      ℕ
      → Option (MotionGeneratorCommand F)
      → Option (ControllerCommand F)
      → Method (Exception F) R (Unit {0})
  pub cancel_motion : ℕ → Method (Exception F) R (Unit {0})
  pub update :
      Option (MotionGeneratorCommand F)
      → Option (ControllerCommand F)
      → Method (Exception F) R (RobotState F)
  pub throw_on_motion_error : RobotState F → ℕ → Method (Exception F) R (Unit {0})
  pub realtime_config : R → RealtimeConfig

-- `ControlLoop<T>`. A callback that is not set is `none`.
pub record ControlLoop (k : MoveGenerator) (U F : Type 0) : Type 0 where
  pub motion_callback : Option (RobotState F → Duration → Method (Exception F) U (Generated k F))
  pub control_callback : Option (RobotState F → Duration → Method (Exception F) U (Torques F))
  pub limit_rate : Bool
  pub cutoff_frequency : F
  pub motion_id : ℕ

-- The robot and what the callbacks keep.
pub record Session (R U : Type 0) : Type 0 where
  pub robot : R
  pub user : U

module _ {R U E : Type 0} where
  abbrev pub by_robot : {A : Type 0} → Method E R A → Method E (Session R U) A
  by_robot m s = ((m s.robot).0, record s { robot = (m s.robot).1 })

  abbrev pub by_user : {A : Type 0} → Method E U A → Method E (Session R U) A
  by_user m s = ((m s.user).0, record s { user = (m s.user).1 })

  abbrev pub by_value : {A : Type 0} → Result E A → Method E (Session R U) A
  by_value r s = (r, s)

  -- `throw;` behind what the handler did, unless that still runs.
  abbrev pub rethrown :
      {A : Type 0} → E → Result E (Unit {0}) × Session R U → Result E A × Session R U
  rethrown x (running, t) = (running, t)
  rethrown x (ok _, t) = (raise x, t)
  rethrown x (raise _, t) = (raise x, t)

  -- `try { body } catch (...) { try { cleanup } catch (...) {} throw; }`, given what the body did.
  abbrev pub rethrow_after :
      {A : Type 0}
      → Method E (Session R U) (Unit {0})
      → Result E A × Session R U
      → Result E A × Session R U
  rethrow_after cleanup (ok a, s) = (ok a, s)
  rethrow_after cleanup (raise x, s) = rethrown x (cleanup s)
  rethrow_after cleanup (running, s) = (running, s)

module _ {F : Type 0} ⦃d : Double F⦄ where
  -- What `spinControl` makes of the torques that the callback returned.
  unfoldable pub convert_torques :
      (limit_rate : Bool)
      → (cutoff_frequency : F) → Torques F
      → RobotState F
      → Result (Exception F) (ControllerCommand F)
  convert_torques limit_rate cutoff_frequency t s =
      bind
        (apply_if (filters cutoff_frequency)
          (λ v. lowpass_all k_delta_t v s.tau_j_d cutoff_frequency) t.tau_j)
        λ filtered.
          bind (apply_if limit_rate (λ v. limit_torques k_max_torque_rate v s.tau_j_d) filtered)
            λ limited. bind (check_finite limited) λ _. ok (record { tau_j_d = limited })

-- `kDefaultDeviation`
abbrev pub k_default_deviation : {F : Type 0} ⦃d : Double F⦄ → Deviation F
k_default_deviation ⦃d⦄ = record {
  translation = d.literal 10 0;
  rotation = d.literal 312 2;
  elbow = d.mul (d.literal 2 0) d.m_pi;
}

module _ {R U F : Type 0} ⦃r : RobotControl R F⦄ where
  -- The next state, checked.
  unfoldable pub next_state :
      ℕ
      → Option (MotionGeneratorCommand F)
      → Option (ControllerCommand F)
      → Method (Exception F) (Session R U) (RobotState F)
  next_state id m c = do
    state ← by_robot (r.update m c)
    by_robot (r.throw_on_motion_error state id)
    pure state

module _ {R U F : Type 0} ⦃d : Double F⦄ ⦃g : Geometry F⦄ ⦃e : Eigen F⦄ {k : MoveGenerator} where
  -- `spinMotion` with a callback that is set: whether to go on, and the command.
  unfoldable pub spin_motion :
      ControlLoop k U F
      → (RobotState F → Duration → Method (Exception F) U (Generated k F))
      → RobotState F
      → Duration
      → MotionGeneratorCommand F
      → Method (Exception F) (Session R U) (Bool × MotionGeneratorCommand F)
  spin_motion loop callback state step command = do
    motion_output ← by_user (callback state step)
    converted ←
        by_value
          (convert_motion k loop.limit_rate loop.cutoff_frequency motion_output state command)
    pure (not (motion_finished (as_motion k motion_output)), converted)

  -- `spinControl`
  unfoldable pub spin_control :
      ControlLoop k U F
      → (RobotState F → Duration → Method (Exception F) U (Torques F))
      → RobotState F
      → Duration
      → Method (Exception F) (Session R U) (Bool × ControllerCommand F)
  spin_control loop callback state step = do
    control_output ← by_user (callback state step)
    converted ←
        by_value (convert_torques loop.limit_rate loop.cutoff_frequency control_output state)
    pure (not control_output.motion_finished, converted)

  module _ ⦃r : RobotControl R F⦄ where
    -- The loop of a motion without a control callback, from a state and the time of the one before.
    unfoldable pub motion_cycles :
        (cycles : ℕ)
        → ControlLoop k U F
        → (RobotState F → Duration → Method (Exception F) U (Generated k F))
        → RobotState F
        → Duration
        → MotionGeneratorCommand F
        → Method (Exception F) (Session R U) (Unit {0})
    motion_cycles zero loop motion state previous_time command = diverge
    motion_cycles (suc cycles) loop motion state previous_time command =
        spin_motion loop motion state (sub state.time previous_time) command >>= λ spun.
        if spun.0
        then (next_state loop.motion_id (some spun.1) none >>= λ next.
            motion_cycles cycles loop motion next state.time spun.1)
        else by_robot (r.finish_motion loop.motion_id (some spun.1) none)

    -- The loop of a motion with a control callback, which is not called in the cycle in which the
    -- motion is finished; the torques of the cycle before are then the last.
    unfoldable pub control_cycles :
        (cycles : ℕ)
        → ControlLoop k U F
        → (RobotState F → Duration → Method (Exception F) U (Generated k F))
        → (RobotState F → Duration → Method (Exception F) U (Torques F))
        → RobotState F
        → Duration
        → MotionGeneratorCommand F
        → ControllerCommand F
        → Method (Exception F) (Session R U) (Unit {0})
    control_cycles zero loop motion control state previous_time m c = diverge
    control_cycles (suc cycles) loop motion control state previous_time m c =
        spin_motion loop motion state (sub state.time previous_time) m >>= λ spun.
        if spun.0
        then (spin_control loop control state (sub state.time previous_time) >>= λ torques.
            if torques.0
            then (next_state loop.motion_id (some spun.1) (some torques.1) >>= λ next.
                control_cycles cycles loop motion control next state.time spun.1 torques.1)
            else by_robot (r.finish_motion loop.motion_id (some spun.1) (some torques.1)))
        else by_robot (r.finish_motion loop.motion_id (some spun.1) (some c))

    -- The choice of the loop, from the first state on. A motion callback is always set, which the
    -- constructors check; a call of one that is not would throw `std::bad_function_call`.
    unfoldable pub cycles_of :
        (cycles : ℕ)
        → ControlLoop k U F
        → Option (RobotState F → Duration → Method (Exception F) U (Generated k F))
        → Option (RobotState F → Duration → Method (Exception F) U (Torques F))
        → RobotState F
        → Method (Exception F) (Session R U) (Unit {0})
    cycles_of cycles loop none control state = throw (invalid_argument "bad_function_call")
    cycles_of cycles loop (some motion) none state =
        motion_cycles cycles loop motion state state.time empty_motion
    cycles_of cycles loop (some motion) (some control) state =
        control_cycles cycles loop motion control state state.time empty_motion empty_control

    -- The body of the function-try-block of `operator()`.
    unfoldable pub run_body :
        (cycles : ℕ) → ControlLoop k U F → Method (Exception F) (Session R U) (Unit {0})
    run_body cycles loop = do
      state ← next_state loop.motion_id none none
      cycles_of cycles loop loop.motion_callback loop.control_callback state

    -- `operator()`
    unfoldable pub run :
        (cycles : ℕ) → ControlLoop k U F → Method (Exception F) (Session R U) (Unit {0})
    run cycles loop s =
        rethrow_after (by_robot (r.cancel_motion loop.motion_id)) (run_body cycles loop s)
