-- ===== src/RobotApi/Lock.antt =====
-- The control mutex of `Robot`, and `Robot::Impl` as the `RobotControl` of its loops.
use libfranka.Prelude.{
  ℕ, Bool, true, false, Double, Result, ok, raise, running, Method, throw_if, ◌>>=◌, ◌>>◌, get,
  modify,
}
use libfranka.LoadCalculations.{Eigen}
use libfranka.Exceptions.{Exception, invalid_operation}
use libfranka.Robot.{
  Network, Impl, start_motion, finish_motion, cancel_motion, update, throw_on_motion_error,
}
use libfranka.ControlLoop.{RobotControl, Session}

-- `Robot`: `control_mutex` is whether a `unique_lock` owns the mutex.
pub record Robot (N F : Type 0) : Type 0 where
  pub impl : Impl N F
  pub control_mutex : Bool

-- `class Robot::Impl : public RobotControl`
abbrev pub robot_control :
    {N F : Type 0} ⦃d : Double F⦄ ⦃n : Network N F⦄ ⦃e : Eigen F⦄
    → (fuel rounds : ℕ) → RobotControl (Impl N F) F
robot_control fuel rounds = record {
  start_motion = start_motion fuel rounds;
  finish_motion = finish_motion fuel rounds;
  cancel_motion = cancel_motion fuel rounds;
  update = update fuel;
  throw_on_motion_error = throw_on_motion_error;
  realtime_config = λ s. s.realtime_config;
}

-- The message of `assertOwningLock`.
abbrev pub not_owned : {F : Type 0} → Exception F
not_owned =
    invalid_operation
      "libfranka robot: Cannot perform this operation while another control or read operation is running."

module _ {N F U : Type 0} where
  abbrev pub set_mutex : Bool → Session (Robot N F) U → Session (Robot N F) U
  set_mutex b s = record s { robot = record s.robot { control_mutex = b } }

  -- A call of the methods of `impl_`, with what the callbacks keep.
  abbrev pub on_impl :
      {A : Type 0}
      → Method (Exception F) (Session (Impl N F) U) A
      → Method (Exception F) (Session (Robot N F) U) A
  on_impl m s =
      let p = m (record { robot = s.robot.impl; user = s.user }) in
      (p.0, record { robot = record s.robot { impl = p.1.robot }; user = p.1.user })

  -- The lock that is tried, and `assertOwningLock`.
  unfoldable pub try_to_lock : Method (Exception F) (Session (Robot N F) U) (Unit {0})
  try_to_lock = do s ← get; throw_if s.robot.control_mutex not_owned; modify (set_mutex true)

  -- The destructor of the lock, at the end of the block and behind an exception; a block that still
  -- runs keeps it.
  abbrev pub unlocked :
      {A : Type 0}
      → Result (Exception F) A × Session (Robot N F) U
      → Result (Exception F) A × Session (Robot N F) U
  unlocked (ok a, s) = (ok a, set_mutex false s)
  unlocked (raise x, s) = (raise x, set_mutex false s)
  unlocked (running, s) = (running, s)

  -- A method that holds the lock in its block.
  unfoldable pub with_lock :
      {A : Type 0}
      → Method (Exception F) (Session (Impl N F) U) A
      → Method (Exception F) (Session (Robot N F) U) A
  unfolding try_to_lock
  with_lock body = try_to_lock >>= λ _ s. unlocked (on_impl body s)

  -- The lock of a block that moves it into what it returns is only destroyed behind an exception.
  abbrev pub unlocked_on_raise :
      {A : Type 0}
      → Result (Exception F) A × Session (Robot N F) U
      → Result (Exception F) A × Session (Robot N F) U
  unlocked_on_raise (ok a, s) = (ok a, s)
  unlocked_on_raise (raise x, s) = (raise x, set_mutex false s)
  unlocked_on_raise (running, s) = (running, s)
