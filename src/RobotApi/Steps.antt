-- ===== src/RobotApi/Steps.antt =====
-- A robot that several threads use: the operations under way, the active controls that live, and the
-- steps that they take in any order. A block under the lock is one step, and so is each other call.
use libfranka.Prelude.{
  ℕ, ◌≡◌, ◌≢◌, Bool, false, not, ◌&&◌, Option, List, [], ◌∷◌, ◌++◌, Double, ok, raise, running,
  Method, pure, ◌>>=◌, if◌then◌else◌,
}
use libfranka.Geometry.{Geometry}
use libfranka.LoadCalculations.{Eigen}
use libfranka.Interface.{MoveController, MoveGenerator, Request}
use libfranka.ControlTypes.{Torques, Motion}
use libfranka.Exceptions.{Exception}
use libfranka.Robot.{Network, Impl}
use libfranka.ActiveControl.{
  ActiveControl, write_once, write_torques_once, active_read_once, destroy,
}
use libfranka.ControlLoop.{Session, System}
use libfranka.RobotApi.Lock.{Robot, try_to_lock, on_impl, unlocked}
use libfranka.RobotApi.Calls.{Call, block, start_control, start_torque_control}
use libfranka.RobotApi.Settings.{send}

-- `blocks` are the operations that have passed `assertOwningLock` and still run; `actives` the objects
-- that `startControl` and its like returned and that are not destroyed.
pub record World (N F U : Type 0) : Type 0 where
  pub robot : Session (Robot N F) U
  pub blocks : List (Call F U)
  pub actives : List (ActiveControl N F)

pub data Start : Type 0 where
  motion : MoveGenerator → MoveController → Start
  torques : Start

-- The methods of an active control.
pub data Use (F : Type 0) : Type 0 where
  write : Motion F → Option (Torques F) → Use F
  drive : Torques F → Use F
  read : Use F

-- The mutex is unlocked by the lock that owned it.
abbrev pub mutex_after : (owned owns mutex : Bool) → Bool
mutex_after owned owns mutex = if owned && not owns then false else mutex

module _ {N F U : Type 0} where
  -- The object with the `robot_impl` that it shares with the robot.
  abbrev pub attached : World N F U → ActiveControl N F → ActiveControl N F
  attached w a = record a { robot_impl = w.robot.robot.impl }

  -- The robot after a call of an active control that made `b` of `a`.
  abbrev pub shared : World N F U → (a b : ActiveControl N F) → Session (Robot N F) U
  shared w a b = record w.robot {
    robot = record {
      impl = b.robot_impl;
      control_mutex = mutex_after a.owns_lock b.owns_lock w.robot.robot.control_mutex;
    };
  }

module _ {N F : Type 0} ⦃d : Double F⦄ ⦃n : Network N F⦄ ⦃e : Eigen F⦄ (fuel rounds : ℕ) where
  unfoldable pub start :
      {U : Type 0} → Start → Method (Exception F) (Session (Robot N F) U) (ActiveControl N F)
  start (motion generator controller) = start_control fuel rounds generator controller
  start torques = start_torque_control fuel rounds

  unfoldable pub perform : Use F → Method (Exception F) (ActiveControl N F) (Unit {0})
  perform (write m control_input) = write_once fuel rounds m control_input
  perform (drive t) = write_torques_once fuel rounds t
  perform read = active_read_once fuel >>= λ _. pure tt

module _ {N F U : Type 0} ⦃d : Double F⦄ ⦃n : Network N F⦄ ⦃e : Eigen F⦄ ⦃g : Geometry F⦄
    (fuel rounds cycles : ℕ) (system : System) where
  pub data Step (w : World N F U) : World N F U → Type 0 where
    enters :
        (c : Call F U) {s : Session (Robot N F) U}
        → try_to_lock w.robot ≡ (ok tt, s)
        → Step w (record w { robot = s; blocks = c ∷ w.blocks })
    leaves :
        (c : Call F U) (before behind : List (Call F U))
        → w.blocks ≡ before ++ (c ∷ behind)
        → (on_impl (block fuel rounds cycles system c) w.robot).0 ≢ running
        → Step w (record w {
          robot = (unlocked (on_impl (block fuel rounds cycles system c) w.robot)).1;
          blocks = before ++ behind;
        })
    starts :
        (x : Start) {a : ActiveControl N F} {s : Session (Robot N F) U}
        → start fuel rounds x w.robot ≡ (ok a, s)
        → Step w (record w { robot = s; actives = a ∷ w.actives })
    fails :
        (x : Start) {y : Exception F} {s : Session (Robot N F) U}
        → start fuel rounds x w.robot ≡ (raise y, s)
        → Step w (record w { robot = s })
    uses :
        (u : Use F) (a : ActiveControl N F) (before behind : List (ActiveControl N F))
        {b : ActiveControl N F}
        → w.actives ≡ before ++ (a ∷ behind)
        → (perform fuel rounds u (attached w a)).1 ≡ b
        → Step w (record w { robot = shared w a b; actives = before ++ (b ∷ behind) })
    destroys :
        (a : ActiveControl N F) (before behind : List (ActiveControl N F)) {b : ActiveControl N F}
        → w.actives ≡ before ++ (a ∷ behind)
        → destroy fuel rounds (attached w a) ≡ (ok tt, b)
        → Step w (record w { robot = shared w a b; actives = before ++ behind })
    sends : (request : Request F) → Step w (record w { robot = (send request w.robot).1 })

  abbrev pub init : Impl N F → U → World N F U
  init impl user = record {
    robot = record { robot = record { impl = impl; control_mutex = false }; user = user };
    blocks = [];
    actives = [];
  }

  pub data Reach (impl : Impl N F) (user : U) : World N F U → Type 0 where
    begins : Reach impl user (init impl user)
    later : {v w : World N F U} → Reach impl user v → Step v w → Reach impl user w
