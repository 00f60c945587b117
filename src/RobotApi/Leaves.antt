-- ===== src/RobotApi/Leaves.antt =====
-- How the operations of `Robot` leave it: the robot idle, the control mutex as it was.
use mathlib.Core.Path.{subst}
use libfranka.Prelude.{
  ℕ, ◌≡◌, ◌≢◌, ◌∙◌, refl, sym, ap, Bool, true, false, Option, some, Double, Result, ok, raise,
  running, throw_if, modify, after-eq-ok, eq_of_fst, ◌>>=◌, ◌>>◌,
}
use libfranka.Geometry.{Geometry}
use libfranka.LoadCalculations.{Eigen}
use libfranka.Interface.{MoveGenerator}
use libfranka.ControlTypes.{Torques, ControllerMode}
use libfranka.Exceptions.{Exception}
use libfranka.Robot.{Network, Impl}
use libfranka.Robot.Finish.{IsIdle, finish_motion-IsIdle, cancel_motion-IsIdle}
use libfranka.ControlLoop.{Generated, Session, System, by_robot, with_control, with_mode}
use libfranka.ControlLoop.Cancels.{Promises, run-Idle}
use libfranka.RobotApi.Lock.{
  Robot, robot_control, not_owned, try_to_lock, on_impl, unlocked, with_lock, set_mutex,
}
use libfranka.RobotApi.Calls.{
  Callback, Call, control_torques, control_motion, control_mode, read, read_one, Answer, standstill,
  control_block, mode_block, block, call,
}
use libfranka.RobotApi.Counts.{try_to_lock-ok}

-- The overloads of `control`.
abbrev pub is_control : {F U : Type 0} → Call F U → Bool
is_control (read read_callback) = false
is_control read_one = false
is_control _ = true

module _ {N F : Type 0} ⦃d : Double F⦄ ⦃n : Network N F⦄ ⦃e : Eigen F⦄ (fuel rounds : ℕ) where
  -- `Robot::Impl` keeps the promises of a `RobotControl`.
  pub promises_kept : Promises (robot_control fuel rounds) (IsIdle {N = N} {F = F})
  promises_kept = record {
    finished = λ id m c s t h. finish_motion-IsIdle fuel rounds id m c s t h;
    cancelled = λ id s t h. cancel_motion-IsIdle fuel rounds id s t h;
  }

module _ {N F U : Type 0} ⦃d : Double F⦄ ⦃n : Network N F⦄ ⦃e : Eigen F⦄ ⦃g : Geometry F⦄
    (fuel rounds cycles : ℕ) (system : System) where
  control_block-ok :
      (k : MoveGenerator) (control : Option (Callback F U (Torques F)))
      (motion : Option (Callback F U (Generated k F))) (limit_rate : Bool) (f : F)
      (s t : Session (Impl N F) U)
      → control_block fuel rounds cycles system k control motion limit_rate f s ≡ (ok tt, t)
      → IsIdle t.robot
  unfolding control_block
  control_block-ok k control motion limit_rate f s t h =
      let made =
        by_robot {U = U}
          (with_control ⦃r = robot_control fuel rounds⦄ k system control motion limit_rate f) s in
      let (loop, e₁, k₁) = after-eq-ok made _ h in
      run-Idle ⦃r = robot_control fuel rounds⦄ IsIdle (promises_kept fuel rounds) cycles loop made.1
        t k₁

  mode_block-ok :
      (k : MoveGenerator) (motion : Option (Callback F U (Generated k F))) (mode : ControllerMode)
      (limit_rate : Bool) (f : F) (s t : Session (Impl N F) U)
      → mode_block fuel rounds cycles system k motion mode limit_rate f s ≡ (ok tt, t)
      → IsIdle t.robot
  unfolding mode_block
  mode_block-ok k motion mode limit_rate f s t h =
      let made =
        by_robot {U = U}
          (with_mode ⦃r = robot_control fuel rounds⦄ k system mode motion limit_rate f) s in
      let (loop, e₁, k₁) = after-eq-ok made _ h in
      run-Idle ⦃r = robot_control fuel rounds⦄ IsIdle (promises_kept fuel rounds) cycles loop made.1
        t k₁

  block-ok :
      (c : Call F U) (s t : Session (Impl N F) U) {a : Answer c}
      → is_control c ≡ true
      → block fuel rounds cycles system c s ≡ (ok a, t)
      → IsIdle t.robot
  unfolding block
  block-ok (control_torques control limit_rate f) s t p h =
      control_block-ok MoveGenerator.joint_velocity control (some standstill) limit_rate f s t h
  block-ok (control_motion k control motion limit_rate f) s t p h =
      control_block-ok k control motion limit_rate f s t h
  block-ok (control_mode k motion mode limit_rate f) s t p h =
      mode_block-ok k motion mode limit_rate f s t h
  block-ok (read read_callback) s t p h = absurd (cc)
  block-ok read_one s t p h = absurd (cc)

  unlocked-ok :
      {A : Type 0} (p : Result (Exception F) A × Session (Robot N F) U) {a : A}
      {t : Session (Robot N F) U}
      → unlocked p ≡ (ok a, t)
      → (p.0 ≡ ok a) × (p.1.robot.impl ≡ t.robot.impl) × (t.robot.control_mutex ≡ false)
  unlocked-ok (ok a, s) h =
      (ap (λ r. r.0) h, ap (λ r. r.1.robot.impl) h, sym (ap (λ r. r.1.robot.control_mutex) h))
  unlocked-ok (raise x, s) h = absurd (cc)
  unlocked-ok (running, s) h = absurd (cc)

  freed :
      {A : Type 0} (p : Result (Exception F) A × Session (Robot N F) U)
      → (unlocked p).0 ≢ running
      → (unlocked p).1.robot.control_mutex ≡ false
  freed (ok a, s) h = refl
  freed (raise x, s) h = refl
  freed (running, s) h = absurd (h refl)

  -- If an overload of `control` returns, the mutex was free and is free again, and the robot is idle.
  pub call-IsIdle :
      (c : Call F U) (s t : Session (Robot N F) U) {a : Answer c}
      → is_control c ≡ true
      → call fuel rounds cycles system c s ≡ (ok a, t)
      → (s.robot.control_mutex ≡ false) × (t.robot.control_mutex ≡ false) × IsIdle t.robot.impl
  unfolding call with_lock
  call-IsIdle c s t p h =
      let (_, e₁, k₁) = after-eq-ok (try_to_lock s) _ h in
      let u = (try_to_lock s).1 in
      let (was_free, locked) = try_to_lock-ok s u (eq_of_fst (try_to_lock s) e₁) in
      let q = on_impl (block fuel rounds cycles system c) u in
      let (returned, same, is_free) = unlocked-ok q k₁ in
      let ran =
        block fuel rounds cycles system c (record { robot = u.robot.impl; user = u.user }) in
      (was_free, is_free, subst IsIdle same (block-ok c _ ran.1 p (eq_of_fst ran returned)))

  -- An operation that returns or throws leaves the mutex as it was: a free one is free again, whatever
  -- the block threw, and one that is locked by another stays locked.
  pub call-mutex :
      (c : Call F U) (s : Session (Robot N F) U)
      → (call fuel rounds cycles system c s).0 ≢ running
      → (call fuel rounds cycles system c s).1.robot.control_mutex ≡ s.robot.control_mutex
  unfolding call with_lock try_to_lock
  call-mutex c s h = go s.robot.control_mutex refl h
    where
      go :
          (b : Bool)
          → s.robot.control_mutex ≡ b
          → ((throw_if b not_owned >> modify (set_mutex true) >>= λ _ t.
                unlocked (on_impl (block fuel rounds cycles system c) t))
              s).0
            ≢ running
          → ((throw_if b not_owned >> modify (set_mutex true) >>= λ _ t.
                unlocked (on_impl (block fuel rounds cycles system c) t))
              s).1.robot.control_mutex
            ≡ s.robot.control_mutex
      go true e q = refl
      go false e q =
          freed (on_impl (block fuel rounds cycles system c) (set_mutex true s)) q ∙ sym e
