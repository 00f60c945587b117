-- ===== src/ControlLoop/Cancels.antt =====
-- How a control loop leaves the robot: it is idle after a return, and cancelled after an exception.
use mathlib.Core.Path.{subst}
use libfranka.Prelude.{
  ℕ, zero, suc, ◌≡◌, ◌≢◌, refl, ap, inl, inr, Option, none, some, Double, Result, ok, raise,
  running, Method, after-eq-ok, Bool-cases, branch_true, branch_false,
}
use libfranka.Geometry.{Geometry}
use libfranka.LoadCalculations.{Eigen}
use libfranka.Interface.{
  MoveGenerator, MotionGeneratorCommand, ControllerCommand, empty_motion, empty_control,
}
use libfranka.ControlTypes.{Torques}
use libfranka.Exceptions.{Exception}
use libfranka.Duration.{Duration, sub}
use libfranka.RobotState.{RobotState}
use libfranka.ControlLoop.Convert.{Generated}
use libfranka.ControlLoop.Loop.{
  RobotControl, ControlLoop, Session, by_robot, rethrown, rethrow_after, spin_motion, spin_control,
  next_state, motion_cycles, control_cycles, cycles_of, run_body, run,
}

-- What a robot promises to the loop: after `finishMotion` and after `cancelMotion` it is idle.
pub record Promises {R F : Type 0} (r : RobotControl R F) (Idle : R → Type 0) : Type 0 where
  pub finished :
      (id : ℕ) (m : Option (MotionGeneratorCommand F)) (c : Option (ControllerCommand F)) (s t : R)
      → r.finish_motion id m c s ≡ (ok tt, t)
      → Idle t
  pub cancelled : (id : ℕ) (s t : R) → r.cancel_motion id s ≡ (ok tt, t) → Idle t

module _ {R U F : Type 0} ⦃r : RobotControl R F⦄ (Idle : R → Type 0)
    (promise : Promises r Idle) where
  by_robot-finished :
      (id : ℕ) (m : Option (MotionGeneratorCommand F)) (c : Option (ControllerCommand F))
      (s t : Session R U)
      → by_robot (r.finish_motion id m c) s ≡ (ok tt, t)
      → Idle t.robot
  by_robot-finished id m c s t h =
      promise.finished id m c s.robot t.robot (ap (λ p. (p.0, p.1.robot)) h)

  -- What `throw;` behind the handler shows of the handler's call of `cancelMotion`.
  rethrown-cancelled :
      (id : ℕ) (x y : Exception F) (u t : Session R U) (c : Result (Exception F) (Unit {0})) (v : R)
      → r.cancel_motion id u.robot ≡ (c, v)
      → ◌≡◌ {A = Result (Exception F) (Unit {0}) × Session R U}
          (rethrown x (c, record u { robot = v }))
          (raise y, t)
      → (x ≡ y) × (c ≢ running) × (v ≡ t.robot) × (c ≡ ok tt → Idle t.robot)
  rethrown-cancelled id x y u t (ok _) v e h =
      let same : v ≡ t.robot = ap (λ p. p.1.robot) h in
      (
        raised h,
        (λ p. absurd (cc)),
        same,
        (λ _. subst Idle same (promise.cancelled id u.robot v e)),
      )
    where
      raised :
          {S A : Type 0} {a b : S}
          → ◌≡◌ {A = Result (Exception F) A × S} (raise x, a) (raise y, b)
          → x ≡ y
      raised q = cc
  rethrown-cancelled id x y u t (raise z) v e h =
      (raised h, (λ p. absurd (cc)), ap (λ p. p.1.robot) h, (λ p. absurd (cc)))
    where
      raised :
          {S A : Type 0} {a b : S}
          → ◌≡◌ {A = Result (Exception F) A × S} (raise x, a) (raise y, b)
          → x ≡ y
      raised q = cc
  rethrown-cancelled id x y u t running v e h = absurd (cc)

  -- What `rethrow_after` returns or throws.
  rethrow_after-ok :
      (id : ℕ) (body : Result (Exception F) (Unit {0}) × Session R U) (t : Session R U)
      → rethrow_after (by_robot (r.cancel_motion id)) body ≡ (ok tt, t)
      → body ≡ (ok tt, t)
  rethrow_after-ok id (ok _, u) t h = h
  rethrow_after-ok id (raise x, u) t h =
      absurd (rethrown_raises x (by_robot (r.cancel_motion id) u) h)
    where
      rethrown_raises :
          (x : Exception F) (p : Result (Exception F) (Unit {0}) × Session R U)
          → ◌≡◌ {A = Result (Exception F) (Unit {0}) × Session R U} (rethrown x p) (ok tt, t)
          → ⊥
      rethrown_raises x (ok _, v) q = absurd (cc)
      rethrown_raises x (raise _, v) q = absurd (cc)
      rethrown_raises x (running, v) q = absurd (cc)
  rethrow_after-ok id (running, u) t h = absurd (cc)

  rethrow_after-raise :
      (id : ℕ) (body : Result (Exception F) (Unit {0}) × Session R U) (y : Exception F)
      (t : Session R U)
      → rethrow_after (by_robot (r.cancel_motion id)) body ≡ (raise y, t)
      → (u : Session R U) × (c : Result (Exception F) (Unit {0})) × (body ≡ (raise y, u))
        × (r.cancel_motion id u.robot ≡ (c, t.robot))
        × (c ≢ running)
        × (c ≡ ok tt → Idle t.robot)
  rethrow_after-raise id (ok _, u) y t h = absurd (cc)
  rethrow_after-raise id (raise x, u) y t h =
      let c = (r.cancel_motion id u.robot).0 in
      let (same, stops, robot, idle) =
        rethrown-cancelled id x y u t c (r.cancel_motion id u.robot).1 refl h in
      (u, c, ap (λ z. (raise z, u)) same, ap (λ v. (c, v)) robot, stops, idle)
  rethrow_after-raise id (running, u) y t h = absurd (cc)

  module _ ⦃d : Double F⦄ ⦃g : Geometry F⦄ ⦃e : Eigen F⦄ {k : MoveGenerator} where
    motion_cycles-ok :
        (cycles : ℕ) (loop : ControlLoop k U F)
        (motion : RobotState F → Duration → Method (Exception F) U (Generated k F))
        (state : RobotState F) (time : Duration) (m : MotionGeneratorCommand F) (s t : Session R U)
        → motion_cycles cycles loop motion state time m s ≡ (ok tt, t)
        → Idle t.robot
    unfolding motion_cycles
    motion_cycles-ok zero loop motion state time m s t h = absurd (cc)
    motion_cycles-ok (suc cycles) loop motion state time m s t h =
        let spin = spin_motion loop motion state (sub state.time time) m in
        let (spun, e₁, k₁) = after-eq-ok (spin s) _ h in
        let u = (spin s).1 in
        elim (Bool-cases spun.0) [
          | inl more ↦
              let go = branch_true spun.0 _ _ u more k₁ in
              let (next, e₂, k₂) =
                after-eq-ok (next_state loop.motion_id (some spun.1) none u) _ go in
              motion_cycles-ok cycles loop motion next state.time spun.1
                (next_state loop.motion_id (some spun.1) none u).1 t k₂
          | inr last ↦
              by_robot-finished loop.motion_id (some spun.1) none u t
                (branch_false spun.0 _ _ u last k₁)
        ]

    control_cycles-ok :
        (cycles : ℕ) (loop : ControlLoop k U F)
        (motion : RobotState F → Duration → Method (Exception F) U (Generated k F))
        (control : RobotState F → Duration → Method (Exception F) U (Torques F))
        (state : RobotState F) (time : Duration) (m : MotionGeneratorCommand F)
        (c : ControllerCommand F) (s t : Session R U)
        → control_cycles cycles loop motion control state time m c s ≡ (ok tt, t)
        → Idle t.robot
    unfolding control_cycles
    control_cycles-ok zero loop motion control state time m c s t h = absurd (cc)
    control_cycles-ok (suc cycles) loop motion control state time m c s t h =
        let spin = spin_motion loop motion state (sub state.time time) m in
        let (spun, e₁, k₁) = after-eq-ok (spin s) _ h in
        let u = (spin s).1 in
        elim (Bool-cases spun.0) [
          | inl more ↦
              let go = branch_true spun.0 _ _ u more k₁ in
              let (torques, e₂, k₂) =
                after-eq-ok (spin_control loop control state (sub state.time time) u) _ go in
              let v = (spin_control loop control state (sub state.time time) u).1 in
              elim (Bool-cases torques.0) [
                | inl more' ↦
                    let go' = branch_true torques.0 _ _ v more' k₂ in
                    let (next, e₃, k₃) =
                      after-eq-ok (next_state loop.motion_id (some spun.1) (some torques.1) v) _
                        go' in
                    control_cycles-ok cycles loop motion control next state.time spun.1 torques.1
                      (next_state loop.motion_id (some spun.1) (some torques.1) v).1 t k₃
                | inr last ↦
                    by_robot-finished loop.motion_id (some spun.1) (some torques.1) v t
                      (branch_false torques.0 _ _ v last k₂)
              ]
          | inr last ↦
              by_robot-finished loop.motion_id (some spun.1) (some c) u t
                (branch_false spun.0 _ _ u last k₁)
        ]

    cycles_of-ok :
        (cycles : ℕ) (loop : ControlLoop k U F)
        (motion : Option (RobotState F → Duration → Method (Exception F) U (Generated k F)))
        (control : Option (RobotState F → Duration → Method (Exception F) U (Torques F)))
        (state : RobotState F) (s t : Session R U)
        → cycles_of cycles loop motion control state s ≡ (ok tt, t)
        → Idle t.robot
    unfolding cycles_of
    cycles_of-ok cycles loop none control state s t h = absurd (cc)
    cycles_of-ok cycles loop (some motion) none state s t h =
        motion_cycles-ok cycles loop motion state state.time empty_motion s t h
    cycles_of-ok cycles loop (some motion) (some control) state s t h =
        control_cycles-ok cycles loop motion control state state.time empty_motion empty_control s t
          h

    run_body-ok :
        (cycles : ℕ) (loop : ControlLoop k U F) (s t : Session R U)
        → run_body cycles loop s ≡ (ok tt, t)
        → Idle t.robot
    unfolding run_body
    run_body-ok cycles loop s t h =
        let (state, e₁, k₁) = after-eq-ok (next_state loop.motion_id none none s) _ h in
        cycles_of-ok cycles loop loop.motion_callback loop.control_callback state
          (next_state loop.motion_id none none s).1 t k₁

    -- If a control loop over a robot that keeps its promises returns, the robot is idle.
    pub run-Idle :
        (cycles : ℕ) (loop : ControlLoop k U F) (s t : Session R U)
        → run cycles loop s ≡ (ok tt, t)
        → Idle t.robot
    unfolding run
    run-Idle cycles loop s t h =
        run_body-ok cycles loop s t (rethrow_after-ok loop.motion_id (run_body cycles loop s) t h)

    -- If a control loop throws, its body threw the same exception in a state in which `cancelMotion`
    -- was then called for the motion; that call came to its end, the robot is as it left it, and is
    -- idle unless the call threw as well.
    pub run-cancelled :
        (cycles : ℕ) (loop : ControlLoop k U F) (s t : Session R U) (x : Exception F)
        → run cycles loop s ≡ (raise x, t)
        → (u : Session R U) × (c : Result (Exception F) (Unit {0})) × (run_body cycles loop s
            ≡ (raise x, u))
          × (r.cancel_motion loop.motion_id u.robot ≡ (c, t.robot))
          × (c ≢ running)
          × (c ≡ ok tt → Idle t.robot)
    unfolding run
    run-cancelled cycles loop s t x h =
        rethrow_after-raise loop.motion_id (run_body cycles loop s) x t h
