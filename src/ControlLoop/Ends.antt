-- ===== src/ControlLoop/Ends.antt =====
-- A control loop comes to its end when its motion callback finishes the motion.
use mathlib.Core.Path.{subst}
use libfranka.Prelude.{
  ℕ, zero, suc, ◌≤◌, ◌<◌, ◌≡◌, sym, refl, Bool, true, false, Option, none, some, Double, Result, ok,
  raise, running, Method, ◌>>=◌, if◌then◌else◌, arith,
}
use libfranka.Geometry.{Geometry}
use libfranka.LoadCalculations.{Eigen}
use libfranka.Interface.{
  MoveGenerator, MotionGeneratorCommand, ControllerCommand, empty_motion, empty_control,
}
use libfranka.ControlTypes.{Torques}
use libfranka.Exceptions.{Exception}
use libfranka.Duration.{Duration, sub}
use libfranka.RobotState.{RobotState}
use libfranka.ControlLoop.Convert.{Generated}
use libfranka.ControlLoop.Yields.{
  Yields, Yields-after, Yields-unit, fewer, up_to, not_below, Responds, Winds, Keeps,
  Yields-by_robot, next_state-Yields, spin_motion-Yields, spin_control-Yields,
}
use libfranka.ControlLoop.Ending.{Total}
use libfranka.ControlLoop.Loop.{
  RobotControl, ControlLoop, Session, by_robot, spin_motion, spin_control, next_state,
  motion_cycles, control_cycles, cycles_of, run_body, run, rethrow_after, rethrown,
}

module _ {R U F : Type 0} ⦃d : Double F⦄ ⦃g : Geometry F⦄ ⦃e : Eigen F⦄ (k : MoveGenerator)
    (remaining : U → ℕ) where
  module _ ⦃r : RobotControl R F⦄ (responds : Responds r) where
    finish-Yields :
        (id : ℕ) (m : Option (MotionGeneratorCommand F)) (c : Option (ControllerCommand F))
        (s : Session R U)
        → Yields (λ _ t. t.user ≡ s.user) (by_robot (r.finish_motion id m c) s)
    finish-Yields id m c s =
        Yields-by_robot (r.finish_motion id m c) s (responds.finishes id m c s.robot)

    motion_cycles-Yields :
        (cycles : ℕ) (loop : ControlLoop k U F)
        (motion : RobotState F → Duration → Method (Exception F) U (Generated k F))
        (state : RobotState F) (time : Duration) (m : MotionGeneratorCommand F) (s : Session R U)
        → Winds remaining k motion
        → remaining s.user < cycles
        → Yields (λ _ _. Unit {0}) (motion_cycles cycles loop motion state time m s)
    unfolding motion_cycles
    motion_cycles-Yields zero loop motion state time m s winds h =
        elim (not_below (remaining s.user) h) [ ]
    motion_cycles-Yields (suc cycles) loop motion state time m s winds h =
        Yields-after (λ spun t. spun.0 ≡ true → remaining t.user < remaining s.user) _
          (spin_motion loop motion state (sub state.time time) m s) _
          (spin_motion-Yields k remaining loop motion state (sub state.time time) m s winds)
          λ spun u p.
            go spun u p
              λ next c v q. motion_cycles-Yields cycles loop motion next state.time c v winds q
      where
        go :
            (spun : Bool × MotionGeneratorCommand F) (u : Session R U)
            → (spun.0 ≡ true → remaining u.user < remaining s.user)
            → ((next : RobotState F) (c : MotionGeneratorCommand F) (v : Session R U)
                → remaining v.user < cycles
                → Yields (λ _ _. Unit {0}) (motion_cycles cycles loop motion next state.time c v))
            → Yields
                (λ _ _. Unit {0})
                ((if spun.0
                    then (next_state loop.motion_id (some spun.1) none >>= λ next.
                        motion_cycles cycles loop motion next state.time spun.1)
                    else by_robot (r.finish_motion loop.motion_id (some spun.1) none))
                  u)
        go (true, c) u p rest =
            Yields-after (λ _ t. t.user ≡ u.user) _ (next_state loop.motion_id (some c) none u) _
              (next_state-Yields responds loop.motion_id (some c) none u)
              λ next v q.
                rest next c v
                  (subst (λ w. remaining w < cycles) (sym q) (fewer _ _ _ (p refl) (up_to _) h))
        go (false, c) u p rest = Yields-unit _ _ (finish-Yields loop.motion_id (some c) none u)

    -- What a cycle does behind `spin_control`.
    torques-Yields :
        (cycles : ℕ) (loop : ControlLoop k U F)
        (motion : RobotState F → Duration → Method (Exception F) U (Generated k F))
        (control : RobotState F → Duration → Method (Exception F) U (Torques F))
        (state : RobotState F) (m : MotionGeneratorCommand F) (left : ℕ)
        (torques : Bool × ControllerCommand F) (s : Session R U)
        → remaining s.user ≤ left
        → ((next : RobotState F) (c : ControllerCommand F) (t : Session R U)
            → remaining t.user ≤ left
            → Yields
                (λ _ _. Unit {0})
                (control_cycles cycles loop motion control next state.time m c t))
        → Yields
            (λ _ _. Unit {0})
            ((if torques.0
                then (next_state loop.motion_id (some m) (some torques.1) >>= λ next.
                    control_cycles cycles loop motion control next state.time m torques.1)
                else by_robot (r.finish_motion loop.motion_id (some m) (some torques.1)))
              s)
    torques-Yields cycles loop motion control state m left (true, c) s p rest =
        Yields-after (λ _ t. t.user ≡ s.user) _ (next_state loop.motion_id (some m) (some c) s) _
          (next_state-Yields responds loop.motion_id (some m) (some c) s)
          λ next t q. rest next c t (subst (λ w. remaining w ≤ left) (sym q) p)
    torques-Yields cycles loop motion control state m left (false, c) s p rest =
        Yields-unit _ _ (finish-Yields loop.motion_id (some m) (some c) s)

    control_cycles-Yields :
        (cycles : ℕ) (loop : ControlLoop k U F)
        (motion : RobotState F → Duration → Method (Exception F) U (Generated k F))
        (control : RobotState F → Duration → Method (Exception F) U (Torques F))
        (state : RobotState F) (time : Duration) (m : MotionGeneratorCommand F)
        (c : ControllerCommand F) (s : Session R U)
        → Winds remaining k motion
        → Keeps remaining control
        → remaining s.user < cycles
        → Yields (λ _ _. Unit {0}) (control_cycles cycles loop motion control state time m c s)
    unfolding control_cycles
    control_cycles-Yields zero loop motion control state time m c s winds keeps h =
        elim (not_below (remaining s.user) h) [ ]
    control_cycles-Yields (suc cycles) loop motion control state time m c s winds keeps h =
        Yields-after (λ spun t. spun.0 ≡ true → remaining t.user < remaining s.user) _
          (spin_motion loop motion state (sub state.time time) m s) _
          (spin_motion-Yields k remaining loop motion state (sub state.time time) m s winds)
          λ spun u p. go spun u p λ next n x v q.
            control_cycles-Yields cycles loop motion control next state.time n x v winds keeps q
      where
        go :
            (spun : Bool × MotionGeneratorCommand F) (u : Session R U)
            → (spun.0 ≡ true → remaining u.user < remaining s.user)
            → ((next : RobotState F) (n : MotionGeneratorCommand F) (x : ControllerCommand F)
                  (v : Session R U)
                → remaining v.user < cycles
                → Yields
                    (λ _ _. Unit {0})
                    (control_cycles cycles loop motion control next state.time n x v))
            → Yields
                (λ _ _. Unit {0})
                ((if spun.0
                    then (spin_control loop control state (sub state.time time) >>= λ torques.
                        if torques.0
                        then (next_state loop.motion_id (some spun.1) (some torques.1) >>= λ next.
                            control_cycles cycles loop motion control next state.time spun.1
                              torques.1)
                        else by_robot
                            (r.finish_motion loop.motion_id (some spun.1) (some torques.1)))
                    else by_robot (r.finish_motion loop.motion_id (some spun.1) (some c)))
                  u)
        go (true, n) u p rest =
            Yields-after (λ _ t. remaining t.user ≤ remaining u.user) _
              (spin_control loop control state (sub state.time time) u) _
              (spin_control-Yields k remaining loop control state (sub state.time time) u keeps)
              λ torques v q.
                torques-Yields cycles loop motion control state n (remaining u.user) torques v q
                  λ next x w l. rest next n x w (fewer_yet (p refl) l h)
          where
            fewer_yet : {a b l : ℕ} → b < l → a ≤ b → l < suc cycles → a < cycles
            fewer_yet {a} {b} {l} x y z = omega arith
        go (false, n) u p rest = Yields-unit _ _ (finish-Yields loop.motion_id (some n) (some c) u)

    cycles_of-Yields :
        (cycles : ℕ) (loop : ControlLoop k U F)
        (motion : Option (RobotState F → Duration → Method (Exception F) U (Generated k F)))
        (control : Option (RobotState F → Duration → Method (Exception F) U (Torques F)))
        (state : RobotState F) (s : Session R U)
        → ((f : RobotState F → Duration → Method (Exception F) U (Generated k F))
            → motion ≡ some f
            → Winds remaining k f)
        → ((f : RobotState F → Duration → Method (Exception F) U (Torques F))
            → control ≡ some f
            → Keeps remaining f)
        → remaining s.user < cycles
        → Yields (λ _ _. Unit {0}) (cycles_of cycles loop motion control state s)
    unfolding cycles_of
    cycles_of-Yields cycles loop none control state s winds keeps h = tt
    cycles_of-Yields cycles loop (some motion) none state s winds keeps h =
        motion_cycles-Yields cycles loop motion state state.time empty_motion s (winds motion refl)
          h
    cycles_of-Yields cycles loop (some motion) (some control) state s winds keeps h =
        control_cycles-Yields cycles loop motion control state state.time empty_motion empty_control
          s (winds motion refl) (keeps control refl) h

    run_body-Yields :
        (cycles : ℕ) (loop : ControlLoop k U F) (s : Session R U)
        → ((f : RobotState F → Duration → Method (Exception F) U (Generated k F))
            → loop.motion_callback ≡ some f
            → Winds remaining k f)
        → ((f : RobotState F → Duration → Method (Exception F) U (Torques F))
            → loop.control_callback ≡ some f
            → Keeps remaining f)
        → remaining s.user < cycles
        → Yields (λ _ _. Unit {0}) (run_body cycles loop s)
    unfolding run_body
    run_body-Yields cycles loop s winds keeps h =
        Yields-after (λ _ t. t.user ≡ s.user) _ (next_state loop.motion_id none none s) _
          (next_state-Yields responds loop.motion_id none none s)
          λ state t q.
            cycles_of-Yields cycles loop loop.motion_callback loop.control_callback state t winds
              keeps (subst (λ w. remaining w < cycles) (sym q) h)

    rethrow_after-Total :
        (id : ℕ) (body : Result (Exception F) (Unit {0}) × Session R U)
        → Yields (λ _ _. Unit {0}) body
        → Total (rethrow_after (by_robot (r.cancel_motion id)) body).0
    rethrow_after-Total id (ok _, s) h = λ q. absurd (cc)
    rethrow_after-Total id (raise x, s) h =
        go (r.cancel_motion id s.robot) (responds.cancels id s.robot)
      where
        go :
            (p : Result (Exception F) (Unit {0}) × R)
            → Total p.0
            → Total (rethrown {A = Unit {0}} x (p.0, record s { robot = p.1 })).0
        go (ok _, t) q = λ e. absurd (cc)
        go (raise y, t) q = λ e. absurd (cc)
        go (running, t) q = absurd (q refl)
    rethrow_after-Total id (running, s) h = elim h [ ]

    -- Let each call of the robot return or throw, the callbacks too, let the motion callback take from
    -- what remains in the user's state whenever it does not finish the motion, and the control callback
    -- add nothing to it. Then a control loop with more cycles than what remains returns or throws.
    pub run-Total :
        (cycles : ℕ) (loop : ControlLoop k U F) (s : Session R U)
        → ((f : RobotState F → Duration → Method (Exception F) U (Generated k F))
            → loop.motion_callback ≡ some f
            → Winds remaining k f)
        → ((f : RobotState F → Duration → Method (Exception F) U (Torques F))
            → loop.control_callback ≡ some f
            → Keeps remaining f)
        → remaining s.user < cycles
        → Total (run cycles loop s).0
    unfolding run
    run-Total cycles loop s winds keeps h =
        rethrow_after-Total loop.motion_id (run_body cycles loop s)
          (run_body-Yields cycles loop s winds keeps h)
