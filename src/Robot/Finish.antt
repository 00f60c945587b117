-- ===== src/Robot/Finish.antt =====
-- How `finishMotion` and `cancelMotion` leave the object.
use libfranka.Prelude.{
  ℕ, zero, suc, ◌≡◌, inl, inr, refl, ap, true, false, Option, none, some, Double, ok, after-eq-ok,
  eq_of_fst, Bool-cases,
}
use libfranka.Interface.{
  Command, MotionGeneratorMode, ControllerMode, MotionGeneratorCommand, ControllerCommand, Response,
  stop_move,
}
use libfranka.Interface.Status
use libfranka.LoadCalculations.{Eigen}
use libfranka.RobotState.{RobotState, empty_robot_state}
use libfranka.Robot.State.{Network, Impl, on_network}
use libfranka.Robot.Channel.{update, receive_robot_state}
use libfranka.Robot.Commands.{execute_command, flush_logger}
use libfranka.Robot.Errors.{conclude-ok}
use libfranka.Robot.Motions.{
  as_control, is_running, set_current_move, finish_loop, finish_status, finish_running,
  finish_motion, cancel_loop, cancel_motion,
}

module _ {N F : Type 0} where
  -- No motion is under way, for the robot and for the library.
  abbrev pub IsIdle : Impl N F → Type 0
  IsIdle s =
      (is_running s ≡ false)
      × (s.current_move_motion_generator_mode ≡ MotionGeneratorMode.idle)
      × (s.current_move_controller_mode ≡ ControllerMode.other)

  abbrev idled : Impl N F → Impl N F
  idled = set_current_move MotionGeneratorMode.idle ControllerMode.other

  IsIdle-idled : (s t : Impl N F) → is_running s ≡ false → idled s ≡ t → IsIdle t
  IsIdle-idled s t h e = rw (← e) (h, refl, refl)

module _ {N F : Type 0} ⦃d : Double F⦄ ⦃n : Network N F⦄ where
  finish_status-ok :
      (last : RobotState F) (r : Response) (status : Status.Move) (s t : Impl N F)
      → is_running s ≡ false
      → finish_status last r status s ≡ (ok tt, t)
      → IsIdle t
  unfolding finish_status flush_logger
  finish_status-ok last r Status.Move.reflex_aborted s t h e = absurd (cc)
  finish_status-ok last r _ s t h e =
      IsIdle-idled s t h (ap (λ p. p.1) (conclude-ok last.last_motion_errors r _ s t e))

  module _ ⦃e : Eigen F⦄ where
    finish_loop-stops :
        (fuel rounds : ℕ) (m : MotionGeneratorCommand F) (c : Option (ControllerCommand F))
        (last : RobotState F) (s t : Impl N F) {b : RobotState F}
        → finish_loop fuel rounds m c last s ≡ (ok b, t)
        → is_running t ≡ false
    unfolding finish_loop
    finish_loop-stops fuel zero m c last s t h = absurd (cc)
    finish_loop-stops fuel (suc rounds) m c last s t h = elim (Bool-cases (is_running s)) [
      | inl going ↦
          let (a, e, k) = after-eq-ok (update fuel (some m) c s) _ (rw going at h) in
          finish_loop-stops fuel rounds m c a (update fuel (some m) c s).1 t k
      | inr done ↦ let k = rw done at h in rw (← ap (λ p. p.1) k) done
    ]

    finish_running-ok :
        (fuel rounds id : ℕ) (m : Option (MotionGeneratorCommand F))
        (c : Option (ControllerCommand F)) (s t : Impl N F)
        → finish_running fuel rounds id m c s ≡ (ok tt, t)
        → IsIdle t
    unfolding finish_running
    finish_running-ok fuel rounds id none c s t h = absurd (cc)
    finish_running-ok fuel rounds id (some m) c s t h =
        let start = record m { motion_generation_finished = true } in
        let (last, e₁, k₁) =
          after-eq-ok (finish_loop fuel rounds start c empty_robot_state s) _ h in
        let u = (finish_loop fuel rounds start c empty_robot_state s).1 in
        let stopped =
          finish_loop-stops fuel rounds start c empty_robot_state s u
            (eq_of_fst (finish_loop fuel rounds start c empty_robot_state s) e₁) in
        let (r, e₂, k₂) =
          after-eq-ok (on_network (n.tcp_blocking_receive_response Command.move id) u) _ k₁ in
        finish_status-ok last r (Status.move r.status)
          (on_network (n.tcp_blocking_receive_response Command.move id) u).1 t stopped k₂

    -- If `finishMotion` returns, neither a motion generator nor the external controller runs, and the
    -- library expects no motion any more.
    pub finish_motion-IsIdle :
        (fuel rounds id : ℕ) (m : Option (MotionGeneratorCommand F))
        (c : Option (ControllerCommand F)) (s t : Impl N F)
        → finish_motion fuel rounds id m c s ≡ (ok tt, t)
        → IsIdle t
    unfolding finish_motion
    finish_motion-IsIdle fuel rounds id m c s t h = elim (Bool-cases (is_running s)) [
      | inl going ↦ finish_running-ok fuel rounds id m c s t (rw going at h)
      | inr done ↦ IsIdle-idled s t done (ap (λ p. p.1) (rw done at h))
    ]

  cancel_loop-stops :
      (fuel rounds : ℕ) (s t : Impl N F)
      → cancel_loop fuel rounds s ≡ (ok tt, t)
      → is_running t ≡ false
  unfolding cancel_loop
  cancel_loop-stops fuel zero s t h = absurd (cc)
  cancel_loop-stops fuel (suc rounds) s t h =
      let (a, e, k) = after-eq-ok (receive_robot_state fuel s) _ h in
      let u = (receive_robot_state fuel s).1 in
      elim (Bool-cases (is_running u)) [
        | inl going ↦ cancel_loop-stops fuel rounds u t (rw going at k)
        | inr done ↦ rw (← ap (λ p. p.1) (rw done at k)) done
      ]

  -- If `cancelMotion` returns, neither a motion generator nor the external controller runs, and the
  -- library expects no motion any more.
  pub cancel_motion-IsIdle :
      (fuel rounds id : ℕ) (s t : Impl N F) → cancel_motion fuel rounds id s ≡ (ok tt, t) → IsIdle t
  unfolding cancel_motion
  cancel_motion-IsIdle fuel rounds id s t h =
      let (i, e₁, k₁) =
        after-eq-ok ((as_control (execute_command stop_move s).0, (execute_command stop_move s).1))
          _ h in
      let u = (execute_command stop_move s).1 in
      let (j, e₂, k₂) = after-eq-ok (cancel_loop fuel rounds u) _ k₁ in
      let v = (cancel_loop fuel rounds u).1 in
      let stopped = cancel_loop-stops fuel rounds u v (eq_of_fst (cancel_loop fuel rounds u) e₂) in
      let (x, e₃, k₃) =
        after-eq-ok (on_network (n.tcp_receive_response Command.move id (λ _. ok tt)) v) _ k₂ in
      IsIdle-idled (on_network (n.tcp_receive_response Command.move id (λ _. ok tt)) v).1 t stopped
        (ap (λ p. p.1) k₃)
