-- ===== src/ActiveControl/Reads.antt =====
-- The calls of `readOnce` of `Robot::Impl` and of `ActiveControl`.
use mathlib.Core.Path.{subst}
use libfranka.Prelude.{
  ℕ, zero, suc, ◌≡◌, ◌<◌, ◌∙◌, refl, sym, ap, Option, none, some, Double, Result, ok, pure,
  after-eq-ok, eq_of_fst,
}
use libfranka.Interface.{WireState}
use libfranka.Exceptions.{Exception}
use libfranka.LoadCalculations.{Eigen}
use libfranka.RobotState
use libfranka.RobotState.{RobotState, convert_robot_state}
use libfranka.Duration.{Duration}
use libfranka.Robot.{
  Network, Impl, on_network, on_datagram, discard, receive_robot_state, read_once,
  throw_on_motion_error, update_state,
}
use libfranka.Robot.Receive.{
  SameButNetwork, same_of_eq, same_trans, returned_state, returned_value, receive_robot_state-newer,
}
use libfranka.Robot.Errors.{throw_on_motion_error-ok}
use libfranka.ActiveControl.{ActiveControl, on_robot, time_since, active_read_once}

module _ {N F : Type 0} ⦃d : Double F⦄ ⦃n : Network N F⦄ where
  discard_round :
      (fuel : ℕ) (u t : Impl N F) (received : Option (WireState F))
      → (discard fuel u ≡ (ok tt, t) → SameButNetwork u t)
      → on_datagram (pure tt) (λ _. discard fuel) received u ≡ (ok tt, t)
      → SameButNetwork u t
  discard_round fuel u t none ih h = same_of_eq u t (returned_state h)
  discard_round fuel u t (some r) ih h = ih h

  discard-ok : (fuel : ℕ) (s t : Impl N F) → discard fuel s ≡ (ok tt, t) → SameButNetwork s t
  unfolding discard
  discard-ok zero s t h = absurd (cc)
  discard-ok (suc fuel) s t h =
      let (received, e, k) = after-eq-ok (on_network n.udp_receive s) _ h in
      let u = (on_network n.udp_receive s).1 in
      same_trans s u t refl (discard_round fuel u t received (discard-ok fuel u t) k)

  module _ ⦃e : Eigen F⦄ where
    -- What `Robot::Impl::readOnce` returns and how it leaves the object.
    abbrev pub IsRead : Impl N F → RobotState F → Impl N F → Type 0
    IsRead s r t =
        (w : WireState F) × (r ≡ convert_robot_state w)
        × (s.message_id < w.message_id)
        × (t.message_id ≡ w.message_id)
        × (t.current_state ≡ r)

    read_once-ok :
        (fuel : ℕ) (s t : Impl N F) {r : RobotState F} → read_once fuel s ≡ (ok r, t) → IsRead s r t
    unfolding read_once update_state
    read_once-ok fuel s t {r = r} h =
        let (_, e₁, k₁) = after-eq-ok (discard fuel s) _ h in
        let u = (discard fuel s).1 in
        let kept = discard-ok fuel s u (eq_of_fst (discard fuel s) e₁) in
        let (w, e₂, k₂) = after-eq-ok (receive_robot_state fuel u) _ k₁ in
        let v = (receive_robot_state fuel u).1 in
        let (newer, same) =
          receive_robot_state-newer fuel u v w (eq_of_fst (receive_robot_state fuel u) e₂) in
        let k₃ : ◌≡◌ {A = Result (Exception F) (RobotState F) × Impl N F}
            (ok (convert_robot_state w), record v { current_state = convert_robot_state w })
            (ok r, t) =
          k₂ in
        let back = sym (returned_value k₃) in
        let done = sym (returned_state k₃) in
        (
          w,
          back,
          subst (λ k. k < w.message_id) (ap (λ (x : Impl N F). x.message_id) kept) newer,
          ap (λ (x : Impl N F). x.message_id) done ∙ ap (λ (x : Impl N F). x.message_id) same,
          ap (λ (x : Impl N F). x.current_state) done ∙ sym back,
        )

    -- If `ActiveControl::readOnce` returns, then it returns a state that it converted from one with a
    -- greater message id than the last accepted one; the robot is moving, with the motion generator and
    -- the controller that were started; the time beside the state is the one since the read before, or
    -- zero at the first, and the time of the state is kept for the next read.
    pub active_read_once-ok :
        (fuel : ℕ) (s t : ActiveControl N F) {r : RobotState F} {step : Duration}
        → active_read_once fuel s ≡ (ok (r, step), t)
        → IsRead s.robot_impl r t.robot_impl
          × (r.robot_mode ≡ RobotState.move)
          × (t.robot_impl.motion_generator_mode ≡ t.robot_impl.current_move_motion_generator_mode)
          × (t.robot_impl.controller_mode ≡ t.robot_impl.current_move_controller_mode)
          × (step ≡ time_since s.last_read_access r.time)
          × (t.last_read_access ≡ some r.time)
    unfolding active_read_once
    active_read_once-ok fuel s t {r = r} {step = step} h =
        let (a, e₁, k₁) = after-eq-ok (on_robot (read_once fuel) s) _ h in
        let u = (read_once fuel s.robot_impl).1 in
        let read = read_once-ok fuel s.robot_impl u (eq_of_fst (read_once fuel s.robot_impl) e₁) in
        let (_, e₂, k₂) =
          after-eq-ok (on_robot (throw_on_motion_error a s.motion_id) (record s { robot_impl = u }))
            _ k₁ in
        let v = (throw_on_motion_error a s.motion_id u).1 in
        let (moves, g, c, same) =
          (throw_on_motion_error-ok a s.motion_id u v).0
            (eq_of_fst (throw_on_motion_error a s.motion_id u) e₂) in
        let k₃ : ◌≡◌ {A = Result (Exception F) (RobotState F × Duration) × ActiveControl N F}
            (
              ok (a, time_since s.last_read_access a.time),
              record s { robot_impl = v; last_read_access = some a.time },
            )
            (ok (r, step), t) =
          k₂ in
        let values = returned_value k₃ in
        let back : a ≡ r = ap (λ p. p.0) values in
        let done = returned_state k₃ in
        let robot : u ≡ t.robot_impl =
          sym same ∙ ap (λ (x : ActiveControl N F). x.robot_impl) done in
        (
          subst (λ x. IsRead s.robot_impl r x) robot
              (subst (λ x. IsRead s.robot_impl x u) back read),
          subst (λ (x : RobotState F). x.robot_mode ≡ RobotState.move) back moves,
          subst (λ (x : Impl N F). x.motion_generator_mode ≡ x.current_move_motion_generator_mode)
              robot g,
          subst (λ (x : Impl N F). x.controller_mode ≡ x.current_move_controller_mode) robot c,
          sym (ap (λ p. p.1) values)
              ∙ ap (λ (x : RobotState F). time_since s.last_read_access x.time) back,
          sym (ap (λ (x : ActiveControl N F). x.last_read_access) done)
              ∙ ap (λ (x : RobotState F). some x.time) back,
        )
