-- ===== src/Robot/Start.antt =====
-- How `startMotion` leaves the object.
use mathlib.Core.Path.{subst}
use libfranka.Prelude.{
  ℕ, zero, suc, ◌≡◌, ◌⊎◌, inl, inr, refl, sym, ap, ◌∙◌, Bool, true, false, none, Double, Result, ok,
  after-eq-ok, after-keeps, eq_of_fst, Bool-cases, ◌>>=◌, ◌>>◌, pure, if◌then◌else◌,
}
use libfranka.Interface.{
  Request, command_of, WireState, MoveController, MoveGenerator, Deviation, move,
}
use libfranka.Exceptions.{Exception}
use libfranka.LoadCalculations.{Eigen}
use libfranka.RobotState.{RobotState}
use libfranka.Logger.{flush}
use libfranka.Robot.State.{Network, Impl, on_network, update_state}
use libfranka.Robot.Channel.{update, send_robot_command, receive_robot_state}
use libfranka.Robot.Commands.{execute_command, handle, flush_logger}
use libfranka.Robot.Receive.{receive_robot_state-newer, returned_state, returned_value}
use libfranka.Robot.Motions.{
  started, is_running, running_generator, running_controller, set_current_move, poll_response,
  start_loop, start_motion,
}

module _ {N F : Type 0} where
  -- `t` expects the motion that `s` expects.
  abbrev pub SameMove : Impl N F → Impl N F → Type 0
  SameMove s t =
      (t.current_move_motion_generator_mode ≡ s.current_move_motion_generator_mode)
      × (t.current_move_controller_mode ≡ s.current_move_controller_mode)

  SameMove-trans : (s t u : Impl N F) → SameMove s t → SameMove t u → SameMove s u
  SameMove-trans s t u p q = (q.0 ∙ p.0, q.1 ∙ p.1)

module _ {N F : Type 0} ⦃d : Double F⦄ ⦃n : Network N F⦄ where
  execute_command-SameMove :
      (request : Request F) (s : Impl N F) → SameMove s (execute_command request s).1
  unfolding execute_command handle
  execute_command-SameMove request s =
      after-keeps (SameMove s) (on_network (n.tcp_send_request request) s) _ (refl, refl)
        λ id.
          after-keeps (SameMove s)
            (on_network (n.tcp_blocking_receive_response (command_of request) id)
              (on_network (n.tcp_send_request request) s).1)
            _ (refl, refl)
            λ r.
              after-keeps (SameMove s)
                (handle request r
                  (on_network (n.tcp_blocking_receive_response (command_of request) id)
                    (on_network (n.tcp_send_request request) s).1).1)
                _ (refl, refl) λ _. (refl, refl)

  receive_robot_state-SameMove :
      (fuel : ℕ) (s t : Impl N F) {w : WireState F}
      → receive_robot_state fuel s ≡ (ok w, t)
      → SameMove s t
  unfolding update_state
  receive_robot_state-SameMove fuel s t {w} h =
      let e = (receive_robot_state-newer fuel s t w h).1 in
      (
        ap (λ (x : Impl N F). x.current_move_motion_generator_mode) e,
        ap (λ (x : Impl N F). x.current_move_controller_mode) e,
      )

  -- A call of `update(nullptr, nullptr)` that returns.
  module _ ⦃e : Eigen F⦄ where
    update_idle-SameMove :
        (fuel : ℕ) (s t : Impl N F) {b : RobotState F}
        → update fuel none none s ≡ (ok b, t)
        → SameMove s t
    unfolding update send_robot_command
    update_idle-SameMove fuel s t h =
        let (_, e₁, k₁) = after-eq-ok (on_network n.tcp_throw_if_connection_closed s) _ h in
        let u = (on_network n.tcp_throw_if_connection_closed s).1 in
        let (w, e₂, k₂) = after-eq-ok (receive_robot_state fuel u) _ k₁ in
        let v = (receive_robot_state fuel u).1 in
        let same =
          receive_robot_state-SameMove fuel u v (eq_of_fst (receive_robot_state fuel u) e₂) in
        let done = ap (λ p. p.1) k₂ in
        (
          ap (λ (x : Impl N F). x.current_move_motion_generator_mode) (sym done) ∙ same.0,
          ap (λ (x : Impl N F). x.current_move_controller_mode) (sym done) ∙ same.1,
        )

    -- The robot runs the motion, or a response to the `Move` was handled without an exception.
    abbrev pub HasBegun : Request F → ℕ → Impl N F → Type 0
    HasBegun request id t =
        (started t ≡ true) ⊎ ((u : Impl N F) × (poll_response request id u ≡ (ok true, t)))

    -- A round of the loop behind `tcpReceiveResponse`, given what the rounds after it do.
    start_round-ok :
        (fuel rounds : ℕ) (request : Request F) (id : ℕ) (s t : Impl N F) (received : Bool)
        → ((v : Impl N F)
            → start_loop fuel rounds request id v ≡ (ok tt, t)
            → SameMove v t × HasBegun request id t)
        → poll_response request id s ≡ (ok received, (poll_response request id s).1)
        → (if received
              then pure tt
              else (update fuel none none >>= λ _. start_loop fuel rounds request id))
            (poll_response request id s).1
          ≡ (ok tt, t)
        → SameMove s t × HasBegun request id t
    unfolding poll_response
    start_round-ok fuel rounds request id s t true ih polled h =
        let done : (poll_response request id s).1 ≡ t = ap (λ p. p.1) h in
        (
          (
            ap (λ (x : Impl N F). x.current_move_motion_generator_mode) (sym done),
            ap (λ (x : Impl N F). x.current_move_controller_mode) (sym done),
          ),
          inr (s, rw (← done) polled),
        )
    start_round-ok fuel rounds request id s t false ih polled h =
        let u = (poll_response request id s).1 in
        let (b, e₁, k₁) = after-eq-ok (update fuel none none u) _ h in
        let v = (update fuel none none u).1 in
        let same = update_idle-SameMove fuel u v (eq_of_fst (update fuel none none u) e₁) in
        let (rest, begun) = ih v k₁ in (SameMove-trans s v t same rest, begun)

    start_loop-ok :
        (fuel rounds : ℕ) (request : Request F) (id : ℕ) (s t : Impl N F)
        → start_loop fuel rounds request id s ≡ (ok tt, t)
        → SameMove s t × HasBegun request id t
    unfolding start_loop
    start_loop-ok fuel zero request id s t h = absurd (cc)
    start_loop-ok fuel (suc rounds) request id s t h = elim (Bool-cases (started s)) [
      | inl now ↦
          let done : s ≡ t = ap (λ p. p.1) (rw now at h) in
          (
            (
              ap (λ (x : Impl N F). x.current_move_motion_generator_mode) (sym done),
              ap (λ (x : Impl N F). x.current_move_controller_mode) (sym done),
            ),
            inl (rw (← done) now),
          )
      | inr wait ↦
          let (received, e₁, k₁) = after-eq-ok (poll_response request id s) _ (rw wait at h) in
          start_round-ok fuel rounds request id s t received
            (λ v. start_loop-ok fuel rounds request id v t)
            (eq_of_fst (poll_response request id s) e₁) k₁
    ]

    -- What `startMotion` does behind its guard.
    start_rest-ok :
        (fuel rounds : ℕ) (request : Request F) (s t : Impl N F) {id : ℕ}
        → (do
          move_command_id ← execute_command request
          start_loop fuel rounds request move_command_id
          flushed ← flush_logger
          pure move_command_id)
            s
          ≡ (ok id, t)
        → SameMove s t
          × (t.logger.ring_size ≡ 0)
          × ((u : Impl N F) × HasBegun request id u × (t ≡ (flush_logger u).1))
    unfolding flush_logger flush
    start_rest-ok fuel rounds request s t {id = id} h =
        let (i, e₁, k₁) = after-eq-ok (execute_command request s) _ h in
        let u = (execute_command request s).1 in
        let (_, e₂, k₂) = after-eq-ok (start_loop fuel rounds request i u) _ k₁ in
        let v = (start_loop fuel rounds request i u).1 in
        let (same, begun) =
          start_loop-ok fuel rounds request i u v
            (eq_of_fst (start_loop fuel rounds request i u) e₂) in
        let all = SameMove-trans s u v (execute_command-SameMove request s) same in
        let k₃ : ◌≡◌ {A = Result (Exception F) ℕ × Impl N F} (ok i, (flush_logger v).1) (ok id, t) =
          k₂ in
        let done = returned_state k₃ in
        (
          (
            ap (λ (x : Impl N F). x.current_move_motion_generator_mode) (sym done) ∙ all.0,
            ap (λ (x : Impl N F). x.current_move_controller_mode) (sym done) ∙ all.1,
          ),
          ap (λ (x : Impl N F). x.logger.ring_size) (sym done),
          (v, subst (λ x. HasBegun request x v) (returned_value k₃) begun, sym done),
        )

    -- If `startMotion` returns a command id, then nothing ran before, the library expects the motion
    -- and the controller that were asked for, the log is empty, and the loop ended in a state in which
    -- the robot runs that motion or a response to this `Move` was handled without an exception.
    pub start_motion-ok :
        (fuel rounds : ℕ) (controller : MoveController) (generator : MoveGenerator)
        (path goal : Deviation F) (s t : Impl N F) {id : ℕ}
        → start_motion fuel rounds controller generator path goal s ≡ (ok id, t)
        → (is_running s ≡ false)
          × (t.current_move_motion_generator_mode ≡ running_generator generator)
          × (t.current_move_controller_mode ≡ running_controller controller)
          × (t.logger.ring_size ≡ 0)
          × ((u : Impl N F) × HasBegun (move controller generator path goal) id u
              × (t ≡ (flush_logger u).1))
    unfolding start_motion
    start_motion-ok fuel rounds controller generator path goal s t h =
        elim (Bool-cases (is_running s)) [
          | inl going ↦ absurd (let k = rw going at h in cc)
          | inr quiet ↦
              let request : Request F = move controller generator path goal in
              let armed =
                set_current_move (running_generator generator) (running_controller controller) s in
              let (same, empty, begun) =
                start_rest-ok fuel rounds request armed t (rw quiet at h) in
              (quiet, same.0, same.1, empty, begun)
        ]
