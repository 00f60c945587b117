-- ===== src/Robot/Returns.antt =====
-- `cancelMotion` on a connection that delivers states and answers: it returns.
use libfranka.Prelude.{
  ℕ, zero, suc, ◌≡◌, ◌∙◌, ◌⊎◌, inl, inr, ap, Bool, true, false, not, Option, none, List, [], ◌∷◌,
  Double, ok, pure, after-run, Bool-cases, if◌then◌else◌,
}
use libfranka.Interface.{
  Command, MotionGeneratorMode, ControllerMode, WireState, Response, stop_move,
}
use libfranka.Robot.State.{Network, Impl, on_network, update_state}
use libfranka.Robot.Responses.{handle_command_response, handle_stop_move}
use libfranka.Robot.Channel.{receive_robot_state}
use libfranka.Robot.Commands.{execute_command, handle}
use libfranka.Robot.Motions.{as_control, is_running, set_current_move, cancel_loop, cancel_motion}
use libfranka.Robot.Finish.{IsIdle, cancel_motion-IsIdle}
use libfranka.Robot.Stream.{
  is_still, Rising, StopsIn, IsStream, is_running-update_state, on_network-run,
  receive_robot_state-next,
}

module _ {N F : Type 0} ⦃d : Double F⦄ ⦃n : Network N F⦄ where
  module _ (coming : N → List (WireState F)) (Phase : Option (Command × ℕ) → N → Type 0)
      (stream : IsStream coming Phase) where
    cancel_loop-returns :
        (fuel rounds : ℕ) (s : Impl N F) (q : List (WireState F))
        → coming s.network ≡ q
        → Rising s.message_id q
        → StopsIn rounds q
        → Phase none s.network
        → (t : Impl N F) × (cancel_loop (suc (suc fuel)) rounds s ≡ (ok tt, t))
          × Phase none t.network
    unfolding cancel_loop update_state
    cancel_loop-returns fuel zero s q e rising stops phase = elim stops [ ]
    cancel_loop-returns fuel (suc rounds) s [] e rising stops phase = elim stops [ ]
    cancel_loop-returns fuel (suc rounds) s (r ∷ q) e rising stops phase =
        let (c, ran, left, kept) =
          receive_robot_state-next coming Phase stream none fuel s r q e rising.0 phase in
        let u = update_state r (record s { network = c }) in
        let runs : is_running u ≡ not (is_still r) =
          is_running-update_state r (record s { network = c }) in
        elim (Bool-cases (is_still r)) [
          | inl still ↦ (
            u,
            after-run (receive_robot_state (suc (suc fuel)) s) _ ran
                ∙ ap (λ (b : Bool). (if b then cancel_loop (suc (suc fuel)) rounds else pure tt) u)
                    (runs ∙ ap not still),
            kept,
          )
          | inr moving ↦
              let (t, rest, ends) =
                cancel_loop-returns fuel rounds u q left rising.1 (later moving stops) kept in
              (
                t,
                after-run (receive_robot_state (suc (suc fuel)) s) _ ran
                    ∙ ap
                        (λ (b : Bool).
                          (if b then cancel_loop (suc (suc fuel)) rounds else pure tt) u)
                        (runs ∙ ap not moving)
                    ∙ rest,
                ends,
              )
        ]
      where
        later : is_still r ≡ false → (is_still r ≡ true) ⊎ StopsIn rounds q → StopsIn rounds q
        later moving (inl still) = absurd (cc)
        later moving (inr rest) = rest

    stop_accepted : (r : Response) (s : Impl N F) → r.status ≡ 0 → handle stop_move r s ≡ (ok tt, s)
    unfolding handle handle_command_response handle_stop_move
    stop_accepted r s e = rw e

    -- On a connection on which the robot sends states with rising message ids, one of the first
    -- `rounds` of them is still, no response is waited for yet, and the response to the `StopMove` that
    -- is sent on it is a success, `cancelMotion` returns, with fuel for two datagrams in each round, and
    -- leaves the robot idle.
    pub cancel_motion-returns :
        (fuel rounds id : ℕ) (s : Impl N F)
        → Rising s.message_id (coming s.network)
        → StopsIn rounds (coming s.network)
        → Phase none s.network
        → (t : Impl N F) × (cancel_motion (suc (suc fuel)) rounds id s ≡ (ok tt, t)) × IsIdle t
    unfolding cancel_motion execute_command
    cancel_motion-returns fuel rounds id s rising stops phase =
        let (k, c₁, sent, e₁, awaits) = stream.sends s.network phase in
        let s₁ = record s { network = c₁ } in
        let (r, c₂, got, success, e₂, free) = stream.answers Command.stop_move k c₁ awaits in
        let s₂ = record s { network = c₂ } in
        let kept : coming c₂ ≡ coming s.network = e₂ ∙ e₁ in
        let stopped : execute_command stop_move s ≡ (ok k, s₂) =
          after-run (on_network (n.tcp_send_request stop_move) s) _
            (on_network-run (n.tcp_send_request stop_move) s sent)
          ∙ after-run (on_network (n.tcp_blocking_receive_response Command.stop_move k) s₁) _
              (on_network-run (n.tcp_blocking_receive_response Command.stop_move k) s₁ got)
          ∙ after-run (handle stop_move r s₂) _ (stop_accepted r s₂ success) in
        let (v, looped, ended) =
          cancel_loop-returns fuel rounds s₂ (coming s.network) kept rising stops free in
        let (b, c₃, polled) = stream.polls Command.move id v.network ended in
        let done : cancel_motion (suc (suc fuel)) rounds id s ≡ (
          ok tt,
          set_current_move MotionGeneratorMode.idle ControllerMode.other
              (record v { network = c₃ }),
        ) =
          after-run (as_control (execute_command stop_move s).0, (execute_command stop_move s).1) _
            (ap (λ p. (as_control p.0, p.1)) stopped)
          ∙ after-run (cancel_loop (suc (suc fuel)) rounds s₂) _ looped
          ∙ after-run (on_network (n.tcp_receive_response Command.move id (λ _. ok tt)) v) _
              (on_network-run (n.tcp_receive_response Command.move id (λ _. ok tt)) v polled) in
        (_, done, cancel_motion-IsIdle (suc (suc fuel)) rounds id s _ done)
