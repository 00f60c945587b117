-- ===== src/Robot/Finishes.antt =====
-- `finishMotion` on a connection that delivers states and answers: it returns.
use libfranka.Prelude.{
  ℕ, zero, suc, ◌<◌, ◌≡◌, ◌∙◌, ◌⊎◌, inl, inr, refl, ap, Bool, true, false, not, Option, some, List,
  [], ◌∷◌, Double, ok, pure, after-run, Bool-cases, if◌then◌else◌, ◌>>=◌, modify,
}
use libfranka.Interface.{
  Command, MotionGeneratorMode, ControllerMode, MotionGeneratorCommand, ControllerCommand,
  WireState, Response,
}
use libfranka.Interface.Status
use libfranka.LoadCalculations.{Eigen}
use libfranka.RobotState.{RobotState, convert_robot_state, empty_robot_state}
use libfranka.Logger.{log}
use libfranka.Robot.State.{Network, Impl, on_network, update_state}
use libfranka.Robot.Responses.{handle_move}
use libfranka.Robot.Channel.{filled_command, send_robot_command, receive_robot_state, update}
use libfranka.Robot.Commands.{conclude, conclude_with}
use libfranka.Robot.Motions.{
  is_running, set_current_move, finish_loop, finish_status, finish_running, finish_motion,
}
use libfranka.Robot.Guards.{IsAllowed, send_robot_command-guarded}
use libfranka.Robot.Finish.{IsIdle, finish_motion-IsIdle}
use libfranka.Robot.Stream.{
  is_still, Rising, StopsIn, IsStream, is_running-update_state, on_network-run,
  receive_robot_state-next,
}

module _ {N F : Type 0} ⦃d : Double F⦄ ⦃n : Network N F⦄ ⦃e : Eigen F⦄ where
  module _ (coming : N → List (WireState F)) (Phase : Option (Command × ℕ) → N → Type 0)
      (stream : IsStream coming Phase) where
    -- The object after a round in which `r` arrived.
    abbrev logged :
        Impl N F
        → WireState F
        → Option (MotionGeneratorCommand F)
        → Option (ControllerCommand F)
        → N
        → Impl N F
    logged s r m c k = record (update_state r (record s { network = k })) {
      logger = log s.logger (convert_robot_state r) (filled_command s.message_id m c);
    }

    update-next :
        (p : Option (Command × ℕ)) (fuel : ℕ) (m : MotionGeneratorCommand F)
        (c : Option (ControllerCommand F)) (s : Impl N F) (r : WireState F) (q : List (WireState F))
        → IsAllowed (some m) c s
        → coming s.network ≡ r ∷ q
        → s.message_id < r.message_id
        → Phase p s.network
        → (k : N) × (update (suc (suc fuel)) (some m) c s
            ≡ (ok (convert_robot_state r), logged s r (some m) c k))
          × (coming k ≡ q)
          × Phase p k
    unfolding update update_state
    update-next p fuel m c s r q allowed e new phase =
        let w = filled_command s.message_id (some m) c in
        let (k₁, went, kept, phase₁) = stream.transmits p w s.network phase in
        let s₁ = record s { network = k₁ } in
        let sent : send_robot_command (some m) c s ≡ (ok w, s₁) =
          (send_robot_command-guarded (some m) c s (inl refl)).0 allowed
          ∙ after-run (on_network (n.udp_send w) s) _ (on_network-run (n.udp_send w) s went) in
        let (k, ran, left, phase₂) =
          receive_robot_state-next coming Phase stream p fuel s₁ r q (kept ∙ e) new phase₁ in
        (
          k,
          after-run (on_network n.tcp_throw_if_connection_closed s) _ (
                on_network-run n.tcp_throw_if_connection_closed s (stream.opened p s.network phase))
              ∙ after-run (send_robot_command (some m) c s) _ sent
              ∙ after-run (receive_robot_state (suc (suc fuel)) s₁) _ ran,
          left,
          phase₂,
        )

    finish_loop-stopped :
        (fuel rounds : ℕ) (m : MotionGeneratorCommand F) (c : Option (ControllerCommand F))
        (last : RobotState F) (s : Impl N F)
        → is_running s ≡ false
        → finish_loop fuel (suc rounds) m c last s ≡ (ok last, s)
    unfolding finish_loop
    finish_loop-stopped fuel rounds m c last s done =
        ap
          (λ (b : Bool).
            (if b
                then (update fuel (some m) c >>= λ next. finish_loop fuel rounds m c next)
                else pure last)
              s)
          done

    -- A round of the loop, given what the rounds after it do.
    finish_loop-round :
        (fuel rounds : ℕ) (m : MotionGeneratorCommand F) (c : Option (ControllerCommand F))
        (last next : RobotState F) (s u : Impl N F)
        → is_running s ≡ true
        → update fuel (some m) c s ≡ (ok next, u)
        → finish_loop fuel (suc rounds) m c last s ≡ finish_loop fuel rounds m c next u
    unfolding finish_loop
    finish_loop-round fuel rounds m c last next s u going ran =
        ap
          (λ (b : Bool).
            (if b
                then (update fuel (some m) c >>= λ x. finish_loop fuel rounds m c x)
                else pure last)
              s)
          going
        ∙ after-run (update fuel (some m) c s) _ ran

    finish_loop-returns :
        (p : Option (Command × ℕ)) (fuel rounds : ℕ) (m : MotionGeneratorCommand F)
        (c : Option (ControllerCommand F)) (last : RobotState F) (s : Impl N F)
        (q : List (WireState F))
        → is_running s ≡ true
        → IsAllowed (some m) c s
        → coming s.network ≡ q
        → Rising s.message_id q
        → StopsIn rounds q
        → Phase p s.network
        → (b : RobotState F) × (t : Impl N F) × (finish_loop
              (suc (suc fuel))
              (suc rounds)
              m
              c
              last
              s
            ≡ (ok b, t))
          × Phase p t.network
    unfolding update_state
    finish_loop-returns p fuel zero m c last s q going allowed e rising stops phase = elim stops [ ]
    finish_loop-returns p fuel (suc k) m c last s [] going allowed e rising stops phase =
        elim stops [ ]
    finish_loop-returns p fuel (suc k) m c last s (r ∷ q) going allowed e rising stops phase =
        let (x, ran, left, kept) = update-next p fuel m c s r q allowed e rising.0 phase in
        let u = logged s r (some m) c x in
        let next = convert_robot_state r in
        let runs : is_running u ≡ not (is_still r) = is_running-update_state r s in
        let step = finish_loop-round (suc (suc fuel)) (suc k) m c last next s u going ran in
        elim (Bool-cases (is_still r)) [
          | inl still ↦ (
            next,
            u,
            step ∙ finish_loop-stopped (suc (suc fuel)) k m c next u (runs ∙ ap not still),
            kept,
          )
          | inr moving ↦
              let (b, t, rest, ends) =
                finish_loop-returns p fuel k m c next u q (runs ∙ ap not moving) allowed left
                  rising.1 (later moving stops) kept in
              (b, t, step ∙ rest, ends)
        ]
      where
        later : is_still r ≡ false → (is_still r ≡ true) ⊎ StopsIn k q → StopsIn k q
        later moving (inl still) = absurd (cc)
        later moving (inr rest) = rest

    answered :
        (last : RobotState F) (r : Response) (s : Impl N F)
        → r.status ≡ 0
        → finish_status last r (Status.move r.status) s
          ≡ (ok tt, set_current_move MotionGeneratorMode.idle ControllerMode.other s)
    unfolding finish_status conclude conclude_with handle_move
    answered last r s p = rw p

    -- On a connection on which the robot sends states with rising message ids, one of the first
    -- `rounds` of them is still, and the response to the `Move` with the given id is to come and is a
    -- success, `finishMotion` of a running motion that takes the command returns, with one round more
    -- than these and fuel for two datagrams in each, and leaves the robot idle.
    pub finish_motion-returns :
        (fuel rounds id : ℕ) (m : MotionGeneratorCommand F) (c : Option (ControllerCommand F))
        (s : Impl N F)
        → is_running s ≡ true
        → IsAllowed (some m) c s
        → Rising s.message_id (coming s.network)
        → StopsIn rounds (coming s.network)
        → Phase (some (Command.move, id)) s.network
        → (t : Impl N F) × (finish_motion (suc (suc fuel)) (suc rounds) id (some m) c s
            ≡ (ok tt, t))
          × IsIdle t
    unfolding finish_motion finish_running
    finish_motion-returns fuel rounds id m c s going allowed rising stops phase =
        let m' = record m { motion_generation_finished = true } in
        let (last, u, looped, awaits) =
          finish_loop-returns (some (Command.move, id)) fuel rounds m' c empty_robot_state s
            (coming s.network) going allowed refl rising stops phase in
        let (r, k, got, success, kept, free) = stream.answers Command.move id u.network awaits in
        let v = record u { network = k } in
        let done : finish_motion (suc (suc fuel)) (suc rounds) id (some m) c s
            ≡ (ok tt, set_current_move MotionGeneratorMode.idle ControllerMode.other v) =
          ap
            (λ (b : Bool).
              (if not b
                  then modify (set_current_move MotionGeneratorMode.idle ControllerMode.other)
                  else finish_running (suc (suc fuel)) (suc rounds) id (some m) c)
                s)
            going
          ∙ after-run (finish_loop (suc (suc fuel)) (suc rounds) m' c empty_robot_state s) _ looped
          ∙ after-run (on_network (n.tcp_blocking_receive_response Command.move id) u) _
              (on_network-run (n.tcp_blocking_receive_response Command.move id) u got)
          ∙ answered last r v success in
        (_, done, finish_motion-IsIdle (suc (suc fuel)) (suc rounds) id (some m) c s _ done)
