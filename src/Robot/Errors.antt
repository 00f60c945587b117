-- ===== src/Robot/Errors.antt =====
-- What `handleCommandResponse` makes of each status byte, and when `throwOnMotionError` throws.
use libfranka.Prelude.{
  ℕ, String, zero, suc, ◌≡◌, ◌↔◌, inl, inr, refl, Bool, true, false, ◌&&◌, ◌||◌, not, Double,
  Result, ok, raise, running, Method, throw, sym, ap, after-eq-ok, Bool-cases, arith, leb, ◌==◌,
  if◌then◌else◌,
}
use libfranka.Interface.{
  Command, RobotMode, Request, Response, move, stop_move, automatic_error_recovery, name,
}
use libfranka.Interface.{same_motion, same_controller}
use libfranka.Interface.Modes.{same_motion_iff, same_controller_iff}
use libfranka.Interface.Status
use libfranka.Exceptions.{Exception, command, protocol}
use libfranka.RobotState
use libfranka.RobotState.{RobotState}
use libfranka.Robot.State.{Network, Impl, on_network}
use libfranka.Robot.Responses.{
  handle_getter_setter, handle_move, handle_stop_move, handle_recovery, handle_command_response,
}
use libfranka.Robot.Commands.{conclude, conclude_with, motion_disagrees, throw_on_motion_error}

-- How a response is taken: as a success, by a `CommandException`, by a `ProtocolException`, or in
-- any other way.
pub data Verdict : Type 0 where
  accepted refused malformed neither : Verdict

-- A byte is a success if it is 0; it is malformed from the number of enumerators on; the byte 1 of a
-- `Move`, "motion started", is a success unless a motion generator runs already, and malformed then.
abbrev pub verdict_of_byte : (count : ℕ) (of_move generating : Bool) → ℕ → Verdict
verdict_of_byte count of_move generating b =
    if b == 0
    then accepted
    else if leb count b
    then malformed
    else if of_move && b == 1
    then (if generating then malformed else accepted)
    else refused

module _ {F : Type 0} where
  abbrev pub verdict : {A : Type 0} → Result (Exception F) A → Verdict
  verdict (ok _) = accepted
  verdict (raise (command _)) = refused
  verdict (raise (protocol _)) = malformed
  verdict _ = neither

  -- The number of enumerators of `T::Status` for each command `T` but `Connect`, which has no
  -- `handleCommandResponse`, and whether it is `Move`.
  abbrev pub listed : Request F → ℕ
  listed (move _ _ _ _) = 12
  listed stop_move = 6
  listed automatic_error_recovery = 7
  listed _ = 4

  abbrev pub is_move : Request F → Bool
  is_move (move _ _ _ _) = true
  is_move _ = false

module _ (F : Type 0) where
  verdict-handle_getter_setter :
      (of : String) (shown : RobotMode) (b : ℕ)
      → verdict {F = F} (handle_getter_setter of shown (Status.getter_setter b))
        ≡ verdict_of_byte 4 false false b
  unfolding handle_getter_setter
  verdict-handle_getter_setter of shown zero = refl
  verdict-handle_getter_setter of shown (suc zero) = refl
  verdict-handle_getter_setter of shown (suc (suc zero)) = refl
  verdict-handle_getter_setter of shown (suc (suc (suc zero))) = refl
  verdict-handle_getter_setter of shown (suc (suc (suc (suc b)))) = ground arith

  verdict-handle_move :
      (generating : Bool) (shown : RobotMode) (b : ℕ)
      → verdict {F = F} (handle_move generating shown (Status.move b))
        ≡ verdict_of_byte 12 true generating b
  unfolding handle_move
  verdict-handle_move generating shown zero = refl
  verdict-handle_move true shown (suc zero) = refl
  verdict-handle_move false shown (suc zero) = refl
  verdict-handle_move generating shown (suc (suc zero)) = refl
  verdict-handle_move generating shown (suc (suc (suc zero))) = refl
  verdict-handle_move generating shown (suc (suc (suc (suc zero)))) = refl
  verdict-handle_move generating shown (suc (suc (suc (suc (suc zero))))) = refl
  verdict-handle_move generating shown (suc (suc (suc (suc (suc (suc zero)))))) = refl
  verdict-handle_move generating shown (suc (suc (suc (suc (suc (suc (suc zero))))))) = refl
  verdict-handle_move generating shown (suc (suc (suc (suc (suc (suc (suc (suc zero)))))))) = refl
  verdict-handle_move generating shown (suc (suc (suc (suc (suc (suc (suc (suc (suc zero))))))))) =
      refl
  verdict-handle_move generating shown
        (suc (suc (suc (suc (suc (suc (suc (suc (suc (suc zero)))))))))) =
      refl
  verdict-handle_move generating shown
        (suc (suc (suc (suc (suc (suc (suc (suc (suc (suc (suc zero))))))))))) =
      refl
  verdict-handle_move generating shown
        (suc (suc (suc (suc (suc (suc (suc (suc (suc (suc (suc (suc b)))))))))))) =
      ground arith

  verdict-handle_stop_move :
      (shown : RobotMode) (b : ℕ)
      → verdict {F = F} (handle_stop_move shown (Status.stop_move b))
        ≡ verdict_of_byte 6 false false b
  unfolding handle_stop_move
  verdict-handle_stop_move shown zero = refl
  verdict-handle_stop_move shown (suc zero) = refl
  verdict-handle_stop_move shown (suc (suc zero)) = refl
  verdict-handle_stop_move shown (suc (suc (suc zero))) = refl
  verdict-handle_stop_move shown (suc (suc (suc (suc zero)))) = refl
  verdict-handle_stop_move shown (suc (suc (suc (suc (suc zero))))) = refl
  verdict-handle_stop_move shown (suc (suc (suc (suc (suc (suc b)))))) = ground arith

  verdict-handle_recovery :
      (shown : RobotMode) (b : ℕ)
      → verdict {F = F} (handle_recovery shown (Status.recovery b))
        ≡ verdict_of_byte 7 false false b
  unfolding handle_recovery
  verdict-handle_recovery shown zero = refl
  verdict-handle_recovery shown (suc zero) = refl
  verdict-handle_recovery shown (suc (suc zero)) = refl
  verdict-handle_recovery shown (suc (suc (suc zero))) = refl
  verdict-handle_recovery shown (suc (suc (suc (suc zero)))) = refl
  verdict-handle_recovery shown (suc (suc (suc (suc (suc zero))))) = refl
  verdict-handle_recovery shown (suc (suc (suc (suc (suc (suc zero)))))) = refl
  verdict-handle_recovery shown (suc (suc (suc (suc (suc (suc (suc b))))))) = ground arith

module _ {F : Type 0} where
  -- Every status byte of every command that `handleCommandResponse` takes is decided: which bytes return, which throw a
  -- `CommandException` and which a `ProtocolException` depends on the number of the enumerators of
  -- the command's status and, for the byte "motion started" of a `Move`, on whether a motion
  -- generator runs.
  pub verdict-handle_command_response :
      (request : Request F) (generating : Bool) (shown : RobotMode) (r : Response)
      → verdict (handle_command_response request generating shown r)
        ≡ verdict_of_byte (listed request) (is_move request) generating r.status
  unfolding handle_command_response
  verdict-handle_command_response (move _ _ _ _) generating shown r =
      verdict-handle_move F generating shown r.status
  verdict-handle_command_response stop_move generating shown r =
      verdict-handle_stop_move F shown r.status
  verdict-handle_command_response automatic_error_recovery generating shown r =
      verdict-handle_recovery F shown r.status
  verdict-handle_command_response request generating shown r =
      verdict-handle_getter_setter F (name request) shown r.status

both_agree : (a b : Bool) → ((not a || not b) ≡ false) ↔ ((a ≡ true) × (b ≡ true))
both_agree a b = ground arith

module _ {N F : Type 0} where
  motion_disagrees_iff :
      (m : RobotState.RobotMode) (s : Impl N F)
      → (motion_disagrees m s ≡ false) ↔ (
          (m ≡ RobotState.move)
          × (s.motion_generator_mode ≡ s.current_move_motion_generator_mode)
          × (s.controller_mode ≡ s.current_move_controller_mode))
  motion_disagrees_iff RobotState.move s =
      let g = same_motion_iff s.motion_generator_mode s.current_move_motion_generator_mode in
      let c = same_controller_iff s.controller_mode s.current_move_controller_mode in
      let both =
        both_agree (same_motion s.motion_generator_mode s.current_move_motion_generator_mode)
          (same_controller s.controller_mode s.current_move_controller_mode) in
      ((λ h. let (p, q) = both.0 h in (refl, g.0 p, c.0 q)), λ h. both.1 (g.1 h.1, c.1 h.2))
  motion_disagrees_iff _ s = ((λ h. absurd (cc)), λ h. absurd (cc))

module _ {N F : Type 0} ⦃d : Double F⦄ ⦃n : Network N F⦄ where
  pub conclude_with-ok :
      (errors : RobotState.Errors) (status : Status.Move)
      (done : Method (Exception F) (Impl N F) (Unit {0})) (r : Result (Exception F) (Unit {0}))
      (s t : Impl N F)
      → conclude_with errors status done r s ≡ (ok tt, t)
      → done s ≡ (ok tt, t)
  unfolding conclude_with
  conclude_with-ok errors status done (ok _) s t h = h
  conclude_with-ok errors status done (raise (command what)) s t h = cc
  conclude_with-ok errors status done (raise _) s t h = cc
  conclude_with-ok errors status done running s t h = cc

  pub conclude-ok :
      (errors : RobotState.Errors) (r : Response)
      (done : Method (Exception F) (Impl N F) (Unit {0})) (s t : Impl N F)
      → conclude errors r done s ≡ (ok tt, t)
      → done s ≡ (ok tt, t)
  unfolding conclude
  conclude-ok errors r done s t h = conclude_with-ok errors _ done _ s t h

  throw_on_motion_error-keeps :
      (state : RobotState F) (id : ℕ) (s t : Impl N F)
      → throw_on_motion_error state id s ≡ (ok tt, t)
      → (motion_disagrees state.robot_mode s ≡ false) × (t ≡ s)
  unfolding throw_on_motion_error
  throw_on_motion_error-keeps state id s t h =
      elim (Bool-cases (motion_disagrees state.robot_mode s)) [
        | inl bad ↦
            let (r, e, k) =
              after-eq-ok (on_network (n.tcp_blocking_receive_response Command.move id) s) _
                (rw bad at h) in
            let thrown =
              conclude-ok state.last_motion_errors r
                (throw (protocol "Unexpected reply to a Move command"))
                (on_network (n.tcp_blocking_receive_response Command.move id) s).1 t k in
            cc thrown
        | inr good ↦ (good, sym (ap (λ p. p.1) (rw good at h)))
      ]

  -- `throwOnMotionError` returns exactly when the robot state is in the mode "move" and both modes of
  -- the robot are those of the motion that was started; then it changes nothing.
  pub throw_on_motion_error-ok :
      (state : RobotState F) (id : ℕ) (s t : Impl N F)
      → (throw_on_motion_error state id s ≡ (ok tt, t)) ↔ (
          (state.robot_mode ≡ RobotState.move)
          × (s.motion_generator_mode ≡ s.current_move_motion_generator_mode)
          × (s.controller_mode ≡ s.current_move_controller_mode)
          × (t ≡ s))
  unfolding throw_on_motion_error
  throw_on_motion_error-ok state id s t = (
    (λ h.
        let (agree, same) = throw_on_motion_error-keeps state id s t h in
        let (m, g, c) = (motion_disagrees_iff state.robot_mode s).0 agree in (m, g, c, same)),
    (λ h. rw ((motion_disagrees_iff state.robot_mode s).1 (h.0, h.1, h.2), h.3)),
  )
