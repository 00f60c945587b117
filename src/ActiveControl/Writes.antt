-- ===== src/ActiveControl/Writes.antt =====
-- The calls of `writeOnce`, and the end of an active control.
use mathlib.Core.Path.{subst}
use libfranka.Prelude.{
  ℕ, String, ◌≡◌, ◌∙◌, refl, sym, ap, Bool, true, false, not, ◌&&◌, ◌||◌, Option, none, some,
  Double, ok, pure, modify, throw_if-ok, branch_true, branch_false, after-eq-ok, after-keeps,
  eq_of_fst, ◌>>=◌, ◌>>◌, if◌then◌else◌,
}
use libfranka.Interface.{WireCommand, MotionGeneratorCommand, ControllerCommand, empty_motion}
use libfranka.ControlTypes.{Torques, Motion, motion_finished}
use libfranka.LoadCalculations.{Eigen}
use libfranka.Robot.{
  Network, Impl, on_network, is_some, create_motion_command, create_controller_command,
  write_torques, write_motion, write_motion_and_torques, finish_motion, cancel_motion,
  send_robot_command, send_unless,
}
use libfranka.Robot.Receive.{SameButNetwork}
use libfranka.Robot.Finish.{IsIdle, finish_motion-IsIdle, cancel_motion-IsIdle}
use libfranka.ActiveControl.{
  ActiveControl, is_external, on_robot, finished, is_torque_control_finished, finish_with,
  write_through, write_once, write_torques_once, destroy,
}

module _ {N F : Type 0} where
  -- The motion is over: the robot is idle and the control mutex is free.
  abbrev pub HasEnded : ActiveControl N F → Type 0
  HasEnded t = (t.control_finished ≡ true) × (t.owns_lock ≡ false) × IsIdle t.robot_impl

  -- Only the state of the connection may have changed.
  abbrev pub GoesOn : ActiveControl N F → ActiveControl N F → Type 0
  GoesOn s t =
      SameButNetwork s.robot_impl t.robot_impl × (t ≡ record s { robot_impl = t.robot_impl })

  HasEnded-finished : (s t : ActiveControl N F) → IsIdle s.robot_impl → finished s ≡ t → HasEnded t
  HasEnded-finished s t idle done = subst HasEnded done (refl, refl, idle)

  goes_on :
      (s t : ActiveControl N F) (u : Impl N F)
      → SameButNetwork s.robot_impl u
      → record s { robot_impl = u } ≡ t
      → GoesOn s t
  goes_on s t u same done = subst (GoesOn s) done (same, refl)

module _ {N F : Type 0} ⦃d : Double F⦄ ⦃n : Network N F⦄ where
  send_unless-keeps :
      (o : Option String) (w : WireCommand F) (s : Impl N F)
      → SameButNetwork s (send_unless o w s).1
  unfolding send_unless
  send_unless-keeps none w s =
      after-keeps (SameButNetwork s) (on_network (n.udp_send w) s) _ refl λ _. refl
  send_unless-keeps (some what) w s = refl

  send_robot_command-keeps :
      (m : Option (MotionGeneratorCommand F)) (c : Option (ControllerCommand F)) (s : Impl N F)
      → SameButNetwork s (send_robot_command m c s).1
  unfolding send_robot_command
  send_robot_command-keeps none none s = refl
  send_robot_command-keeps (some m) none s = send_unless-keeps _ _ s
  send_robot_command-keeps none (some c) s = send_unless-keeps _ _ s
  send_robot_command-keeps (some m) (some c) s = send_unless-keeps _ _ s

  -- What the three methods do behind the checks of the command.
  sent_keeps :
      (m : Option (MotionGeneratorCommand F)) (c : Option (ControllerCommand F)) (s : Impl N F)
      → SameButNetwork s
          ((do on_network n.tcp_throw_if_connection_closed; sent ← send_robot_command m c; pure tt)
            s).1
  sent_keeps m c s =
      let u = (on_network n.tcp_throw_if_connection_closed s).1 in
      after-keeps (SameButNetwork s) (on_network n.tcp_throw_if_connection_closed s) _ refl λ _.
        after-keeps (SameButNetwork s) (send_robot_command m c u) _
          (send_robot_command-keeps m c u ∙ refl) λ _. send_robot_command-keeps m c u

  write_motion-keeps : (m : Motion F) (s : Impl N F) → SameButNetwork s (write_motion m s).1
  unfolding write_motion
  write_motion-keeps m s =
      after-keeps (SameButNetwork s) (create_motion_command m, s) _ refl
        λ a. sent_keeps (some a) none s

  write_torques-keeps : (t : Torques F) (s : Impl N F) → SameButNetwork s (write_torques t s).1
  unfolding write_torques
  write_torques-keeps t s =
      after-keeps (SameButNetwork s) (create_controller_command t, s) _ refl
        λ a. sent_keeps (some empty_motion) (some a) s

  write_motion_and_torques-keeps :
      (m : Motion F) (t : Torques F) (s : Impl N F)
      → SameButNetwork s (write_motion_and_torques m t s).1
  unfolding write_motion_and_torques
  write_motion_and_torques-keeps m t s =
      after-keeps (SameButNetwork s) (create_motion_command m, s) _ refl
        λ a.
          after-keeps (SameButNetwork s) (create_controller_command t, s) _ refl
            λ b. sent_keeps (some a) (some b) s

  module _ ⦃e : Eigen F⦄ where
    write_through-ok :
        (m : Motion F) (c : Option (Torques F)) (s t : ActiveControl N F)
        → write_through m c s ≡ (ok tt, t)
        → GoesOn s t
    unfolding write_through
    write_through-ok m none s t h =
        goes_on s t (write_motion m s.robot_impl).1 (write_motion-keeps m s.robot_impl)
          (ap (λ p. p.1) h)
    write_through-ok m (some c) s t h =
        goes_on s t (write_motion_and_torques m c s.robot_impl).1
          (write_motion_and_torques-keeps m c s.robot_impl) (ap (λ p. p.1) h)

    -- `finishMotion` and what follows it in both classes.
    ended :
        (fuel rounds id : ℕ) (m : Option (MotionGeneratorCommand F))
        (c : Option (ControllerCommand F)) (s t : ActiveControl N F)
        → (on_robot (finish_motion fuel rounds id m c) >> modify finished) s ≡ (ok tt, t)
        → HasEnded t
    ended fuel rounds id m c s t h =
        let (_, e₁, k₁) = after-eq-ok (on_robot (finish_motion fuel rounds id m c) s) _ h in
        let u = (finish_motion fuel rounds id m c s.robot_impl).1 in
        HasEnded-finished (record s { robot_impl = u }) t
          (finish_motion-IsIdle fuel rounds id m c s.robot_impl u
            (eq_of_fst (finish_motion fuel rounds id m c s.robot_impl) e₁))
          (ap (λ p. p.1) k₁)

    finish_with-ok :
        (fuel rounds : ℕ) (m : Motion F) (c : Option (Torques F)) (s t : ActiveControl N F)
        → finish_with fuel rounds m c s ≡ (ok tt, t)
        → HasEnded t
    unfolding finish_with
    finish_with-ok fuel rounds m none s t h =
        let (a, e₁, k₁) = after-eq-ok (create_motion_command m, s) _ h in
        ended fuel rounds s.motion_id (some a) none s t k₁
    finish_with-ok fuel rounds m (some c) s t h =
        let (a, e₁, k₁) = after-eq-ok (create_motion_command m, s) _ h in
        let (b, e₂, k₂) = after-eq-ok (create_controller_command c, s) _ k₁ in
        ended fuel rounds s.motion_id (some a) (some b) s t k₂

    -- If `ActiveMotionGenerator::writeOnce` returns, then the control was not finished, torques were
    -- given exactly if the controller is the external one, and: if the motion or the torques are
    -- marked as finished, the control is finished, its lock released and the robot idle; if not, only
    -- the state of the connection may have changed.
    pub write_once-ok :
        (fuel rounds : ℕ) (m : Motion F) (c : Option (Torques F)) (s t : ActiveControl N F)
        → write_once fuel rounds m c s ≡ (ok tt, t)
        → (s.control_finished ≡ false)
          × (is_some c ≡ is_external s.controller_type)
          × ((motion_finished m || is_torque_control_finished c) ≡ true → HasEnded t)
          × ((motion_finished m || is_torque_control_finished c) ≡ false → GoesOn s t)
    unfolding write_once
    write_once-ok fuel rounds m c s t h =
        let (opened, k₁) = throw_if-ok s.control_finished _ _ s h in
        let (a, k₂) = throw_if-ok (is_some c && not (is_external s.controller_type)) _ _ s k₁ in
        let (b, k₃) = throw_if-ok (not (is_some c) && is_external s.controller_type) _ _ s k₂ in
        (
          opened,
          agree (is_some c) (is_external s.controller_type) a b,
          (λ last. finish_with-ok fuel rounds m c s t (rw last at k₃)),
          (λ more. write_through-ok m c s t (rw more at k₃)),
        )
      where
        agree : (x y : Bool) → (x && not y) ≡ false → (not x && y) ≡ false → x ≡ y
        agree true true p q = refl
        agree true false p q = p
        agree false true p q = sym q
        agree false false p q = refl

    -- If `ActiveTorqueControl::writeOnce` returns, then the control was not finished, and: if the
    -- torques are marked as finished, the control is finished, its lock released and the robot idle;
    -- if not, only the state of the connection may have changed.
    pub write_torques_once-ok :
        (fuel rounds : ℕ) (c : Torques F) (s t : ActiveControl N F)
        → write_torques_once fuel rounds c s ≡ (ok tt, t)
        → (s.control_finished ≡ false)
          × (c.motion_finished ≡ true → HasEnded t)
          × (c.motion_finished ≡ false → GoesOn s t)
    unfolding write_torques_once
    write_torques_once-ok fuel rounds c s t h =
        let (opened, k₁) = throw_if-ok s.control_finished _ _ s h in
        (
          opened,
          (λ last.
              let (a, e₁, k₂) =
                after-eq-ok (create_controller_command c, s) _
                  (branch_true c.motion_finished _ _ s last k₁) in
              ended fuel rounds s.motion_id _ (some a) s t k₂),
          (λ more.
              goes_on s t (write_torques c s.robot_impl).1 (write_torques-keeps c s.robot_impl)
                (ap (λ p. p.1) (branch_false c.motion_finished _ _ s more k₁))),
        )

    -- If the destructor of an active control returns, the control mutex is free, and the robot is idle
    -- unless the control was finished already, which leaves the robot as it is.
    pub destroy-ok :
        (fuel rounds : ℕ) (s t : ActiveControl N F)
        → destroy fuel rounds s ≡ (ok tt, t)
        → (t.owns_lock ≡ false)
          × (s.control_finished ≡ false → IsIdle t.robot_impl)
          × (s.control_finished ≡ true → t.robot_impl ≡ s.robot_impl)
    unfolding destroy
    destroy-ok fuel rounds s t h =
        let cancel = on_robot (cancel_motion fuel rounds s.motion_id) in
        let (_, e₁, k₁) = after-eq-ok ((if s.control_finished then pure tt else cancel) s) _ h in
        let u = ((if s.control_finished then pure tt else cancel) s).1 in
        let ran = eq_of_fst ((if s.control_finished then pure tt else cancel) s) e₁ in
        let done = ap (λ p. p.1) k₁ in
        (
          ap (λ (x : ActiveControl N F). x.owns_lock) (sym done),
          (λ opened.
              let idle = cancel_motion-IsIdle fuel rounds s.motion_id s.robot_impl u.robot_impl (
                ap (λ p. (p.0, p.1.robot_impl))
                  (branch_false s.control_finished _ cancel s opened ran)) in
              subst (λ (x : ActiveControl N F). IsIdle x.robot_impl) done idle),
          (λ over.
              ap (λ (x : ActiveControl N F). x.robot_impl) (sym done)
              ∙ ap (λ p. p.1.robot_impl)
                  (sym (branch_true s.control_finished _ cancel s over ran))),
        )
