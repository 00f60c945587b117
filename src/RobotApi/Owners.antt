-- ===== src/RobotApi/Owners.antt =====
-- What the methods of an active control do to its lock.
use libfranka.Prelude.{
  ℕ, ◌≡◌, ◌⊎◌, inl, inr, refl, Bool, true, false, not, ◌&&◌, ◌||◌, Option, none, some, Double,
  nought, filled, Method, throw_if, modify, after-keeps, ◌>>◌, if◌then◌else◌,
}
use libfranka.LoadCalculations.{Eigen}
use libfranka.Interface.{empty_motion}
use libfranka.ControlTypes.{Torques, Motion, motion_finished}
use libfranka.Robot.{
  Network, is_some, create_motion_command, create_controller_command, finish_motion, read_once,
  throw_on_motion_error,
}
use libfranka.ActiveControl.{
  ActiveControl, is_external, is_torque_control_finished, on_robot, checked_by, finished,
  finish_with, write_through, write_once, write_torques_once, active_read_once,
}
use libfranka.RobotApi.Steps.{Use, write, drive, read, perform}

module _ {E S : Type 0} (P : S → Type 0) where
  guard_keeps :
      {A : Type 0} (b : Bool) (x : E) (k : Method E S A) (s : S)
      → P s
      → P (k s).1
      → P ((throw_if b x >> k) s).1
  guard_keeps true x k s h g = h
  guard_keeps false x k s h g = g

  if-keeps :
      {A : Type 0} (b : Bool) (x y : Method E S A) (s : S)
      → P (x s).1
      → P (y s).1
      → P ((if b then x else y) s).1
  if-keeps true x y s h k = h
  if-keeps false x y s h k = k

module _ {N F : Type 0} where
  -- The object still owns the lock as before and is as finished, or has finished and let it go.
  abbrev pub Kept : ActiveControl N F → ActiveControl N F → Type 0
  Kept s t =
      ((t.owns_lock ≡ s.owns_lock) × (t.control_finished ≡ s.control_finished))
      ⊎ ((t.owns_lock ≡ false) × (t.control_finished ≡ true))

  Kept-refl : (s : ActiveControl N F) → Kept s s
  Kept-refl s = inl (refl, refl)

module _ {N F : Type 0} ⦃d : Double F⦄ ⦃n : Network N F⦄ ⦃e : Eigen F⦄ (fuel rounds : ℕ) where
  finish_with-Kept :
      (m : Motion F) (o : Option (Torques F)) (s : ActiveControl N F)
      → Kept s (finish_with fuel rounds m o s).1
  unfolding finish_with
  finish_with-Kept m none s =
      after-keeps (Kept s) (checked_by (create_motion_command m) s) _ (Kept-refl s) λ c.
        after-keeps (Kept s) (on_robot (finish_motion fuel rounds s.motion_id (some c) none) s)
          (λ _. modify finished) (inl (refl, refl)) λ _. inr (refl, refl)
  finish_with-Kept m (some t) s =
      after-keeps (Kept s) (checked_by (create_motion_command m) s) _ (Kept-refl s) λ c.
        after-keeps (Kept s) (checked_by (create_controller_command t) s) _ (Kept-refl s) λ c'.
          after-keeps (Kept s)
            (on_robot (finish_motion fuel rounds s.motion_id (some c) (some c')) s)
            (λ _. modify finished) (inl (refl, refl)) λ _. inr (refl, refl)

  write_through-Kept :
      (m : Motion F) (o : Option (Torques F)) (s : ActiveControl N F)
      → Kept s (write_through m o s).1
  unfolding write_through
  write_through-Kept m none s = inl (refl, refl)
  write_through-Kept m (some t) s = inl (refl, refl)

  write_once-Kept :
      (m : Motion F) (o : Option (Torques F)) (s : ActiveControl N F)
      → Kept s (write_once fuel rounds m o s).1
  unfolding write_once
  write_once-Kept m o s = guard_keeps (Kept s) s.control_finished _ _ s (Kept-refl s) (
      guard_keeps (Kept s) (is_some o && not (is_external s.controller_type)) _ _ s (Kept-refl s) (
        guard_keeps (Kept s) (not (is_some o) && is_external s.controller_type) _ _ s (Kept-refl s)
          (if-keeps (Kept s) (motion_finished m || is_torque_control_finished o) _ _ s
            (finish_with-Kept m o s) (write_through-Kept m o s))))

  write_torques_once-Kept :
      (t : Torques F) (s : ActiveControl N F) → Kept s (write_torques_once fuel rounds t s).1
  unfolding write_torques_once
  write_torques_once-Kept t s = guard_keeps (Kept s) s.control_finished _ _ s (Kept-refl s) (
      if-keeps (Kept s) t.motion_finished _ _ s
        (after-keeps (Kept s) (checked_by (create_controller_command t) s) _ (Kept-refl s) λ c.
          after-keeps (Kept s)
            (on_robot
              (finish_motion fuel rounds s.motion_id
                (some (record empty_motion { dq_c = filled nought 7 })) (some c))
              s)
            (λ _. modify finished) (inl (refl, refl)) λ _. inr (refl, refl))
        (inl (refl, refl)))

  active_read_once-Kept : (s : ActiveControl N F) → Kept s (active_read_once fuel s).1
  unfolding active_read_once
  active_read_once-Kept s =
      after-keeps (Kept s) (on_robot (read_once fuel) s) _ (inl (refl, refl)) λ state.
        after-keeps (Kept s)
          (on_robot (throw_on_motion_error state s.motion_id) (on_robot (read_once fuel) s).1) _
          (inl (refl, refl)) λ _. inl (refl, refl)

  pub perform-Kept : (u : Use F) (s : ActiveControl N F) → Kept s (perform fuel rounds u s).1
  unfolding perform
  perform-Kept (write m o) s = write_once-Kept m o s
  perform-Kept (drive t) s = write_torques_once-Kept t s
  perform-Kept read s =
      after-keeps (Kept s) (active_read_once fuel s) _ (active_read_once-Kept s)
        λ _. active_read_once-Kept s
