-- ===== src/RobotApi/Starts.antt =====
-- What the start of an active control does to the control mutex.
use mathlib.Core.Path.{subst}
use libfranka.Prelude.{
  ℕ, ◌≡◌, ◌∙◌, refl, sym, ap, Bool, true, false, Double, Result, ok, raise, Method, throw_if,
  modify, after-eq-ok, eq_of_fst, ◌>>=◌, ◌>>◌,
}
use libfranka.LoadCalculations.{Eigen}
use libfranka.Exceptions.{Exception}
use libfranka.Interface.{MoveController, MoveGenerator}
use libfranka.Robot.{Network, start_motion}
use libfranka.ActiveControl.{ActiveControl}
use libfranka.ControlLoop.{Session, by_robot, k_default_deviation}
use libfranka.RobotApi.Lock.{Robot, not_owned, try_to_lock, on_impl, unlocked_on_raise, set_mutex}
use libfranka.RobotApi.Calls.{start_block, start_control, start_torque_control}
use libfranka.RobotApi.Counts.{Holds, try_to_lock-ok, started-ok, started-raise}
use libfranka.RobotApi.Steps.{Start, motion, torques, start}

module _ {N F U : Type 0} ⦃d : Double F⦄ ⦃n : Network N F⦄ ⦃e : Eigen F⦄ (fuel rounds : ℕ) where
  start_block-ok :
      (c : MoveController) (k : MoveGenerator) (s t : Session (Robot N F) U) {a : ActiveControl N F}
      → start_block fuel rounds c k s ≡ (ok a, t)
      → (t.robot.control_mutex ≡ s.robot.control_mutex) × (a.owns_lock ≡ true) × Holds a
  unfolding start_block
  start_block-ok c k s t h =
      let (id, e₁, k₁) =
        after-eq-ok
          (on_impl (by_robot (start_motion fuel rounds c k k_default_deviation k_default_deviation))
            s)
          _ h in
      let made = returned k₁ in
      (
        sym (ap (λ p. p.1.robot.control_mutex) k₁),
        ap (λ (x : ActiveControl N F). x.owns_lock) (sym made),
        subst Holds made refl,
      )
    where
      returned :
          {A S E : Type 0} {a b : A} {x y : S}
          → ◌≡◌ {A = Result E A × S} (ok a, x) (ok b, y)
          → a ≡ b
      returned k = cc

  pub start-ok :
      (x : Start) (s t : Session (Robot N F) U) {a : ActiveControl N F}
      → start fuel rounds x s ≡ (ok a, t)
      → (s.robot.control_mutex ≡ false)
        × (t.robot.control_mutex ≡ true)
        × (a.owns_lock ≡ true)
        × Holds a
  unfolding start start_control start_torque_control
  start-ok (motion k c) s t h =
      let (_, e₁, k₁) = after-eq-ok (try_to_lock s) _ h in
      let (free, locked) = try_to_lock-ok s (try_to_lock s).1 (eq_of_fst (try_to_lock s) e₁) in
      let (same, owns, holds) =
        start_block-ok c k (try_to_lock s).1 t
          (started-ok (start_block fuel rounds c k (try_to_lock s).1) k₁) in
      (free, same ∙ ap (λ (w : Session (Robot N F) U). w.robot.control_mutex) locked, owns, holds)
  start-ok torques s t h =
      let (_, e₁, k₁) = after-eq-ok (try_to_lock s) _ h in
      let (free, locked) = try_to_lock-ok s (try_to_lock s).1 (eq_of_fst (try_to_lock s) e₁) in
      let (same, owns, holds) =
        start_block-ok MoveController.external_controller MoveGenerator.joint_velocity
          (try_to_lock s).1 t
          (started-ok
            (start_block fuel rounds MoveController.external_controller MoveGenerator.joint_velocity
              (try_to_lock s).1)
            k₁) in
      (free, same ∙ ap (λ (w : Session (Robot N F) U). w.robot.control_mutex) locked, owns, holds)

  -- A refused block leaves the mutex locked by another; one that throws unlocks it.
  locking-raise :
      (m : Method (Exception F) (Session (Robot N F) U) (ActiveControl N F))
      (s t : Session (Robot N F) U) {y : Exception F}
      → (try_to_lock >>= λ _ u. unlocked_on_raise (m u)) s ≡ (raise y, t)
      → t.robot.control_mutex ≡ s.robot.control_mutex
  unfolding try_to_lock
  locking-raise m s t {y = y} h = go s.robot.control_mutex refl h
    where
      go :
          (b : Bool)
          → s.robot.control_mutex ≡ b
          → (throw_if b not_owned >> modify (set_mutex true) >>= λ _ u. unlocked_on_raise (m u)) s
            ≡ (raise y, t)
          → t.robot.control_mutex ≡ s.robot.control_mutex
      go true e q = sym (ap (λ p. p.1.robot.control_mutex) q)
      go false e q = started-raise (m (set_mutex true s)) q ∙ sym e

  pub start-raise :
      (x : Start) (s t : Session (Robot N F) U) {y : Exception F}
      → start fuel rounds x s ≡ (raise y, t)
      → t.robot.control_mutex ≡ s.robot.control_mutex
  unfolding start start_control start_torque_control
  start-raise (motion k c) s t h = locking-raise (start_block fuel rounds c k) s t h
  start-raise torques s t h =
      locking-raise
        (start_block fuel rounds MoveController.external_controller MoveGenerator.joint_velocity) s
        t h
