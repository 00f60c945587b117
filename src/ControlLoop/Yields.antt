-- ===== src/ControlLoop/Yields.antt =====
-- What a call yields when it ends, for the parts of a cycle of a control loop.
use mathlib.Core.Path.{subst}
use libfranka.Prelude.{
  ℕ, zero, suc, ◌≤◌, ◌<◌, ◌≡◌, ◌∙◌, sym, refl, Bool, true, false, not, Option, Double, Result, ok,
  raise, running, Method, after, arith,
}
use libfranka.Geometry.{Geometry}
use libfranka.LoadCalculations.{Eigen}
use libfranka.Interface.{MoveGenerator, MotionGeneratorCommand, ControllerCommand}
use libfranka.ControlTypes.{Torques, motion_finished}
use libfranka.Exceptions.{Exception}
use libfranka.Duration.{Duration}
use libfranka.RobotState.{RobotState}
use libfranka.ControlLoop.Convert.{Generated, as_motion, convert_motion}
use libfranka.ControlLoop.Ending.{Total}
use libfranka.ControlLoop.Total.{Total-convert_motion, Total-convert_torques}
use libfranka.ControlLoop.Loop.{
  RobotControl, ControlLoop, Session, by_robot, by_user, convert_torques, spin_motion, spin_control,
  next_state,
}

module _ {E S : Type 0} where
  -- A call returns, with what `P` says, or throws.
  abbrev pub Yields : {A : Type 0} → (A → S → Type 0) → Result E A × S → Type 0
  Yields P (ok a, s) = P a s
  Yields P (raise x, s) = Unit
  Yields P (running, s) = ⊥

  pub Yields-after :
      {A B : Type 0} (P : A → S → Type 0) (Q : B → S → Type 0) (p : Result E A × S)
      (f : A → Method E S B)
      → Yields P p
      → ((a : A) (s : S) → P a s → Yields Q (f a s))
      → Yields Q (after p.0 p.1 f)
  Yields-after P Q (ok a, s) f h k = k a s h
  Yields-after P Q (raise x, s) f h k = tt
  Yields-after P Q (running, s) f h k = elim h [ ]

  -- What is returned may be forgotten.
  pub Yields-unit :
      {A : Type 0} (P : A → S → Type 0) (p : Result E A × S)
      → Yields P p
      → Yields (λ _ _. Unit {0}) p
  Yields-unit P (ok a, s) h = tt
  Yields-unit P (raise x, s) h = tt
  Yields-unit P (running, s) h = h

pub fewer : (a b c : ℕ) {n : ℕ} → a < b → b ≤ c → c < suc n → a < n
fewer a b c {n} x y z = omega arith

pub up_to : (a : ℕ) → a ≤ a
up_to a = omega arith

pub not_below : (a : ℕ) → a < zero → ⊥
not_below a h = omega arith

-- A robot each of whose calls returns or throws.
pub record Responds {R F : Type 0} (r : RobotControl R F) : Type 0 where
  pub updates :
      (m : Option (MotionGeneratorCommand F)) (c : Option (ControllerCommand F)) (s : R)
      → Total (r.update m c s).0
  pub checks :
      (state : RobotState F) (id : ℕ) (s : R) → Total (r.throw_on_motion_error state id s).0
  pub finishes :
      (id : ℕ) (m : Option (MotionGeneratorCommand F)) (c : Option (ControllerCommand F)) (s : R)
      → Total (r.finish_motion id m c s).0
  pub cancels : (id : ℕ) (s : R) → Total (r.cancel_motion id s).0

module _ {F U : Type 0} (remaining : U → ℕ) where
  -- The callbacks return or throw; as long as the motion callback does not finish the motion, it takes
  -- from what remains, and the control callback adds nothing to that.
  abbrev pub Winds :
      (k : MoveGenerator)
      → (RobotState F → Duration → Method (Exception F) U (Generated k F))
      → Type 0
  Winds k motion =
      (state : RobotState F) (step : Duration) (u : U)
      → Yields (λ m v. motion_finished (as_motion k m) ≡ false → remaining v < remaining u)
          (motion state step u)

  abbrev pub Keeps : (RobotState F → Duration → Method (Exception F) U (Torques F)) → Type 0
  Keeps control =
      (state : RobotState F) (step : Duration) (u : U)
      → Yields (λ _ v. remaining v ≤ remaining u) (control state step u)

module _ {R U E A : Type 0} where
  pub Yields-by_user :
      (P : A → U → Type 0) (m : Method E U A) (s : Session R U)
      → Yields P (m s.user)
      → Yields (λ a t. P a t.user) (by_user m s)
  Yields-by_user P m s h = go (m s.user) h
    where
      go :
          (p : Result E A × U)
          → Yields P p
          → Yields (λ a t. P a t.user) (p.0, record s { user = p.1 })
      go (ok a, u) q = q
      go (raise x, u) q = tt
      go (running, u) q = q

  pub Yields-by_robot :
      (m : Method E R A) (s : Session R U)
      → Total (m s.robot).0
      → Yields (λ a t. t.user ≡ s.user) (by_robot m s)
  Yields-by_robot m s h = go (m s.robot) h
    where
      go :
          (p : Result E A × R)
          → Total p.0
          → Yields (λ a t. t.user ≡ s.user) (p.0, record s { robot = p.1 })
      go (ok a, u) q = refl
      go (raise x, u) q = tt
      go (running, u) q = absurd (q refl)

  pub Yields-by_value : (v : Result E A) (s : Session R U) → Total v → Yields (λ a t. t ≡ s) (v, s)
  Yields-by_value (ok a) s h = refl
  Yields-by_value (raise x) s h = tt
  Yields-by_value running s h = absurd (h refl)

module _ {R U F : Type 0} ⦃r : RobotControl R F⦄ (responds : Responds r) where
  pub next_state-Yields :
      (id : ℕ) (m : Option (MotionGeneratorCommand F)) (c : Option (ControllerCommand F))
      (s : Session R U)
      → Yields (λ _ t. t.user ≡ s.user) (next_state id m c s)
  unfolding next_state
  next_state-Yields id m c s =
      Yields-after (λ _ t. t.user ≡ s.user) _ (by_robot (r.update m c) s) _
        (Yields-by_robot (r.update m c) s (responds.updates m c s.robot))
        λ state u p.
          Yields-after (λ _ t. t.user ≡ u.user) _ (by_robot (r.throw_on_motion_error state id) u) _
            (Yields-by_robot (r.throw_on_motion_error state id) u
              (responds.checks state id u.robot))
            λ _ v q. q ∙ p

module _ {R U F : Type 0} ⦃d : Double F⦄ ⦃g : Geometry F⦄ ⦃e : Eigen F⦄ (k : MoveGenerator)
    (remaining : U → ℕ) where
  pub spin_motion-Yields :
      (loop : ControlLoop k U F)
      (motion : RobotState F → Duration → Method (Exception F) U (Generated k F))
      (state : RobotState F) (step : Duration) (m : MotionGeneratorCommand F) (s : Session R U)
      → Winds remaining k motion
      → Yields
          (λ spun t. spun.0 ≡ true → remaining t.user < remaining s.user)
          (spin_motion loop motion state step m s)
  unfolding spin_motion
  spin_motion-Yields loop motion state step m s winds =
      Yields-after
        (λ x t. motion_finished (as_motion k x) ≡ false → remaining t.user < remaining s.user) _
        (by_user (motion state step) s) _
        (Yields-by_user _ (motion state step) s (winds state step s.user))
        λ x u p.
          Yields-after (λ _ t. t ≡ u) _
            (convert_motion k loop.limit_rate loop.cutoff_frequency x state m, u) _
            (Yields-by_value (convert_motion k loop.limit_rate loop.cutoff_frequency x state m) u
              (Total-convert_motion k loop.limit_rate loop.cutoff_frequency x state m))
            λ c v q more.
              subst (λ (w : Session R U). remaining w.user < remaining s.user) (sym q)
                (p (not_true more))
    where
      not_true : {b : Bool} → not b ≡ true → b ≡ false
      not_true {b} h = ground arith

  pub spin_control-Yields :
      (loop : ControlLoop k U F)
      (control : RobotState F → Duration → Method (Exception F) U (Torques F))
      (state : RobotState F) (step : Duration) (s : Session R U)
      → Keeps remaining control
      → Yields (λ _ t. remaining t.user ≤ remaining s.user) (spin_control loop control state step s)
  unfolding spin_control
  spin_control-Yields loop control state step s keeps =
      Yields-after (λ _ t. remaining t.user ≤ remaining s.user) _ (by_user (control state step) s) _
        (Yields-by_user _ (control state step) s (keeps state step s.user))
        λ x u p.
          Yields-after (λ _ t. t ≡ u) _
            (convert_torques loop.limit_rate loop.cutoff_frequency x state, u) _
            (Yields-by_value (convert_torques loop.limit_rate loop.cutoff_frequency x state) u
              (Total-convert_torques loop.limit_rate loop.cutoff_frequency x state))
            λ c v q. subst (λ (w : Session R U). remaining w.user ≤ remaining s.user) (sym q) p
