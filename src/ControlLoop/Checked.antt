-- ===== src/ControlLoop/Checked.antt =====
-- What the loop sends is checked: no command leaves with a value that is not finite, a matrix that
-- is no transformation or an elbow that is not valid.
use mathlib.Core.Path.{subst}
use libfranka.Prelude.{
  ℕ, String, ◌≡◌, refl, ap, sym, inl, inr, Bool, true, false, not, Array, all_of, Double, Result,
  ok, raise, running, bind, bind-ok, if◌then◌else◌, Bool-cases,
}
use libfranka.Geometry.{Geometry}
use libfranka.LoadCalculations.{Eigen}
use libfranka.Interface.{MoveGenerator, MotionGeneratorCommand, ControllerCommand}
use libfranka.ControlTypes.{Torques, has_elbow}
use libfranka.ControlTools.{
  is_valid_elbow, is_homogeneous_transformation, and_test, check_finite, check_matrix, check_elbow,
}
use libfranka.Exceptions.{Exception, invalid_argument}
use libfranka.RobotState.{RobotState}
use libfranka.ControlLoop.Convert.{
  Generated, apply_if, filters, convert_elbow, convert_motion, filter_elbow, limit_elbow,
}
use libfranka.ControlLoop.Loop.{convert_torques}

module _ {E A : Type 0} where
  chosen :
      {b : Bool} (c : Bool) (x y : Result E A) {z : Result E A}
      → b ≡ c
      → (if b then x else y) ≡ z
      → (if c then x else y) ≡ z
  chosen c x y {z = z} p h = subst (λ v. (if v then x else y) ≡ z) p h

  value : {a b : A} → ◌≡◌ {A = Result E A} (ok a) (ok b) → a ≡ b
  value h = cc

module _ {F : Type 0} ⦃d : Double F⦄ where
  abbrev pub IsFinite : {n : ℕ} → Array F n → Type 0
  IsFinite a = all_of d.is_finite a ≡ true

  check_finite-ok : {n : ℕ} (a : Array F n) → check_finite a ≡ ok tt → IsFinite a
  unfolding check_finite
  check_finite-ok a h = go (all_of d.is_finite a) h
    where
      go :
          (b : Bool)
          → ◌≡◌ {A = Result (Exception F) (Unit {0})}
              (if not b
                then raise (invalid_argument "Commanding value is infinite or NaN.")
                else ok tt)
              (ok tt)
          → b ≡ true
      go true q = refl
      go false q = absurd (cc)

  -- Finite and accepted by the second test.
  guarded_ok :
      (r : Result (Exception F) (Unit {0})) (b : Bool) (x : String)
      → and_test r b x ≡ ok tt
      → (r ≡ ok tt) × (b ≡ true)
  guarded_ok (ok _) true x h = (refl, refl)
  guarded_ok (ok _) false x h = absurd (cc)
  guarded_ok (raise e) b x h = absurd (cc)
  guarded_ok running b x h = absurd (cc)

  check_matrix-ok :
      (m : Array F 16)
      → check_matrix m ≡ ok tt
      → IsFinite m × (is_homogeneous_transformation m ≡ true)
  unfolding check_matrix
  check_matrix-ok m h =
      let (finite, homogeneous) =
        guarded_ok (check_finite m) (is_homogeneous_transformation m) _ h in
      (check_finite-ok m finite, homogeneous)

  check_elbow-ok :
      (elbow : Array F 2)
      → check_elbow elbow ≡ ok tt
      → IsFinite elbow × (is_valid_elbow elbow ≡ true)
  unfolding check_elbow
  check_elbow-ok elbow h =
      let (finite, valid) = guarded_ok (check_finite elbow) (is_valid_elbow elbow) _ h in
      (check_finite-ok elbow finite, valid)

  -- The elbow of a command is either marked as invalid or passes the check.
  abbrev pub IsElbowSafe : MotionGeneratorCommand F → Type 0
  IsElbowSafe c = c.valid_elbow ≡ true → IsFinite c.elbow_c × (is_valid_elbow c.elbow_c ≡ true)

  -- The part of the command that the robot follows in each kind of motion.
  abbrev pub IsSafe : MoveGenerator → MotionGeneratorCommand F → Type 0
  IsSafe MoveGenerator.joint_position c = IsFinite c.q_c
  IsSafe MoveGenerator.joint_velocity c = IsFinite c.dq_c
  IsSafe MoveGenerator.cartesian_position c =
      IsFinite c.o_t_ee_c × (is_homogeneous_transformation c.o_t_ee_c ≡ true) × IsElbowSafe c
  IsSafe MoveGenerator.cartesian_velocity c = IsFinite c.o_dp_ee_c × IsElbowSafe c

  convert_elbow-ok :
      (limit_rate : Bool) (cutoff_frequency : F) (elbow : Array F 2) (s : RobotState F)
      (c t : MotionGeneratorCommand F)
      → convert_elbow limit_rate cutoff_frequency elbow s c ≡ ok t
      → IsElbowSafe t × (t.o_t_ee_c ≡ c.o_t_ee_c) × (t.o_dp_ee_c ≡ c.o_dp_ee_c)
  unfolding convert_elbow
  convert_elbow-ok limit_rate cutoff_frequency elbow s c t h = elim (Bool-cases (has_elbow elbow)) [
    | inl has ↦
        let (filtered, e₁, k₁) =
          bind-ok (apply_if (filters cutoff_frequency) (filter_elbow cutoff_frequency s) elbow) _
            (chosen true _ _ has h) in
        let (limited, e₂, k₂) = bind-ok (apply_if limit_rate (limit_elbow s) filtered) _ k₁ in
        let (_, e₃, k₃) = bind-ok (check_elbow limited) _ k₂ in
        let done = value k₃ in
        (
          (λ _.
              subst (λ (x : Array F 2). IsFinite x × (is_valid_elbow x ≡ true))
                (ap (λ (x : MotionGeneratorCommand F). x.elbow_c) done)
                (check_elbow-ok limited e₃)),
          ap (λ (x : MotionGeneratorCommand F). x.o_t_ee_c) (sym done),
          ap (λ (x : MotionGeneratorCommand F). x.o_dp_ee_c) (sym done),
        )
    | inr absent ↦
        let done = value (chosen false _ _ absent h) in
        (
          (λ valid.
              absurd (let off = ap (λ (x : MotionGeneratorCommand F). x.valid_elbow) done in cc)),
          ap (λ (x : MotionGeneratorCommand F). x.o_t_ee_c) (sym done),
          ap (λ (x : MotionGeneratorCommand F). x.o_dp_ee_c) (sym done),
        )
  ]

  -- A check that passed and the command that was then made.
  checked-ok :
      {A : Type 0} (check : Result (Exception F) (Unit {0})) (a : A) {b : A}
      → bind check (λ _. ok a) ≡ ok b
      → (check ≡ ok tt) × (a ≡ b)
  checked-ok check a h = let (_, e, k) = bind-ok check _ h in (e, value k)

  -- Torques that the loop sends are finite.
  pub convert_torques-IsFinite :
      (limit_rate : Bool) (cutoff_frequency : F) (t : Torques F) (s : RobotState F)
      (c : ControllerCommand F)
      → convert_torques limit_rate cutoff_frequency t s ≡ ok c
      → IsFinite c.tau_j_d
  unfolding convert_torques
  convert_torques-IsFinite limit_rate cutoff_frequency t s c h =
      let (filtered, e₁, k₁) = bind-ok (apply_if (filters cutoff_frequency) _ t.tau_j) _ h in
      let (limited, e₂, k₂) = bind-ok (apply_if limit_rate _ filtered) _ k₁ in
      let (passed, done) = checked-ok (check_finite limited) (record { tau_j_d = limited }) k₂ in
      subst (λ (x : ControllerCommand F). IsFinite x.tau_j_d) done (check_finite-ok limited passed)

  module _ ⦃g : Geometry F⦄ ⦃e : Eigen F⦄ where
    -- The command that the loop makes of a motion is safe to send: the part that the robot follows is
    -- finite, a pose is a homogeneous transformation, and an elbow marked as valid is.
    pub convert_motion-IsSafe :
        (k : MoveGenerator) (limit_rate : Bool) (cutoff_frequency : F) (m : Generated k F)
        (s : RobotState F) (command c : MotionGeneratorCommand F)
        → convert_motion k limit_rate cutoff_frequency m s command ≡ ok c
        → IsSafe k c
    unfolding convert_motion
    convert_motion-IsSafe MoveGenerator.joint_position limit_rate cutoff_frequency m s command c h =
        let (filtered, e₁, k₁) = bind-ok (apply_if (filters cutoff_frequency) _ m.q) _ h in
        let (limited, e₂, k₂) = bind-ok (apply_if limit_rate _ filtered) _ k₁ in
        let (passed, done) =
          checked-ok (check_finite limited) (record command { q_c = limited }) k₂ in
        subst (λ (x : MotionGeneratorCommand F). IsFinite x.q_c) done
          (check_finite-ok limited passed)
    convert_motion-IsSafe MoveGenerator.joint_velocity limit_rate cutoff_frequency m s command c h =
        let (filtered, e₁, k₁) = bind-ok (apply_if (filters cutoff_frequency) _ m.dq) _ h in
        let (limited, e₂, k₂) = bind-ok (apply_if limit_rate _ filtered) _ k₁ in
        let (passed, done) =
          checked-ok (check_finite limited) (record command { dq_c = limited }) k₂ in
        subst (λ (x : MotionGeneratorCommand F). IsFinite x.dq_c) done
          (check_finite-ok limited passed)
    convert_motion-IsSafe MoveGenerator.cartesian_position limit_rate cutoff_frequency m s command c
          h =
        let (filtered, e₁, k₁) = bind-ok (apply_if (filters cutoff_frequency) _ m.o_t_ee) _ h in
        let (limited, e₂, k₂) = bind-ok (apply_if limit_rate _ filtered) _ k₁ in
        let (_, e₃, k₃) = bind-ok (check_matrix limited) _ k₂ in
        let (elbow, pose, twist) =
          convert_elbow-ok limit_rate cutoff_frequency m.elbow s
            (record command { o_t_ee_c = limited }) c k₃ in
        let (finite, homogeneous) = check_matrix-ok limited e₃ in
        (
          subst IsFinite (sym pose) finite,
          subst (λ x. is_homogeneous_transformation x ≡ true) (sym pose) homogeneous,
          elbow,
        )
    convert_motion-IsSafe MoveGenerator.cartesian_velocity limit_rate cutoff_frequency m s command c
          h =
        let (filtered, e₁, k₁) = bind-ok (apply_if (filters cutoff_frequency) _ m.o_dp_ee) _ h in
        let (limited, e₂, k₂) = bind-ok (apply_if limit_rate _ filtered) _ k₁ in
        let (_, e₃, k₃) = bind-ok (check_finite limited) _ k₂ in
        let (elbow, pose, twist) =
          convert_elbow-ok limit_rate cutoff_frequency m.elbow s
            (record command { o_dp_ee_c = limited }) c k₃ in
        (subst IsFinite (sym twist) (check_finite-ok limited e₃), elbow)
