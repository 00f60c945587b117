-- ===== src/ControlLoop/Direct.antt =====
-- Without a filter and a limiter the loop sends what the caller of `writeOnce` sends.
use libfranka.Prelude.{
  ◌≡◌, ◌∙◌, ap, Bool, true, false, Array, filled, nought, Double, Result, ok, bind, if◌then◌else◌,
}
use libfranka.Geometry.{Geometry}
use libfranka.LoadCalculations.{Eigen}
use libfranka.Interface.{MoveGenerator, MotionGeneratorCommand, empty_motion}
use libfranka.ControlTypes.{has_elbow, Torques}
use libfranka.ControlTools.{check_finite, check_matrix, check_elbow}
use libfranka.RobotState.{RobotState}
use libfranka.Robot.{with_elbow, create_motion_command, create_controller_command}
use libfranka.ControlLoop.Convert.{
  Generated, as_motion, apply_if, filters, filter_elbow, convert_elbow, convert_motion,
}
use libfranka.ControlLoop.Loop.{convert_torques}

module _ {E A : Type 0} where
  apply_if-off : {b : Bool} (f : A → Result E A) (a : A) → b ≡ false → apply_if b f a ≡ ok a
  apply_if-off f a h = ap (λ v. apply_if v f a) h

module _ {F : Type 0} ⦃d : Double F⦄ where
  convert_elbow-direct :
      (cutoff_frequency : F) (elbow : Array F 2) (s : RobotState F) (c : MotionGeneratorCommand F)
      → filters cutoff_frequency ≡ false
      → convert_elbow false cutoff_frequency elbow s c ≡ with_elbow elbow c
  unfolding convert_elbow with_elbow
  convert_elbow-direct cutoff_frequency elbow s c off =
      ap
        (λ r.
          if has_elbow elbow
          then (bind r
              λ x. bind (check_elbow x) λ _. ok (record c { valid_elbow = true; elbow_c = x }))
          else ok (record c { valid_elbow = false; elbow_c = filled nought 2 }))
        (apply_if-off (filter_elbow cutoff_frequency s) elbow off)

  -- With the limiter off and a cutoff frequency that turns the filter off, `spinControl` makes of
  -- torques the command that `createControllerCommand` makes of them.
  pub convert_torques-direct :
      (cutoff_frequency : F) (t : Torques F) (s : RobotState F)
      → filters cutoff_frequency ≡ false
      → convert_torques false cutoff_frequency t s ≡ create_controller_command t
  unfolding convert_torques create_controller_command
  convert_torques-direct cutoff_frequency t s off =
      ap (λ r. bind r λ x. bind (check_finite x) λ _. ok (record { tau_j_d = x }))
        (apply_if-off _ t.tau_j off)

  module _ ⦃g : Geometry F⦄ ⦃e : Eigen F⦄ where
    -- With the limiter off and a cutoff frequency that turns the filter off, `convertMotion` makes
    -- of a motion of each type, from an empty command, what `createMotionCommand` makes of it,
    -- exceptions included.
    pub convert_motion-direct :
        (k : MoveGenerator) (cutoff_frequency : F) (m : Generated k F) (s : RobotState F)
        → filters cutoff_frequency ≡ false
        → convert_motion k false cutoff_frequency m s empty_motion
          ≡ create_motion_command (as_motion k m)
    unfolding convert_motion create_motion_command
    convert_motion-direct MoveGenerator.joint_position cutoff_frequency m s off =
        ap (λ r. bind r λ x. bind (check_finite x) λ _. ok (record empty_motion { q_c = x }))
          (apply_if-off _ m.q off)
    convert_motion-direct MoveGenerator.joint_velocity cutoff_frequency m s off =
        ap (λ r. bind r λ x. bind (check_finite x) λ _. ok (record empty_motion { dq_c = x }))
          (apply_if-off _ m.dq off)
    convert_motion-direct MoveGenerator.cartesian_position cutoff_frequency m s off =
        ap
          (λ r. bind r λ x. bind (check_matrix x) λ _.
            convert_elbow false cutoff_frequency m.elbow s (record empty_motion { o_t_ee_c = x }))
          (apply_if-off _ m.o_t_ee off)
        ∙ ap (λ z. bind (check_matrix m.o_t_ee) λ _. z)
            (convert_elbow-direct cutoff_frequency m.elbow s
              (record empty_motion { o_t_ee_c = m.o_t_ee }) off)
    convert_motion-direct MoveGenerator.cartesian_velocity cutoff_frequency m s off =
        ap
          (λ r. bind r λ x. bind (check_finite x) λ _.
            convert_elbow false cutoff_frequency m.elbow s (record empty_motion { o_dp_ee_c = x }))
          (apply_if-off _ m.o_dp_ee off)
        ∙ ap (λ z. bind (check_finite m.o_dp_ee) λ _. z)
            (convert_elbow-direct cutoff_frequency m.elbow s
              (record empty_motion { o_dp_ee_c = m.o_dp_ee }) off)
