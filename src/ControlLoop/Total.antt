-- ===== src/ControlLoop/Total.antt =====
-- The conversions of a command compute: each gives a command or an exception.
use libfranka.Prelude.{
  ℕ, String, Bool, true, false, not, ◌||◌, ◌&&◌, Array, nil, ◌▸◌, all_of, Double, nought, Result,
  ok, raise, running,
}
use libfranka.Geometry.{Geometry}
use libfranka.LoadCalculations.{Eigen}
use libfranka.Interface.{MoveGenerator, MotionGeneratorCommand}
use libfranka.ControlTypes.{Torques, has_elbow}
use libfranka.ControlTools.{
  and_test, is_homogeneous_transformation, check_finite, check_matrix, check_elbow,
}
use libfranka.Exceptions.{Exception, invalid_argument}
use libfranka.RobotState.{RobotState}
use libfranka.RateLimiting.{
  k_delta_t, CartesianLimits, limit_torques, limit_velocity, limit_position, limit_velocities_from,
  limit_velocities, limit_positions_from, limit_positions, limit_cartesian_velocity,
  limit_cartesian_pose, pose_limits, commanded_twist,
}
use libfranka.LowpassFilter.{checked_filter, lowpass_filter, lowpass_all, cartesian_lowpass_filter}
use libfranka.ControlLoop.Convert.{
  Generated, apply_if, filters, limit_elbow, filter_elbow, convert_elbow, convert_motion,
}
use libfranka.ControlLoop.Loop.{convert_torques}
use libfranka.ControlLoop.Ending.{
  Total, Total-ok, Total-raise, Total-if, Total-bind, Total-apply_if, Total-cons_result,
}

module _ {F : Type 0} ⦃d : Double F⦄ where
  Total-and_test :
      (r : Result (Exception F) (Unit {0})) (b : Bool) (what : String)
      → Total r
      → Total (and_test r b what)
  Total-and_test (ok _) true what h = Total-ok tt
  Total-and_test (ok _) false what h = Total-raise (invalid_argument what)
  Total-and_test (raise x) b what h = Total-raise x
  Total-and_test running b what h = h

  Total-check_finite : {n : ℕ} (a : Array F n) → Total (check_finite a)
  unfolding check_finite
  Total-check_finite a = Total-if (not (all_of d.is_finite a)) _ _ (Total-raise _) (Total-ok tt)

  Total-check_matrix : (m : Array F 16) → Total (check_matrix m)
  unfolding check_matrix
  Total-check_matrix m = Total-and_test (check_finite m) _ _ (Total-check_finite m)

  Total-check_elbow : (a : Array F 2) → Total (check_elbow a)
  unfolding check_elbow
  Total-check_elbow a = Total-and_test (check_finite a) _ _ (Total-check_finite a)

  Total-checked_filter :
      {A : Type 0} (of : String) (t f : F) (finite : Bool) (a : A)
      → Total (checked_filter of t f finite a)
  Total-checked_filter of t f finite a =
      Total-if (d.lt t nought || not (d.is_finite t)) _ _ (Total-raise _) (
        Total-if (d.le f nought || not (d.is_finite f)) _ _ (Total-raise _)
          (Total-if (not finite) _ _ (Total-raise _) (Total-ok a)))

  Total-lowpass_filter : (t y z f : F) → Total (lowpass_filter t y z f)
  unfolding lowpass_filter
  Total-lowpass_filter t y z f =
      Total-checked_filter "lowpass-filter: " t f (d.is_finite y && d.is_finite z) _

  Total-lowpass_all : {n : ℕ} (t : F) (ys zs : Array F n) (f : F) → Total (lowpass_all t ys zs f)
  unfolding lowpass_all
  Total-lowpass_all t nil nil f = Total-ok nil
  Total-lowpass_all t (y ▸ ys) (z ▸ zs) f =
      Total-cons_result (lowpass_filter t y z f) (lowpass_all t ys zs f)
        (Total-lowpass_filter t y z f) (Total-lowpass_all t ys zs f)

  Total-limit_torques : (ms cs ls : Array F 7) → Total (limit_torques ms cs ls)
  unfolding limit_torques
  Total-limit_torques ms cs ls = Total-if (all_of d.is_finite cs) _ _ (Total-ok _) (Total-raise _)

  Total-limit_velocity : (u l a j c v w : F) → Total (limit_velocity u l a j c v w)
  unfolding limit_velocity
  Total-limit_velocity u l a j c v w = Total-if (d.is_finite c) _ _ (Total-ok _) (Total-raise _)

  Total-limit_position : (u l a j c p v w : F) → Total (limit_position u l a j c p v w)
  unfolding limit_position
  Total-limit_position u l a j c p v w =
      Total-if (d.is_finite c) _ _
        (Total-bind (limit_velocity u l a j (d.div (d.sub c p) k_delta_t) v w) _
          (Total-limit_velocity u l a j (d.div (d.sub c p) k_delta_t) v w) λ x. Total-ok _)
        (Total-raise _)

  Total-limit_velocities_from :
      {n : ℕ} (us ls accs js cs vs ws : Array F n)
      → Total (limit_velocities_from us ls accs js cs vs ws)
  unfolding limit_velocities_from
  Total-limit_velocities_from nil nil nil nil nil nil nil = Total-ok nil
  Total-limit_velocities_from (u ▸ us) (l ▸ ls) (a ▸ accs) (j ▸ js) (c ▸ cs) (v ▸ vs) (w ▸ ws) =
      Total-cons_result (limit_velocity u l a j c v w)
        (limit_velocities_from us ls accs js cs vs ws) (Total-limit_velocity u l a j c v w)
        (Total-limit_velocities_from us ls accs js cs vs ws)

  Total-limit_positions_from :
      {n : ℕ} (us ls accs js cs ps vs ws : Array F n)
      → Total (limit_positions_from us ls accs js cs ps vs ws)
  unfolding limit_positions_from
  Total-limit_positions_from nil nil nil nil nil nil nil nil = Total-ok nil
  Total-limit_positions_from (u ▸ us) (l ▸ ls) (a ▸ accs) (j ▸ js) (c ▸ cs) (p ▸ ps) (v ▸ vs)
        (w ▸ ws) =
      Total-cons_result (limit_position u l a j c p v w)
        (limit_positions_from us ls accs js cs ps vs ws) (Total-limit_position u l a j c p v w)
        (Total-limit_positions_from us ls accs js cs ps vs ws)

  Total-limit_velocities :
      (us ls accs js cs vs ws : Array F 7) → Total (limit_velocities us ls accs js cs vs ws)
  unfolding limit_velocities
  Total-limit_velocities us ls accs js cs vs ws =
      Total-if (all_of d.is_finite cs) _ _ (Total-limit_velocities_from us ls accs js cs vs ws)
        (Total-raise _)

  Total-limit_positions :
      (us ls accs js cs ps vs ws : Array F 7) → Total (limit_positions us ls accs js cs ps vs ws)
  unfolding limit_positions
  Total-limit_positions us ls accs js cs ps vs ws =
      Total-if (all_of d.is_finite cs) _ _ (Total-limit_positions_from us ls accs js cs ps vs ws)
        (Total-raise _)

  Total-convert_elbow :
      (limit_rate : Bool) (f : F) (elbow : Array F 2) (s : RobotState F)
      (c : MotionGeneratorCommand F)
      → Total (convert_elbow limit_rate f elbow s c)
  unfolding convert_elbow
  Total-convert_elbow limit_rate f elbow s c =
      Total-if (has_elbow elbow) _ _
        (Total-bind (apply_if (filters f) (filter_elbow f s) elbow) _
          (Total-apply_if (filters f) _ elbow λ x.
            Total-bind (lowpass_filter k_delta_t _ _ f) _ (Total-lowpass_filter k_delta_t _ _ f)
              λ y. Total-ok _)
          λ filtered.
            Total-bind (apply_if limit_rate (limit_elbow s) filtered) _
              (Total-apply_if limit_rate _ filtered λ x.
                Total-bind (limit_velocity _ _ _ _ _ _ _) _ (Total-limit_velocity _ _ _ _ _ _ _)
                  λ y. Total-ok _)
              λ limited.
                Total-bind (check_elbow limited) _ (Total-check_elbow limited) λ y. Total-ok _)
        (Total-ok _)

  pub Total-convert_torques :
      (limit_rate : Bool) (f : F) (t : Torques F) (s : RobotState F)
      → Total (convert_torques limit_rate f t s)
  unfolding convert_torques
  Total-convert_torques limit_rate f t s =
      Total-bind (apply_if (filters f) _ t.tau_j) _
        (Total-apply_if (filters f) _ t.tau_j λ x. Total-lowpass_all k_delta_t x s.tau_j_d f)
        λ filtered.
          Total-bind (apply_if limit_rate _ filtered) _
            (Total-apply_if limit_rate _ filtered λ x. Total-limit_torques _ x s.tau_j_d)
            λ limited.
              Total-bind (check_finite limited) _ (Total-check_finite limited) λ y. Total-ok _

  module _ ⦃g : Geometry F⦄ where
    Total-cartesian_lowpass_filter :
        (t : F) (y z : Array F 16) (f : F) → Total (cartesian_lowpass_filter t y z f)
    unfolding cartesian_lowpass_filter
    Total-cartesian_lowpass_filter t y z f =
        Total-checked_filter "Cartesian lowpass-filter: " t f
          (all_of d.is_finite y && all_of d.is_finite z) _

    Total-limit_cartesian_velocity :
        (m : CartesianLimits F) (v w a : Array F 6) → Total (limit_cartesian_velocity m v w a)
    unfolding limit_cartesian_velocity
    Total-limit_cartesian_velocity m v w a =
        Total-if (all_of d.is_finite v) _ _ (Total-ok _) (Total-raise _)

    module _ ⦃e : Eigen F⦄ where
      Total-limit_cartesian_pose :
          (m : CartesianLimits F) (p q : Array F 16) (v a : Array F 6)
          → Total (limit_cartesian_pose m p q v a)
      unfolding limit_cartesian_pose
      Total-limit_cartesian_pose m p q v a =
          Total-if (all_of d.is_finite p) _ _
            (Total-if (is_homogeneous_transformation p) _ _
              (Total-bind (limit_cartesian_velocity (pose_limits m) (commanded_twist p q) v a) _
                (Total-limit_cartesian_velocity (pose_limits m) (commanded_twist p q) v a)
                λ x. Total-ok _)
              (Total-raise _))
            (Total-raise _)

      pub Total-convert_motion :
          (k : MoveGenerator) (limit_rate : Bool) (f : F) (m : Generated k F) (s : RobotState F)
          (c : MotionGeneratorCommand F)
          → Total (convert_motion k limit_rate f m s c)
      unfolding convert_motion
      Total-convert_motion MoveGenerator.joint_position limit_rate f m s c =
          Total-bind (apply_if (filters f) _ m.q) _
            (Total-apply_if (filters f) _ m.q λ x. Total-lowpass_all k_delta_t x s.q_d f)
            λ filtered.
              Total-bind (apply_if limit_rate _ filtered) _
                (Total-apply_if limit_rate _ filtered λ x. Total-limit_positions _ _ _ _ x _ _ _)
                λ limited.
                  Total-bind (check_finite limited) _ (Total-check_finite limited) λ y. Total-ok _
      Total-convert_motion MoveGenerator.joint_velocity limit_rate f m s c =
          Total-bind (apply_if (filters f) _ m.dq) _
            (Total-apply_if (filters f) _ m.dq λ x. Total-lowpass_all k_delta_t x s.dq_d f)
            λ filtered.
              Total-bind (apply_if limit_rate _ filtered) _
                (Total-apply_if limit_rate _ filtered λ x. Total-limit_velocities _ _ _ _ x _ _)
                λ limited.
                  Total-bind (check_finite limited) _ (Total-check_finite limited) λ y. Total-ok _
      Total-convert_motion MoveGenerator.cartesian_position limit_rate f m s c =
          Total-bind (apply_if (filters f) _ m.o_t_ee) _
            (Total-apply_if (filters f) _ m.o_t_ee
              λ x. Total-cartesian_lowpass_filter k_delta_t x s.o_t_ee_c f)
            λ filtered.
              Total-bind (apply_if limit_rate _ filtered) _
                (Total-apply_if limit_rate _ filtered λ x. Total-limit_cartesian_pose _ x _ _ _)
                λ limited.
                  Total-bind (check_matrix limited) _ (Total-check_matrix limited) λ y.
                    Total-convert_elbow limit_rate f m.elbow s (record c { o_t_ee_c = limited })
      Total-convert_motion MoveGenerator.cartesian_velocity limit_rate f m s c =
          Total-bind (apply_if (filters f) _ m.o_dp_ee) _
            (Total-apply_if (filters f) _ m.o_dp_ee
              λ x. Total-lowpass_all k_delta_t x s.o_dp_ee_c f)
            λ filtered.
              Total-bind (apply_if limit_rate _ filtered) _
                (Total-apply_if limit_rate _ filtered λ x. Total-limit_cartesian_velocity _ x _ _)
                λ limited.
                  Total-bind (check_finite limited) _ (Total-check_finite limited) λ y.
                    Total-convert_elbow limit_rate f m.elbow s (record c { o_dp_ee_c = limited })
