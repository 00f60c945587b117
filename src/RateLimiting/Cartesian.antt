-- ===== src/RateLimiting/Cartesian.antt =====
-- src/rate_limiting.cpp: the limiters of a Cartesian velocity and of a Cartesian pose.
use libfranka.Prelude.{
  Array, nil, ◌▸◌, all_of, Double, unit, Result, ok, raise, bind, if◌then◌else◌,
}
use libfranka.Geometry.{Geometry}
use libfranka.LoadCalculations.{Eigen, skew_symmetric_matrix_from_vector}
use libfranka.ControlTools.{is_homogeneous_transformation}
use libfranka.Exceptions.{Exception, invalid_argument}
use libfranka.RateLimiting.Limits.{
  k_delta_t, k_norm_eps, k_factor_cartesian_rotation_pose_interface,
}
use libfranka.RateLimiting.Joints.{min_of, clamp}

-- The limits of a Cartesian motion, in the order of the parameters.
pub record CartesianLimits (F : Type 0) : Type 0 where
  pub max_translational_velocity : F
  pub max_translational_acceleration : F
  pub max_translational_jerk : F
  pub max_rotational_velocity : F
  pub max_rotational_acceleration : F
  pub max_rotational_jerk : F

module _ {F : Type 0} where
  -- `head(3)` and `tail(3)` of a vector of six, and the vector of both.
  abbrev pub head3 : Array F 6 → Array F 3
  head3 (a ▸ b ▸ c ▸ _ ▸ _ ▸ _ ▸ nil) = a ▸ b ▸ c ▸ nil

  abbrev pub tail3 : Array F 6 → Array F 3
  tail3 (_ ▸ _ ▸ _ ▸ a ▸ b ▸ c ▸ nil) = a ▸ b ▸ c ▸ nil

  abbrev pub join3 : Array F 3 → Array F 3 → Array F 6
  join3 (a ▸ b ▸ c ▸ nil) (x ▸ y ▸ z ▸ nil) = a ▸ b ▸ c ▸ x ▸ y ▸ z ▸ nil

module _ {F : Type 0} ⦃d : Double F⦄ ⦃g : Geometry F⦄ where
  -- The acceleration with the jerk limited.
  abbrev pub limited_jerk :
      (max_jerk : F) → (commanded last_velocity last_acceleration : Array F 3) → Array F 3
  limited_jerk max_jerk commanded last_velocity last_acceleration =
      let jerk =
        g.vec_div
          (g.vec_sub (g.vec_div (g.vec_sub commanded last_velocity) k_delta_t) last_acceleration)
          k_delta_t in
      if d.lt k_norm_eps (g.norm jerk)
      then g.vec_add last_acceleration (
          g.vec_scale
            (g.vec_scale (g.vec_div jerk (g.norm jerk))
              (clamp (g.norm jerk) max_jerk (d.neg max_jerk)))
            k_delta_t)
      else last_acceleration

  -- The distance to the velocity limit in the direction of the acceleration.
  abbrev pub distance_to_max_velocity :
      (max_velocity : F) → (direction last_velocity : Array F 3) → F
  distance_to_max_velocity max_velocity direction last_velocity =
      let two = d.literal 2 0 in
      let along = g.dot direction last_velocity in
      d.add (d.neg along) (
        d.sqrt
          (d.add (d.sub (d.pow along two) (g.squared_norm last_velocity)) (d.pow max_velocity two)))

  -- The overload of the anonymous namespace.
  unfoldable pub limit_vector :
      (max_velocity max_acceleration max_jerk : F)
      → (commanded last_velocity last_acceleration : Array F 3) → Array F 3
  limit_vector max_velocity max_acceleration max_jerk commanded last_velocity last_acceleration =
      let acceleration = limited_jerk max_jerk commanded last_velocity last_acceleration in
      let direction = g.vec_div acceleration (g.norm acceleration) in
      let safe =
        min_of
          (d.mul (d.div max_jerk max_acceleration)
            (distance_to_max_velocity max_velocity direction last_velocity))
          max_acceleration in
      if d.lt k_norm_eps (g.norm acceleration)
      then g.vec_add last_velocity
          (g.vec_scale (g.vec_scale direction (min_of (g.norm acceleration) safe)) k_delta_t)
      else last_velocity

  unfoldable pub limit_twist :
      CartesianLimits F → (twist last_twist last_acceleration : Array F 6) → Array F 6
  limit_twist m twist last_twist last_acceleration =
      join3
        (limit_vector m.max_translational_velocity m.max_translational_acceleration
          m.max_translational_jerk (head3 twist) (head3 last_twist) (head3 last_acceleration))
        (limit_vector m.max_rotational_velocity m.max_rotational_acceleration m.max_rotational_jerk
          (tail3 twist) (tail3 last_twist) (tail3 last_acceleration))

  -- `limitRate` of Cartesian velocities.
  unfoldable pub limit_cartesian_velocity :
      CartesianLimits F
      → (o_dp_ee_c last_o_dp_ee_c last_o_ddp_ee_c : Array F 6) → Result (Exception F) (Array F 6)
  limit_cartesian_velocity m o_dp_ee_c last_o_dp_ee_c last_o_ddp_ee_c =
      if all_of d.is_finite o_dp_ee_c
      then ok (limit_twist m o_dp_ee_c last_o_dp_ee_c last_o_ddp_ee_c)
      else raise (invalid_argument "O_dP_EE_c is infinite or NaN.")

  -- The twist that leads from the last pose to the commanded one in a cycle.
  abbrev pub commanded_twist : ⦃e : Eigen F⦄ → (pose last_pose : Array F 16) → Array F 6
  commanded_twist ⦃e⦄ pose last_pose =
      let difference = e.mat_mul (g.rotation pose) (g.transpose (g.rotation last_pose)) in
      join3 (g.vec_div (g.vec_sub (g.translation pose) (g.translation last_pose)) k_delta_t)
        (g.vec_div (g.vec_scale (g.axis difference) (g.angle difference)) k_delta_t)

  -- The limits with those of the rotation lowered.
  abbrev pub pose_limits : CartesianLimits F → CartesianLimits F
  pose_limits m =
      let k = k_factor_cartesian_rotation_pose_interface in
      record m {
        max_rotational_velocity = d.mul k m.max_rotational_velocity;
        max_rotational_acceleration = d.mul k m.max_rotational_acceleration;
        max_rotational_jerk = d.mul k m.max_rotational_jerk;
      }

  module _ ⦃e : Eigen F⦄ where
    -- The rotation of a cycle at the angular velocity `w`, by the formula of Rodrigues.
    abbrev pub rotation_step : Array F 3 → Array F 9
    rotation_step w =
        let skew = skew_symmetric_matrix_from_vector (g.vec_div w (g.norm w)) in
        let theta = d.mul k_delta_t (g.norm w) in
        e.mat_add (e.mat_add g.identity (e.mat_scale (d.sin theta) skew))
          (e.mat_scale (d.sub unit (d.cos theta)) (e.mat_mul skew skew))

    -- The pose after a cycle of the twist.
    abbrev pub integrate : (last_pose : Array F 16) → (twist : Array F 6) → Array F 16
    integrate last_pose twist =
        g.place g.identity_pose
          (if d.lt k_norm_eps (g.norm (tail3 twist))
            then e.mat_mul (rotation_step (tail3 twist)) (g.rotation last_pose)
            else g.rotation last_pose)
          (g.vec_add (g.translation last_pose) (g.vec_scale (head3 twist) k_delta_t))

    -- `limitRate` of Cartesian poses.
    unfoldable pub limit_cartesian_pose :
        CartesianLimits F
        → (o_t_ee_c last_o_t_ee_c : Array F 16) → (last_o_dp_ee_c last_o_ddp_ee_c : Array F 6)
        → Result (Exception F) (Array F 16)
    limit_cartesian_pose m pose last_pose last_twist last_acceleration =
        if all_of d.is_finite pose
        then if is_homogeneous_transformation pose
          then (bind
              (limit_cartesian_velocity (pose_limits m) (commanded_twist pose last_pose) last_twist
                last_acceleration)
              λ twist. ok (integrate last_pose twist))
          else raise (
              invalid_argument "O_T_EE_c is invalid transformation matrix. Has to be column major!")
        else raise (invalid_argument "O_T_EE_c is infinite or NaN.")
