-- ===== src/ControlLoop/Convert.antt =====
-- `ControlLoop<T>::convertMotion` for the four types of motions.
use libfranka.Prelude.{
  Bool, true, false, Array, nil, ◌▸◌, filled, Double, nought, Result, ok, bind, if◌then◌else◌,
}
use libfranka.Geometry.{Geometry}
use libfranka.LoadCalculations.{Eigen}
use libfranka.Interface.{MoveGenerator, MotionGeneratorCommand}
use libfranka.ControlTypes.{
  JointPositions, JointVelocities, CartesianPose, CartesianVelocities, Motion, joint_positions,
  joint_velocities, cartesian_pose, cartesian_velocities, has_elbow,
}
use libfranka.ControlTools.{check_finite, check_matrix, check_elbow}
use libfranka.Exceptions.{Exception}
use libfranka.RobotState.{RobotState}
use libfranka.RateLimiting.{
  CartesianLimits, k_delta_t, k_max_joint_acceleration, k_max_joint_jerk,
  k_max_translational_velocity, k_max_translational_acceleration, k_max_translational_jerk,
  k_max_rotational_velocity, k_max_rotational_acceleration, k_max_rotational_jerk,
  k_max_elbow_velocity, k_max_elbow_acceleration, k_max_elbow_jerk,
  compute_upper_limits_joint_velocity, compute_lower_limits_joint_velocity, k_max_cutoff_frequency,
  limit_velocity, limit_velocities, limit_positions, limit_cartesian_velocity, limit_cartesian_pose,
}
use libfranka.LowpassFilter.{lowpass_filter, lowpass_all, cartesian_lowpass_filter}

-- The type `T` of `ControlLoop<T>`, named by its `MotionGeneratorTraits<T>::kMotionGeneratorMode`.
abbrev pub Generated : MoveGenerator → Type 0 → Type 0
Generated MoveGenerator.joint_position F = JointPositions F
Generated MoveGenerator.joint_velocity F = JointVelocities F
Generated MoveGenerator.cartesian_position F = CartesianPose F
Generated MoveGenerator.cartesian_velocity F = CartesianVelocities F

-- The motion as one of the four types.
abbrev pub as_motion : {F : Type 0} (k : MoveGenerator) → Generated k F → Motion F
as_motion MoveGenerator.joint_position m = joint_positions m
as_motion MoveGenerator.joint_velocity m = joint_velocities m
as_motion MoveGenerator.cartesian_position m = cartesian_pose m
as_motion MoveGenerator.cartesian_velocity m = cartesian_velocities m

module _ {E A : Type 0} where
  -- `if (b) { a = f(a); }`
  abbrev pub apply_if : Bool → (A → Result E A) → A → Result E A
  apply_if true f a = f a
  apply_if false f a = ok a

module _ {F : Type 0} ⦃d : Double F⦄ where
  -- `cutoff_frequency_ < kMaxCutoffFrequency`
  abbrev pub filters : F → Bool
  filters cutoff_frequency = d.lt cutoff_frequency k_max_cutoff_frequency

  abbrev pub cartesian_limits : CartesianLimits F
  cartesian_limits = record {
    max_translational_velocity = k_max_translational_velocity;
    max_translational_acceleration = k_max_translational_acceleration;
    max_translational_jerk = k_max_translational_jerk;
    max_rotational_velocity = k_max_rotational_velocity;
    max_rotational_acceleration = k_max_rotational_acceleration;
    max_rotational_jerk = k_max_rotational_jerk;
  }

  abbrev pub angle_of : Array F 2 → F
  angle_of (angle ▸ _ ▸ nil) = angle

  abbrev pub with_angle : F → Array F 2 → Array F 2
  with_angle angle (_ ▸ sign ▸ nil) = angle ▸ sign ▸ nil

  -- `limitRate` of the angle of the elbow. The call in the source has these seven arguments in this
  -- order, which makes it a call of the limiter of one velocity.
  abbrev pub limit_elbow : RobotState F → Array F 2 → Result (Exception F) (Array F 2)
  limit_elbow s elbow =
      bind
        (limit_velocity k_max_elbow_velocity k_max_elbow_acceleration k_max_elbow_jerk
          (angle_of elbow) (angle_of s.elbow_c) (angle_of s.delbow_c) (angle_of s.ddelbow_c))
        λ angle. ok (with_angle angle elbow)

  abbrev pub filter_elbow :
      (cutoff_frequency : F) → RobotState F → Array F 2 → Result (Exception F) (Array F 2)
  filter_elbow cutoff_frequency s elbow =
      bind (lowpass_filter k_delta_t (angle_of elbow) (angle_of s.elbow_c) cutoff_frequency)
        λ angle. ok (with_angle angle elbow)

  -- The elbow of a Cartesian command.
  unfoldable pub convert_elbow :
      (limit_rate : Bool)
      → (cutoff_frequency : F) → Array F 2
      → RobotState F
      → MotionGeneratorCommand F
      → Result (Exception F) (MotionGeneratorCommand F)
  convert_elbow limit_rate cutoff_frequency elbow s command =
      if has_elbow elbow
      then (bind (apply_if (filters cutoff_frequency) (filter_elbow cutoff_frequency s) elbow)
          λ filtered. bind (apply_if limit_rate (limit_elbow s) filtered) λ limited.
            bind (check_elbow limited)
              λ _. ok (record command { valid_elbow = true; elbow_c = limited }))
      else ok (record command { valid_elbow = false; elbow_c = filled nought 2 })

  module _ ⦃g : Geometry F⦄ ⦃e : Eigen F⦄ where
    -- `convertMotion`, which writes to the command.
    unfoldable pub convert_motion :
        (k : MoveGenerator)
        → (limit_rate : Bool) → (cutoff_frequency : F) → Generated k F
        → RobotState F
        → MotionGeneratorCommand F
        → Result (Exception F) (MotionGeneratorCommand F)
    unfolding convert_elbow
    convert_motion MoveGenerator.joint_position limit_rate cutoff_frequency m s command =
        bind
          (apply_if (filters cutoff_frequency) (λ q. lowpass_all k_delta_t q s.q_d cutoff_frequency)
            m.q)
          λ filtered.
            bind
              (apply_if limit_rate
                (λ q.
                  limit_positions (compute_upper_limits_joint_velocity s.q_d)
                    (compute_lower_limits_joint_velocity s.q_d) k_max_joint_acceleration
                    k_max_joint_jerk q s.q_d s.dq_d s.ddq_d)
                filtered)
              λ limited. bind (check_finite limited) λ _. ok (record command { q_c = limited })
    convert_motion MoveGenerator.joint_velocity limit_rate cutoff_frequency m s command =
        bind
          (apply_if (filters cutoff_frequency)
            (λ v. lowpass_all k_delta_t v s.dq_d cutoff_frequency) m.dq)
          λ filtered.
            bind
              (apply_if limit_rate
                (λ v.
                  limit_velocities (compute_upper_limits_joint_velocity s.q_d)
                    (compute_lower_limits_joint_velocity s.q_d) k_max_joint_acceleration
                    k_max_joint_jerk v s.dq_d s.ddq_d)
                filtered)
              λ limited. bind (check_finite limited) λ _. ok (record command { dq_c = limited })
    convert_motion MoveGenerator.cartesian_position limit_rate cutoff_frequency m s command =
        bind
          (apply_if (filters cutoff_frequency)
            (λ pose. cartesian_lowpass_filter k_delta_t pose s.o_t_ee_c cutoff_frequency) m.o_t_ee)
          λ filtered.
            bind
              (apply_if limit_rate
                (λ pose.
                  limit_cartesian_pose cartesian_limits pose s.o_t_ee_c s.o_dp_ee_c s.o_ddp_ee_c)
                filtered)
              λ limited. bind (check_matrix limited) λ _.
                convert_elbow limit_rate cutoff_frequency m.elbow s
                  (record command { o_t_ee_c = limited })
    convert_motion MoveGenerator.cartesian_velocity limit_rate cutoff_frequency m s command =
        bind
          (apply_if (filters cutoff_frequency)
            (λ v. lowpass_all k_delta_t v s.o_dp_ee_c cutoff_frequency) m.o_dp_ee)
          λ filtered.
            bind
              (apply_if limit_rate
                (λ v. limit_cartesian_velocity cartesian_limits v s.o_dp_ee_c s.o_ddp_ee_c)
                filtered)
              λ limited. bind (check_finite limited) λ _.
                convert_elbow limit_rate cutoff_frequency m.elbow s
                  (record command { o_dp_ee_c = limited })
