-- ===== src/Printing/ErrorNames.antt =====
-- common/include/research_interface/robot/error.h: the errors, and their names.
use libfranka.Prelude.{String, List, [], ◌∷◌}

-- `enum class Error : size_t`
pub data Error : Type 0 where
  joint_position_limits_violation cartesian_position_limits_violation : Error
  selfcollision_avoidance_violation joint_velocity_violation cartesian_velocity_violation : Error
  force_control_safety_violation joint_reflex cartesian_reflex max_goal_pose_deviation_violation :
      Error
  max_path_pose_deviation_violation cartesian_velocity_profile_safety_violation : Error
  joint_position_motion_generator_start_pose_invalid : Error
  joint_motion_generator_position_limits_violation : Error
  joint_motion_generator_velocity_limits_violation joint_motion_generator_velocity_discontinuity :
      Error
  joint_motion_generator_acceleration_discontinuity : Error
  cartesian_position_motion_generator_start_pose_invalid : Error
  cartesian_motion_generator_elbow_limit_violation : Error
  cartesian_motion_generator_velocity_limits_violation : Error
  cartesian_motion_generator_velocity_discontinuity : Error
  cartesian_motion_generator_acceleration_discontinuity : Error
  cartesian_motion_generator_elbow_sign_inconsistent : Error
  cartesian_motion_generator_start_elbow_invalid : Error
  force_controller_desired_force_tolerance_violation start_elbow_sign_inconsistent : Error
  communication_constraints_violation power_limit_violation : Error
  cartesian_motion_generator_joint_position_limits_violation : Error
  cartesian_motion_generator_joint_velocity_limits_violation : Error
  cartesian_motion_generator_joint_velocity_discontinuity : Error
  cartesian_motion_generator_joint_acceleration_discontinuity : Error
  cartesian_position_motion_generator_invalid_frame controller_torque_discontinuity : Error
  joint_p2p_insufficient_torque_for_planning tau_j_range_violation instability_detection : Error
  joint_move_in_wrong_direction cartesian_spline_violation joint_via_plan_limit_violation : Error
  base_acceleration_initialization_timeout base_acceleration_invalid_reading : Error

-- The enumerators in their order: `static_cast<Error>(i)` is element `i`.
abbrev pub enumerators : List Error
enumerators =
    joint_position_limits_violation ∷ cartesian_position_limits_violation
    ∷ selfcollision_avoidance_violation ∷ joint_velocity_violation ∷ cartesian_velocity_violation
    ∷ force_control_safety_violation ∷ joint_reflex ∷ cartesian_reflex
    ∷ max_goal_pose_deviation_violation ∷ max_path_pose_deviation_violation
    ∷ cartesian_velocity_profile_safety_violation
    ∷ joint_position_motion_generator_start_pose_invalid
    ∷ joint_motion_generator_position_limits_violation
    ∷ joint_motion_generator_velocity_limits_violation
    ∷ joint_motion_generator_velocity_discontinuity
    ∷ joint_motion_generator_acceleration_discontinuity
    ∷ cartesian_position_motion_generator_start_pose_invalid
    ∷ cartesian_motion_generator_elbow_limit_violation
    ∷ cartesian_motion_generator_velocity_limits_violation
    ∷ cartesian_motion_generator_velocity_discontinuity
    ∷ cartesian_motion_generator_acceleration_discontinuity
    ∷ cartesian_motion_generator_elbow_sign_inconsistent
    ∷ cartesian_motion_generator_start_elbow_invalid
    ∷ force_controller_desired_force_tolerance_violation ∷ start_elbow_sign_inconsistent
    ∷ communication_constraints_violation ∷ power_limit_violation
    ∷ cartesian_motion_generator_joint_position_limits_violation
    ∷ cartesian_motion_generator_joint_velocity_limits_violation
    ∷ cartesian_motion_generator_joint_velocity_discontinuity
    ∷ cartesian_motion_generator_joint_acceleration_discontinuity
    ∷ cartesian_position_motion_generator_invalid_frame ∷ controller_torque_discontinuity
    ∷ joint_p2p_insufficient_torque_for_planning ∷ tau_j_range_violation ∷ instability_detection
    ∷ joint_move_in_wrong_direction ∷ cartesian_spline_violation ∷ joint_via_plan_limit_violation
    ∷ base_acceleration_initialization_timeout ∷ base_acceleration_invalid_reading ∷ []

-- `getErrorName`
unfoldable pub get_error_name : Error → String
get_error_name joint_position_limits_violation = "joint_position_limits_violation"
get_error_name cartesian_position_limits_violation = "cartesian_position_limits_violation"
get_error_name selfcollision_avoidance_violation = "self_collision_avoidance_violation"
get_error_name joint_velocity_violation = "joint_velocity_violation"
get_error_name cartesian_velocity_violation = "cartesian_velocity_violation"
get_error_name force_control_safety_violation = "force_control_safety_violation"
get_error_name joint_reflex = "joint_reflex"
get_error_name cartesian_reflex = "cartesian_reflex"
get_error_name max_goal_pose_deviation_violation = "max_goal_pose_deviation_violation"
get_error_name max_path_pose_deviation_violation = "max_path_pose_deviation_violation"
get_error_name cartesian_velocity_profile_safety_violation =
    "cartesian_velocity_profile_safety_violation"
get_error_name joint_position_motion_generator_start_pose_invalid =
    "joint_position_motion_generator_start_pose_invalid"
get_error_name joint_motion_generator_position_limits_violation =
    "joint_motion_generator_position_limits_violation"
get_error_name joint_motion_generator_velocity_limits_violation =
    "joint_motion_generator_velocity_limits_violation"
get_error_name joint_motion_generator_velocity_discontinuity =
    "joint_motion_generator_velocity_discontinuity"
get_error_name joint_motion_generator_acceleration_discontinuity =
    "joint_motion_generator_acceleration_discontinuity"
get_error_name cartesian_position_motion_generator_start_pose_invalid =
    "cartesian_position_motion_generator_start_pose_invalid"
get_error_name cartesian_motion_generator_elbow_limit_violation =
    "cartesian_motion_generator_elbow_limit_violation"
get_error_name cartesian_motion_generator_velocity_limits_violation =
    "cartesian_motion_generator_velocity_limits_violation"
get_error_name cartesian_motion_generator_velocity_discontinuity =
    "cartesian_motion_generator_velocity_discontinuity"
get_error_name cartesian_motion_generator_acceleration_discontinuity =
    "cartesian_motion_generator_acceleration_discontinuity"
get_error_name cartesian_motion_generator_elbow_sign_inconsistent =
    "cartesian_motion_generator_elbow_sign_inconsistent"
get_error_name cartesian_motion_generator_start_elbow_invalid =
    "cartesian_motion_generator_start_elbow_invalid"
get_error_name force_controller_desired_force_tolerance_violation =
    "force_controller_desired_force_tolerance_violation"
get_error_name start_elbow_sign_inconsistent = "start_elbow_sign_inconsistent"
get_error_name communication_constraints_violation = "communication_constraints_violation"
get_error_name power_limit_violation = "power_limit_violation"
get_error_name cartesian_motion_generator_joint_position_limits_violation =
    "cartesian_motion_generator_joint_position_limits_violation"
get_error_name cartesian_motion_generator_joint_velocity_limits_violation =
    "cartesian_motion_generator_joint_velocity_limits_violation"
get_error_name cartesian_motion_generator_joint_velocity_discontinuity =
    "cartesian_motion_generator_joint_velocity_discontinuity"
get_error_name cartesian_motion_generator_joint_acceleration_discontinuity =
    "cartesian_motion_generator_joint_acceleration_discontinuity"
get_error_name cartesian_position_motion_generator_invalid_frame =
    "cartesian_position_motion_generator_invalid_frame_flag"
get_error_name controller_torque_discontinuity = "controller_torque_discontinuity"
get_error_name joint_p2p_insufficient_torque_for_planning =
    "joint_p2p_insufficient_torque_for_planning"
get_error_name tau_j_range_violation = "tau_J_range_violation"
get_error_name instability_detection = "instability_detected"
get_error_name joint_move_in_wrong_direction = "joint_move_in_wrong_direction"
get_error_name cartesian_spline_violation = "cartesian_spline_motion_generator_violation"
get_error_name joint_via_plan_limit_violation =
    "joint_via_motion_generator_planning_joint_limit_violation"
get_error_name base_acceleration_initialization_timeout = "base_acceleration_initialization_timeout"
get_error_name base_acceleration_invalid_reading = "base_acceleration_invalid_reading"
