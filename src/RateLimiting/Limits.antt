-- ===== src/RateLimiting/Limits.antt =====
-- The constants of include/franka/rate_limiting.h and include/franka/lowpass_filter.h, computed as the
-- compiler computes them.
use libfranka.Prelude.{ℕ, Array, nil, ◌▸◌, filled, zip_with, Double}

module _ {F : Type 0} ⦃d : Double F⦄ where
  abbrev pub k_delta_t : F
  k_delta_t = d.literal 1 3

  abbrev pub k_limit_eps : F
  k_limit_eps = d.literal 1 3

  -- A literal less `kLimitEps`.
  abbrev pub less_eps : ℕ → ℕ → F
  less_eps m e = d.sub (d.literal m e) k_limit_eps

  abbrev pub k_max_torque_rate : Array F 7
  k_max_torque_rate = filled (less_eps 1000 0) 7

  abbrev pub k_max_joint_jerk : Array F 7
  k_max_joint_jerk =
      less_eps 7500 0
      ▸ less_eps 3750 0
      ▸ less_eps 5000 0
      ▸ less_eps 6250 0
      ▸ less_eps 7500 0
      ▸ less_eps 10000 0
      ▸ less_eps 10000 0
      ▸ nil

  abbrev pub k_max_joint_acceleration : Array F 7
  k_max_joint_acceleration =
      less_eps 15 0
      ▸ less_eps 75 1
      ▸ less_eps 10 0
      ▸ less_eps 125 1
      ▸ less_eps 15 0
      ▸ less_eps 20 0
      ▸ less_eps 20 0
      ▸ nil

  -- `std::numeric_limits<double>::epsilon()`, which is 2 ^ -52.
  abbrev pub k_norm_eps : F
  k_norm_eps = d.literal 2220446049250313080847263336181640625 52

  abbrev pub k_tol_number_packets_lost : F
  k_tol_number_packets_lost = d.literal 3 0

  abbrev pub k_factor_cartesian_rotation_pose_interface : F
  k_factor_cartesian_rotation_pose_interface = d.literal 99 2

  -- `kTolNumberPacketsLost * kDeltaT * a`
  abbrev pub gained : F → F
  gained a = d.mul (d.mul k_tol_number_packets_lost k_delta_t) a

  -- `kLimitEps + kTolNumberPacketsLost * kDeltaT * a`
  abbrev pub tolerance : F → F
  tolerance a = d.add k_limit_eps (gained a)

  -- `v - kLimitEps - kTolNumberPacketsLost * kDeltaT * a`
  abbrev pub less_gained : F → F → F
  less_gained v a = d.sub (d.sub v k_limit_eps) (gained a)

  abbrev pub k_max_translational_jerk : F
  k_max_translational_jerk = less_eps 6500 0

  abbrev pub k_max_translational_acceleration : F
  k_max_translational_acceleration = less_eps 13 0

  abbrev pub k_max_translational_velocity : F
  k_max_translational_velocity = less_gained (d.literal 2 0) k_max_translational_acceleration

  abbrev pub k_max_rotational_jerk : F
  k_max_rotational_jerk = less_eps 12500 0

  abbrev pub k_max_rotational_acceleration : F
  k_max_rotational_acceleration = less_eps 25 0

  abbrev pub k_max_rotational_velocity : F
  k_max_rotational_velocity = less_gained (d.literal 25 1) k_max_rotational_acceleration

  abbrev pub k_max_elbow_jerk : F
  k_max_elbow_jerk = less_eps 5000 0

  abbrev pub k_max_elbow_acceleration : F
  k_max_elbow_acceleration = less_eps 10 0

  abbrev pub k_max_elbow_velocity : F
  k_max_elbow_velocity = less_gained (d.literal 2175 3) k_max_elbow_acceleration

  -- `v - kJointVelocityLimitsTolerance[i]` for the acceleration of the joint `i`.
  abbrev pub joint_limit : F → F → F
  joint_limit v a = d.sub v (tolerance a)

  -- The argument, the joint positions, is not used.
  abbrev pub compute_upper_limits_joint_velocity : Array F 7 → Array F 7
  compute_upper_limits_joint_velocity _ =
      let slow = d.literal 2175 3 in
      let fast = d.literal 261 2 in
      zip_with joint_limit (slow ▸ slow ▸ slow ▸ slow ▸ fast ▸ fast ▸ fast ▸ nil)
        k_max_joint_acceleration

  abbrev pub compute_lower_limits_joint_velocity : Array F 7 → Array F 7
  compute_lower_limits_joint_velocity q =
      zip_with (λ x _. d.neg x) (compute_upper_limits_joint_velocity q) q

  abbrev pub k_max_cutoff_frequency : F
  k_max_cutoff_frequency = d.literal 1000 0
