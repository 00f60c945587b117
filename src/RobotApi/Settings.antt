-- ===== src/RobotApi/Settings.antt =====
-- The operations of `Robot` that send one command and do not lock the control mutex.
use libfranka.Prelude.{Bool, Array, Double, Method, pure, ◌>>=◌}
use libfranka.Interface.{Request}
use libfranka.Exceptions.{Exception}
use libfranka.Robot.{Network, execute_command}
use libfranka.ControlLoop.{Session, by_robot}
use libfranka.RobotApi.Lock.{Robot, on_impl}

module _ {N F U : Type 0} ⦃d : Double F⦄ ⦃n : Network N F⦄ where
  -- `impl_->executeCommand<T>(...)`
  unfoldable pub send : Request F → Method (Exception F) (Session (Robot N F) U) (Unit {0})
  send request = on_impl (by_robot (execute_command request)) >>= λ _. pure tt

  abbrev pub set_collision_behavior :
      (lower_torque_acceleration upper_torque_acceleration : Array F 7)
      → (lower_torque_nominal upper_torque_nominal : Array F 7)
      → (lower_force_acceleration upper_force_acceleration : Array F 6)
      → (lower_force_nominal upper_force_nominal : Array F 6)
      → Method (Exception F) (Session (Robot N F) U) (Unit {0})
  set_collision_behavior lta uta ltn utn lfa ufa lfn ufn =
      send (Request.set_collision_behavior lta uta ltn utn lfa ufa lfn ufn)

  -- The overload with the same thresholds for both.
  abbrev pub set_collision_thresholds :
      (lower_torque upper_torque : Array F 7)
      → (lower_force upper_force : Array F 6)
      → Method (Exception F) (Session (Robot N F) U) (Unit {0})
  set_collision_thresholds lt ut lf uf =
      send (Request.set_collision_behavior lt ut lt ut lf uf lf uf)

  abbrev pub set_joint_impedance :
      Array F 7 → Method (Exception F) (Session (Robot N F) U) (Unit {0})
  set_joint_impedance k_theta = send (Request.set_joint_impedance k_theta)

  abbrev pub set_cartesian_impedance :
      Array F 6 → Method (Exception F) (Session (Robot N F) U) (Unit {0})
  set_cartesian_impedance k_x = send (Request.set_cartesian_impedance k_x)

  abbrev pub set_guiding_mode :
      Array Bool 6 → Bool → Method (Exception F) (Session (Robot N F) U) (Unit {0})
  set_guiding_mode guiding_mode elbow = send (Request.set_guiding_mode guiding_mode elbow)

  abbrev pub set_k : Array F 16 → Method (Exception F) (Session (Robot N F) U) (Unit {0})
  set_k ee_t_k = send (Request.set_ee_to_k ee_t_k)

  abbrev pub set_ee : Array F 16 → Method (Exception F) (Session (Robot N F) U) (Unit {0})
  set_ee ne_t_ee = send (Request.set_ne_to_ee ne_t_ee)

  abbrev pub set_load :
      F → Array F 3 → Array F 9 → Method (Exception F) (Session (Robot N F) U) (Unit {0})
  set_load load_mass f_x_cload load_inertia =
      send (Request.set_load load_mass f_x_cload load_inertia)

  abbrev pub recover : Method (Exception F) (Session (Robot N F) U) (Unit {0})
  recover = send Request.automatic_error_recovery

  abbrev pub stop : Method (Exception F) (Session (Robot N F) U) (Unit {0})
  stop = send Request.stop_move
