-- ===== src/Printing/States.antt =====
-- The states as text: src/robot_state.cpp, src/gripper_state.cpp and src/vacuum_gripper_state.cpp.
use libfranka.Prelude.{ℕ, Bool, true, false, Array, [], ◌∷◌, Double}
use libfranka.Duration.{to_msec, to_sec}
use libfranka.RobotState.{RobotMode, RobotState}
use libfranka.Gripper.{GripperState}
use libfranka.VacuumGripper.{VacuumGripperState, VacuumGripperDeviceStatus}
use libfranka.Printing.Codes.{Text, codes}
use libfranka.Printing.Flags.{errors_text}
use libfranka.Printing.Csv.{Show, written, csv_array}

-- `operator<<` of a mode, and of a `bool`.
unfoldable pub mode_text : RobotMode → Text
mode_text RobotMode.user_stopped = codes "\"User stopped\""
mode_text RobotMode.idle = codes "\"Idle\""
mode_text RobotMode.move = codes "\"Move\""
mode_text RobotMode.guiding = codes "\"Guiding\""
mode_text RobotMode.reflex = codes "\"Reflex\""
mode_text RobotMode.automatic_error_recovery = codes "\"Automatic error recovery\""
mode_text RobotMode.other = codes "\"Other\""

abbrev pub bool_text : Bool → Text
bool_text true = codes "1"
bool_text false = codes "0"

-- The switch over the status of a vacuum gripper.
abbrev pub device_status_text : VacuumGripperDeviceStatus → Text
device_status_text VacuumGripperDeviceStatus.green = codes "Green"
device_status_text VacuumGripperDeviceStatus.yellow = codes "Yellow"
device_status_text VacuumGripperDeviceStatus.orange = codes "Orange"
device_status_text VacuumGripperDeviceStatus.red = codes "Red"

module _ {F : Type 0} (show : Show F) where
  -- `operator<<` of an array: the elements with commas, in brackets.
  abbrev pub json_array : {n : ℕ} → Array F n → Text
  json_array v = written (codes "[" ∷ csv_array show v ∷ codes "]" ∷ [])

  unfoldable pub robot_state_text : RobotState F → Text
  robot_state_text s = written (
      codes "{\"O_T_EE\": "
      ∷ json_array s.o_t_ee
      ∷ codes ", \"O_T_EE_d\": "
      ∷ json_array s.o_t_ee_d
      ∷ codes ", \"F_T_NE\": "
      ∷ json_array s.f_t_ne
      ∷ codes ", \"NE_T_EE\": "
      ∷ json_array s.ne_t_ee
      ∷ codes ", \"F_T_EE\": "
      ∷ json_array s.f_t_ee
      ∷ codes ", \"EE_T_K\": "
      ∷ json_array s.ee_t_k
      ∷ codes ", \"m_ee\": "
      ∷ show.double s.m_ee
      ∷ codes ", \"F_x_Cee\": "
      ∷ json_array s.f_x_cee
      ∷ codes ", \"I_ee\": "
      ∷ json_array s.i_ee
      ∷ codes ", \"m_load\": "
      ∷ show.double s.m_load
      ∷ codes ", \"F_x_Cload\": "
      ∷ json_array s.f_x_cload
      ∷ codes ", \"I_load\": "
      ∷ json_array s.i_load
      ∷ codes ", \"m_total\": "
      ∷ show.double s.m_total
      ∷ codes ", \"F_x_Ctotal\": "
      ∷ json_array s.f_x_ctotal
      ∷ codes ", \"I_total\": "
      ∷ json_array s.i_total
      ∷ codes ", \"elbow\": "
      ∷ json_array s.elbow
      ∷ codes ", \"elbow_d\": "
      ∷ json_array s.elbow_d
      ∷ codes ", \"elbow_c\": "
      ∷ json_array s.elbow_c
      ∷ codes ", \"delbow_c\": "
      ∷ json_array s.delbow_c
      ∷ codes ", \"ddelbow_c\": "
      ∷ json_array s.ddelbow_c
      ∷ codes ", \"tau_J\": "
      ∷ json_array s.tau_j
      ∷ codes ", \"tau_J_d\": "
      ∷ json_array s.tau_j_d
      ∷ codes ", \"dtau_J\": "
      ∷ json_array s.dtau_j
      ∷ codes ", \"q\": "
      ∷ json_array s.q
      ∷ codes ", \"dq\": "
      ∷ json_array s.dq
      ∷ codes ", \"q_d\": "
      ∷ json_array s.q_d
      ∷ codes ", \"dq_d\": "
      ∷ json_array s.dq_d
      ∷ codes ", \"ddq_d\": "
      ∷ json_array s.ddq_d
      ∷ codes ", \"joint_contact\": "
      ∷ json_array s.joint_contact
      ∷ codes ", \"cartesian_contact\": "
      ∷ json_array s.cartesian_contact
      ∷ codes ", \"joint_collision\": "
      ∷ json_array s.joint_collision
      ∷ codes ", \"cartesian_collision\": "
      ∷ json_array s.cartesian_collision
      ∷ codes ", \"tau_ext_hat_filtered\": "
      ∷ json_array s.tau_ext_hat_filtered
      ∷ codes ", \"O_F_ext_hat_K\": "
      ∷ json_array s.o_f_ext_hat_k
      ∷ codes ", \"K_F_ext_hat_K\": "
      ∷ json_array s.k_f_ext_hat_k
      ∷ codes ", \"O_dP_EE_d\": "
      ∷ json_array s.o_dp_ee_d
      ∷ codes ", \"O_ddP_O\": "
      ∷ json_array s.o_ddp_o
      ∷ codes ", \"O_T_EE_c\": "
      ∷ json_array s.o_t_ee_c
      ∷ codes ", \"O_dP_EE_c\": "
      ∷ json_array s.o_dp_ee_c
      ∷ codes ", \"O_ddP_EE_c\": "
      ∷ json_array s.o_ddp_ee_c
      ∷ codes ", \"theta\": "
      ∷ json_array s.theta
      ∷ codes ", \"dtheta\": "
      ∷ json_array s.dtheta
      ∷ codes ", \"current_errors\": "
      ∷ errors_text s.current_errors
      ∷ codes ", \"last_motion_errors\": "
      ∷ errors_text s.last_motion_errors
      ∷ codes ", \"control_command_success_rate\": "
      ∷ show.double s.control_command_success_rate
      ∷ codes ", \"robot_mode\": "
      ∷ mode_text s.robot_mode
      ∷ codes ", \"time\": "
      ∷ show.count (to_msec s.time)
      ∷ codes "}"
      ∷ [])

  module _ ⦃d : Double F⦄ where
    unfoldable pub gripper_state_text : GripperState F → Text
    gripper_state_text s = written (
        codes "{\"width\": "
        ∷ show.double s.width
        ∷ codes ", \"max_width\": "
        ∷ show.double s.max_width
        ∷ codes ", \"is_grasped\": "
        ∷ bool_text s.is_grasped
        ∷ codes ", \"temperature\": "
        ∷ show.count s.temperature
        ∷ codes ", \"time\": "
        ∷ show.double (to_sec s.time)
        ∷ codes "}"
        ∷ [])

    unfoldable pub vacuum_gripper_state_text : VacuumGripperState → Text
    vacuum_gripper_state_text s = written (
        codes "{\"in_control_range\": "
        ∷ bool_text s.in_control_range
        ∷ codes ", \"part_detached\": "
        ∷ bool_text s.part_detached
        ∷ codes ", \"part_present\": "
        ∷ bool_text s.part_present
        ∷ codes ", \"device_status\": "
        ∷ codes "\""
        ∷ device_status_text s.device_status
        ∷ codes "\""
        ∷ codes ", \"actual_power\": "
        ∷ show.count s.actual_power
        ∷ codes ", \"vacuum\": "
        ∷ show.count s.vacuum
        ∷ codes ", \"time\": "
        ∷ show.double (to_sec s.time)
        ∷ codes "}"
        ∷ [])
