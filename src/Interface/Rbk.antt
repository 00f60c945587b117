-- ===== src/Interface/Rbk.antt =====
-- common/include/research_interface/robot/rbk_types.h: the datagrams of the real-time channel.
-- A mode byte is one of its enumerators.
use libfranka.Prelude.{ℕ, Bool, true, false, Array, filled, Double, nought}

-- ResearchInterface `MotionGeneratorMode`
pub data MotionGeneratorMode : Type 0 where
  idle joint_position joint_velocity cartesian_position cartesian_velocity : MotionGeneratorMode

pub data ControllerMode : Type 0 where
  joint_impedance cartesian_impedance external_controller other : ControllerMode

pub data RobotMode : Type 0 where
  other idle move guiding reflex user_stopped automatic_error_recovery : RobotMode

-- `==` on the three enumerations.
abbrev pub same_motion : MotionGeneratorMode → MotionGeneratorMode → Bool
same_motion MotionGeneratorMode.idle MotionGeneratorMode.idle = true
same_motion joint_position joint_position = true
same_motion joint_velocity joint_velocity = true
same_motion cartesian_position cartesian_position = true
same_motion cartesian_velocity cartesian_velocity = true
same_motion _ _ = false

abbrev pub same_controller : ControllerMode → ControllerMode → Bool
same_controller joint_impedance joint_impedance = true
same_controller cartesian_impedance cartesian_impedance = true
same_controller external_controller external_controller = true
same_controller ControllerMode.other ControllerMode.other = true
same_controller _ _ = false

abbrev pub same_robot : RobotMode → RobotMode → Bool
same_robot RobotMode.other RobotMode.other = true
same_robot RobotMode.idle RobotMode.idle = true
same_robot move move = true
same_robot guiding guiding = true
same_robot reflex reflex = true
same_robot user_stopped user_stopped = true
same_robot automatic_error_recovery automatic_error_recovery = true
same_robot _ _ = false

-- `research_interface::robot::RobotState`
pub record WireState (F : Type 0) : Type 0 where
  pub message_id : ℕ  -- uint64_t
  pub o_t_ee : Array F 16
  pub o_t_ee_d : Array F 16
  pub f_t_ee : Array F 16
  pub ee_t_k : Array F 16
  pub f_t_ne : Array F 16
  pub ne_t_ee : Array F 16
  pub m_ee : F
  pub i_ee : Array F 9
  pub f_x_cee : Array F 3
  pub m_load : F
  pub i_load : Array F 9
  pub f_x_cload : Array F 3
  pub elbow : Array F 2
  pub elbow_d : Array F 2
  pub tau_j : Array F 7
  pub tau_j_d : Array F 7
  pub dtau_j : Array F 7
  pub q : Array F 7
  pub q_d : Array F 7
  pub dq : Array F 7
  pub dq_d : Array F 7
  pub ddq_d : Array F 7
  pub joint_contact : Array F 7
  pub cartesian_contact : Array F 6
  pub joint_collision : Array F 7
  pub cartesian_collision : Array F 6
  pub tau_ext_hat_filtered : Array F 7
  pub o_f_ext_hat_k : Array F 6
  pub k_f_ext_hat_k : Array F 6
  pub o_dp_ee_d : Array F 6
  pub o_ddp_o : Array F 3
  pub elbow_c : Array F 2
  pub delbow_c : Array F 2
  pub ddelbow_c : Array F 2
  pub o_t_ee_c : Array F 16
  pub o_dp_ee_c : Array F 6
  pub o_ddp_ee_c : Array F 6
  pub theta : Array F 7
  pub dtheta : Array F 7
  pub motion_generator_mode : MotionGeneratorMode
  pub controller_mode : ControllerMode
  pub errors : Array Bool 41
  pub reflex_reason : Array Bool 41
  pub robot_mode : RobotMode
  pub control_command_success_rate : F

pub record MotionGeneratorCommand (F : Type 0) : Type 0 where
  pub q_c : Array F 7
  pub dq_c : Array F 7
  pub o_t_ee_c : Array F 16
  pub o_dp_ee_c : Array F 6
  pub elbow_c : Array F 2
  pub valid_elbow : Bool
  pub motion_generation_finished : Bool

pub record ControllerCommand (F : Type 0) : Type 0 where
  pub tau_j_d : Array F 7

-- `research_interface::robot::RobotCommand`
pub record WireCommand (F : Type 0) : Type 0 where
  pub message_id : ℕ  -- uint64_t
  pub motion : MotionGeneratorCommand F
  pub control : ControllerCommand F

module _ {F : Type 0} ⦃d : Double F⦄ where
  -- `MotionGeneratorCommand motion_command{};`
  abbrev pub empty_motion : MotionGeneratorCommand F
  empty_motion = record {
    q_c = filled nought 7;
    dq_c = filled nought 7;
    o_t_ee_c = filled nought 16;
    o_dp_ee_c = filled nought 6;
    elbow_c = filled nought 2;
    valid_elbow = false;
    motion_generation_finished = false;
  }

  -- `ControllerCommand control_command{};`
  abbrev pub empty_control : ControllerCommand F
  empty_control = record { tau_j_d = filled nought 7 }

  -- `RobotCommand robot_command{};`
  abbrev pub empty_command : WireCommand F
  empty_command = record { message_id = 0; motion = empty_motion; control = empty_control }

  -- `RobotState received_state{};`
  abbrev pub empty_state : WireState F
  empty_state = record {
    message_id = 0;
    o_t_ee = filled nought 16;
    o_t_ee_d = filled nought 16;
    f_t_ee = filled nought 16;
    ee_t_k = filled nought 16;
    f_t_ne = filled nought 16;
    ne_t_ee = filled nought 16;
    m_ee = nought;
    i_ee = filled nought 9;
    f_x_cee = filled nought 3;
    m_load = nought;
    i_load = filled nought 9;
    f_x_cload = filled nought 3;
    elbow = filled nought 2;
    elbow_d = filled nought 2;
    tau_j = filled nought 7;
    tau_j_d = filled nought 7;
    dtau_j = filled nought 7;
    q = filled nought 7;
    q_d = filled nought 7;
    dq = filled nought 7;
    dq_d = filled nought 7;
    ddq_d = filled nought 7;
    joint_contact = filled nought 7;
    cartesian_contact = filled nought 6;
    joint_collision = filled nought 7;
    cartesian_collision = filled nought 6;
    tau_ext_hat_filtered = filled nought 7;
    o_f_ext_hat_k = filled nought 6;
    k_f_ext_hat_k = filled nought 6;
    o_dp_ee_d = filled nought 6;
    o_ddp_o = filled nought 3;
    elbow_c = filled nought 2;
    delbow_c = filled nought 2;
    ddelbow_c = filled nought 2;
    o_t_ee_c = filled nought 16;
    o_dp_ee_c = filled nought 6;
    o_ddp_ee_c = filled nought 6;
    theta = filled nought 7;
    dtheta = filled nought 7;
    motion_generator_mode = MotionGeneratorMode.idle;
    controller_mode = joint_impedance;
    errors = filled false 41;
    reflex_reason = filled false 41;
    robot_mode = RobotMode.other;
    control_command_success_rate = nought;
  }
