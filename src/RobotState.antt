-- ===== src/RobotState.antt =====
-- include/franka/robot_state.h: the state of the robot as the library hands it on, and
-- `convertRobotState` of src/robot_impl.cpp, which makes it from the datagram.
use libfranka.Prelude.{Bool, false, Array, filled, Double, nought}
use libfranka.Interface.{WireState}
use libfranka.Interface
use libfranka.Duration.{Duration, of_msec, default}
use libfranka.LoadCalculations.{Eigen, combine_center_of_mass, combine_inertia_tensor}

pub data RobotMode : Type 0 where
  other idle move guiding reflex user_stopped automatic_error_recovery : RobotMode

-- include/franka/errors.h: the flags of `Errors`, in the order of `research_interface::robot::Error`.
pub record Errors : Type 0 where
  pub flags : Array Bool 41

pub record RobotState (F : Type 0) : Type 0 where
  pub o_t_ee : Array F 16
  pub o_t_ee_d : Array F 16
  pub f_t_ee : Array F 16
  pub f_t_ne : Array F 16
  pub ne_t_ee : Array F 16
  pub ee_t_k : Array F 16
  pub m_ee : F
  pub i_ee : Array F 9
  pub f_x_cee : Array F 3
  pub m_load : F
  pub i_load : Array F 9
  pub f_x_cload : Array F 3
  pub m_total : F
  pub i_total : Array F 9
  pub f_x_ctotal : Array F 3
  pub elbow : Array F 2
  pub elbow_d : Array F 2
  pub elbow_c : Array F 2
  pub delbow_c : Array F 2
  pub ddelbow_c : Array F 2
  pub tau_j : Array F 7
  pub tau_j_d : Array F 7
  pub dtau_j : Array F 7
  pub q : Array F 7
  pub q_d : Array F 7
  pub dq : Array F 7
  pub dq_d : Array F 7
  pub ddq_d : Array F 7
  pub joint_contact : Array F 7
  pub cartesian_contact : Array F 6
  pub joint_collision : Array F 7
  pub cartesian_collision : Array F 6
  pub tau_ext_hat_filtered : Array F 7
  pub o_f_ext_hat_k : Array F 6
  pub k_f_ext_hat_k : Array F 6
  pub o_dp_ee_d : Array F 6
  pub o_ddp_o : Array F 3
  pub o_t_ee_c : Array F 16
  pub o_dp_ee_c : Array F 6
  pub o_ddp_ee_c : Array F 6
  pub theta : Array F 7
  pub dtheta : Array F 7
  pub current_errors : Errors
  pub last_motion_errors : Errors
  pub control_command_success_rate : F
  pub robot_mode : RobotMode
  pub time : Duration

-- The switch over `robot_state.robot_mode`.
abbrev pub convert_robot_mode : Interface.RobotMode → RobotMode
convert_robot_mode Interface.RobotMode.other = other
convert_robot_mode Interface.RobotMode.idle = idle
convert_robot_mode Interface.RobotMode.move = move
convert_robot_mode Interface.RobotMode.guiding = guiding
convert_robot_mode Interface.RobotMode.reflex = reflex
convert_robot_mode Interface.RobotMode.user_stopped = user_stopped
convert_robot_mode Interface.RobotMode.automatic_error_recovery = automatic_error_recovery

-- `RobotState robot_state{};`
abbrev pub empty_robot_state : {F : Type 0} ⦃d : Double F⦄ → RobotState F
empty_robot_state = record {
  o_t_ee = filled nought 16;
  o_t_ee_d = filled nought 16;
  f_t_ee = filled nought 16;
  f_t_ne = filled nought 16;
  ne_t_ee = filled nought 16;
  ee_t_k = filled nought 16;
  m_ee = nought;
  i_ee = filled nought 9;
  f_x_cee = filled nought 3;
  m_load = nought;
  i_load = filled nought 9;
  f_x_cload = filled nought 3;
  m_total = nought;
  i_total = filled nought 9;
  f_x_ctotal = filled nought 3;
  elbow = filled nought 2;
  elbow_d = filled nought 2;
  elbow_c = filled nought 2;
  delbow_c = filled nought 2;
  ddelbow_c = filled nought 2;
  tau_j = filled nought 7;
  tau_j_d = filled nought 7;
  dtau_j = filled nought 7;
  q = filled nought 7;
  q_d = filled nought 7;
  dq = filled nought 7;
  dq_d = filled nought 7;
  ddq_d = filled nought 7;
  joint_contact = filled nought 7;
  cartesian_contact = filled nought 6;
  joint_collision = filled nought 7;
  cartesian_collision = filled nought 6;
  tau_ext_hat_filtered = filled nought 7;
  o_f_ext_hat_k = filled nought 6;
  k_f_ext_hat_k = filled nought 6;
  o_dp_ee_d = filled nought 6;
  o_ddp_o = filled nought 3;
  o_t_ee_c = filled nought 16;
  o_dp_ee_c = filled nought 6;
  o_ddp_ee_c = filled nought 6;
  theta = filled nought 7;
  dtheta = filled nought 7;
  current_errors = record { flags = filled false 41 };
  last_motion_errors = record { flags = filled false 41 };
  control_command_success_rate = nought;
  robot_mode = user_stopped;
  time = default;
}

module _ {F : Type 0} ⦃d : Double F⦄ ⦃e : Eigen F⦄ where
  unfoldable pub convert_robot_state : WireState F → RobotState F
  convert_robot_state s =
      let m_total = d.add s.m_ee s.m_load in
      let f_x_ctotal = combine_center_of_mass s.m_ee s.f_x_cee s.m_load s.f_x_cload in
      record {
        o_t_ee = s.o_t_ee;
        o_t_ee_d = s.o_t_ee_d;
        f_t_ee = s.f_t_ee;
        f_t_ne = s.f_t_ne;
        ne_t_ee = s.ne_t_ee;
        ee_t_k = s.ee_t_k;
        m_ee = s.m_ee;
        i_ee = s.i_ee;
        f_x_cee = s.f_x_cee;
        m_load = s.m_load;
        i_load = s.i_load;
        f_x_cload = s.f_x_cload;
        m_total = m_total;
        i_total =
            combine_inertia_tensor s.m_ee s.f_x_cee s.i_ee s.m_load s.f_x_cload s.i_load m_total
              f_x_ctotal;
        f_x_ctotal = f_x_ctotal;
        elbow = s.elbow;
        elbow_d = s.elbow_d;
        elbow_c = s.elbow_c;
        delbow_c = s.delbow_c;
        ddelbow_c = s.ddelbow_c;
        tau_j = s.tau_j;
        tau_j_d = s.tau_j_d;
        dtau_j = s.dtau_j;
        q = s.q;
        q_d = s.q_d;
        dq = s.dq;
        dq_d = s.dq_d;
        ddq_d = s.ddq_d;
        joint_contact = s.joint_contact;
        cartesian_contact = s.cartesian_contact;
        joint_collision = s.joint_collision;
        cartesian_collision = s.cartesian_collision;
        tau_ext_hat_filtered = s.tau_ext_hat_filtered;
        o_f_ext_hat_k = s.o_f_ext_hat_k;
        k_f_ext_hat_k = s.k_f_ext_hat_k;
        o_dp_ee_d = s.o_dp_ee_d;
        o_ddp_o = s.o_ddp_o;
        o_t_ee_c = s.o_t_ee_c;
        o_dp_ee_c = s.o_dp_ee_c;
        o_ddp_ee_c = s.o_ddp_ee_c;
        theta = s.theta;
        dtheta = s.dtheta;
        current_errors = record { flags = s.errors };
        last_motion_errors = record { flags = s.reflex_reason };
        control_command_success_rate = s.control_command_success_rate;
        robot_mode = convert_robot_mode s.robot_mode;
        time = of_msec s.message_id;
      }
