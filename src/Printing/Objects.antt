-- ===== src/Printing/Objects.antt =====
-- The text of a state of the robot is a JSON object.
use libfranka.Prelude.{◌≡◌, refl, String, List, [], ◌∷◌, ◌++◌}
use libfranka.Duration.{to_msec}
use libfranka.RobotState.{RobotState}
use libfranka.Printing.Codes.{Text, codes}
use libfranka.Printing.Flags.{errors_text}
use libfranka.Printing.Csv.{Show}
use libfranka.Printing.States.{json_array, mode_text, robot_state_text}

abbrev member : String × Text → Text
member (name, value) = codes "\"" ++ (codes name ++ (codes "\": " ++ value))

-- The members with a comma and a space between two of them, and the end of the object.
abbrev members : List (String × Text) → Text
members [] = codes "}"
members (m ∷ []) = member m ++ codes "}"
members (m ∷ n ∷ ms) = member m ++ (codes ", " ++ members (n ∷ ms))

abbrev json_object : List (String × Text) → Text
json_object ms = codes "{" ++ members ms

module _ {F : Type 0} (show : Show F) where
  -- The names and the values, in the order of the text.
  abbrev fields : RobotState F → List (String × Text)
  fields s =
      ("O_T_EE", json_array show s.o_t_ee)
      ∷ ("O_T_EE_d", json_array show s.o_t_ee_d)
      ∷ ("F_T_NE", json_array show s.f_t_ne)
      ∷ ("NE_T_EE", json_array show s.ne_t_ee)
      ∷ ("F_T_EE", json_array show s.f_t_ee)
      ∷ ("EE_T_K", json_array show s.ee_t_k)
      ∷ ("m_ee", show.double s.m_ee)
      ∷ ("F_x_Cee", json_array show s.f_x_cee)
      ∷ ("I_ee", json_array show s.i_ee)
      ∷ ("m_load", show.double s.m_load)
      ∷ ("F_x_Cload", json_array show s.f_x_cload)
      ∷ ("I_load", json_array show s.i_load)
      ∷ ("m_total", show.double s.m_total)
      ∷ ("F_x_Ctotal", json_array show s.f_x_ctotal)
      ∷ ("I_total", json_array show s.i_total)
      ∷ ("elbow", json_array show s.elbow)
      ∷ ("elbow_d", json_array show s.elbow_d)
      ∷ ("elbow_c", json_array show s.elbow_c)
      ∷ ("delbow_c", json_array show s.delbow_c)
      ∷ ("ddelbow_c", json_array show s.ddelbow_c)
      ∷ ("tau_J", json_array show s.tau_j)
      ∷ ("tau_J_d", json_array show s.tau_j_d)
      ∷ ("dtau_J", json_array show s.dtau_j)
      ∷ ("q", json_array show s.q)
      ∷ ("dq", json_array show s.dq)
      ∷ ("q_d", json_array show s.q_d)
      ∷ ("dq_d", json_array show s.dq_d)
      ∷ ("ddq_d", json_array show s.ddq_d)
      ∷ ("joint_contact", json_array show s.joint_contact)
      ∷ ("cartesian_contact", json_array show s.cartesian_contact)
      ∷ ("joint_collision", json_array show s.joint_collision)
      ∷ ("cartesian_collision", json_array show s.cartesian_collision)
      ∷ ("tau_ext_hat_filtered", json_array show s.tau_ext_hat_filtered)
      ∷ ("O_F_ext_hat_K", json_array show s.o_f_ext_hat_k)
      ∷ ("K_F_ext_hat_K", json_array show s.k_f_ext_hat_k)
      ∷ ("O_dP_EE_d", json_array show s.o_dp_ee_d)
      ∷ ("O_ddP_O", json_array show s.o_ddp_o)
      ∷ ("O_T_EE_c", json_array show s.o_t_ee_c)
      ∷ ("O_dP_EE_c", json_array show s.o_dp_ee_c)
      ∷ ("O_ddP_EE_c", json_array show s.o_ddp_ee_c)
      ∷ ("theta", json_array show s.theta)
      ∷ ("dtheta", json_array show s.dtheta)
      ∷ ("current_errors", errors_text s.current_errors)
      ∷ ("last_motion_errors", errors_text s.last_motion_errors)
      ∷ ("control_command_success_rate", show.double s.control_command_success_rate)
      ∷ ("robot_mode", mode_text s.robot_mode)
      ∷ ("time", show.count (to_msec s.time))
      ∷ []

  -- The text is the object of these members.
  pub robot_state_text-json_object :
      (s : RobotState F) → robot_state_text show s ≡ json_object (fields s)
  unfolding robot_state_text codes
  robot_state_text-json_object s = refl
