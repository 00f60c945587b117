-- ===== src/Printing/Csv.antt =====
-- src/log.cpp: the log as comma-separated values. How a stream writes a number is a parameter.
use libfranka.Prelude.{ℕ, zero, suc, String, Array, nil, ◌▸◌, List, [], ◌∷◌, ◌++◌}
use libfranka.Duration.{to_msec}
use libfranka.RobotState.{RobotState}
use libfranka.Exceptions.{RobotCommand, Record}
use libfranka.Printing.Codes.{Text, codes}

-- `std::ostream << x` for an unsigned integer and for a `double`.
pub record Show (F : Type 0) : Type 0 where
  pub count : ℕ → Text
  pub double : F → Text

-- `os << a << b << ...`
abbrev pub written : List Text → Text
written [] = []
written (t ∷ ts) = t ++ written ts

abbrev pub comma : Text
comma = codes ","

abbrev pub endl : Text
endl = codes "\n"

module _ {F : Type 0} (show : Show F) where
  -- `csvName` of an array of `n` elements, from the index `i` on, `n` at least one.
  unfoldable pub csv_name_from : (n i : ℕ) → Text → Text
  csv_name_from zero i name = []
  csv_name_from (suc zero) i name = written (name ∷ codes "[" ∷ show.count i ∷ codes "]" ∷ [])
  csv_name_from (suc (suc n)) i name =
      written
        (name ∷ codes "[" ∷ show.count i ∷ codes "]," ∷ csv_name_from (suc n) (suc i) name ∷ [])

  abbrev pub csv_name : (n : ℕ) → String → Text
  csv_name n name = csv_name_from n 0 (codes name)

  -- `operator<<` of an array, of one element at least.
  unfoldable pub csv_array : {n : ℕ} → Array F n → Text
  csv_array nil = []
  csv_array (x ▸ nil) = show.double x
  csv_array (x ▸ y ▸ v) = written (show.double x ∷ comma ∷ csv_array (y ▸ v) ∷ [])

  -- The names carry the sizes of the arrays of `RobotState` and of `RobotCommand`.
  unfoldable pub csv_robot_state_header : Text
  csv_robot_state_header = written (
      codes "time,success_rate,"
      ∷ csv_name 7 "state.q"
      ∷ comma
      ∷ csv_name 7 "state.q_d"
      ∷ comma
      ∷ csv_name 7 "state.dq"
      ∷ comma
      ∷ csv_name 7 "state.dq_d"
      ∷ comma
      ∷ csv_name 7 "state.tau_J"
      ∷ comma
      ∷ csv_name 7 "state.tau_ext_hat_filtered"
      ∷ [])

  unfoldable pub csv_robot_command_header : Text
  csv_robot_command_header = written (
      csv_name 7 "cmd.q_d"
      ∷ comma
      ∷ csv_name 7 "cmd.dq_d"
      ∷ comma
      ∷ csv_name 16 "cmd.O_T_EE_d"
      ∷ comma
      ∷ csv_name 6 "cmd.O_dP_EE_d"
      ∷ comma
      ∷ csv_name 7 "cmd.tau_J_d"
      ∷ [])

  -- The two overloads of `csvLine`.
  unfoldable pub csv_state_line : RobotState F → Text
  csv_state_line s = written (
      show.count (to_msec s.time)
      ∷ comma
      ∷ show.double s.control_command_success_rate
      ∷ comma
      ∷ csv_array s.q
      ∷ comma
      ∷ csv_array s.q_d
      ∷ comma
      ∷ csv_array s.dq
      ∷ comma
      ∷ csv_array s.dq_d
      ∷ comma
      ∷ csv_array s.tau_j
      ∷ comma
      ∷ csv_array s.tau_ext_hat_filtered
      ∷ [])

  unfoldable pub csv_command_line : RobotCommand F → Text
  csv_command_line c = written (
      csv_array c.joint_positions.q
      ∷ comma
      ∷ csv_array c.joint_velocities.dq
      ∷ comma
      ∷ csv_array c.cartesian_pose.o_t_ee
      ∷ comma
      ∷ csv_array c.cartesian_velocities.o_dp_ee
      ∷ comma
      ∷ csv_array c.torques.tau_j
      ∷ [])

  -- The loop over the records.
  unfoldable pub csv_lines : List (Record F) → Text
  unfolding csv_state_line csv_command_line
  csv_lines [] = []
  csv_lines (r ∷ log) =
      written (csv_state_line r.state ∷ comma ∷ csv_command_line r.command ∷ endl ∷ [])
      ++ csv_lines log

  -- `logToCSV`
  unfoldable pub log_to_csv : List (Record F) → Text
  unfolding csv_lines csv_robot_state_header csv_robot_command_header
  log_to_csv [] = []
  log_to_csv (r ∷ log) =
      written (csv_robot_state_header ∷ comma ∷ csv_robot_command_header ∷ endl ∷ [])
      ++ csv_lines (r ∷ log)
