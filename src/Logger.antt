-- ===== src/Logger.antt =====
-- src/logger.h and src/logger.cpp: the ring of the last states and commands.
pub mod Modulo
pub mod History
pub mod Flush
use Prim.Native.Nat.{min}
use libfranka.Prelude.{
  ℕ, zero, suc, ◌+◌, ◌%◌, Bool, false, List, [], ◌∷◌, Double, nought, filled, get_or, set,
  replicate, ◌==◌, if◌then◌else◌,
}
use libfranka.Interface.{WireCommand, empty_command}
use libfranka.RobotState.{RobotState, empty_robot_state}
use libfranka.Exceptions.{RobotCommand, Record}

pub record Logger (F : Type 0) : Type 0 where
  pub states : List (RobotState F)
  pub commands : List (WireCommand F)
  pub ring_front : ℕ
  pub ring_size : ℕ
  pub log_size : ℕ

module _ {F : Type 0} where
  -- What `flush` keeps of a command; the fields that it does not set stay zero.
  pub convert_command : ⦃d : Double F⦄ → WireCommand F → RobotCommand F
  convert_command c = record {
    joint_positions = record { q = c.motion.q_c; motion_finished = false };
    joint_velocities = record { dq = c.motion.dq_c; motion_finished = false };
    cartesian_pose = record {
      o_t_ee = c.motion.o_t_ee_c;
      elbow = filled nought 2;
      motion_finished = false;
    };
    cartesian_velocities = record {
      o_dp_ee = c.motion.o_dp_ee_c;
      elbow = filled nought 2;
      motion_finished = false;
    };
    torques = record { tau_j = c.control.tau_j_d; motion_finished = false };
  }

  pub log : Logger F → RobotState F → WireCommand F → Logger F
  log l state command = if l.log_size == 0 then l else record l {
    commands = set l.commands l.ring_front command;
    states = set l.states l.ring_front state;
    ring_front = (l.ring_front + 1) % l.log_size;
    ring_size = min l.log_size (l.ring_size + 1);
  }

module _ {F : Type 0} ⦃d : Double F⦄ where
  -- `Logger(size_t log_size)`
  pub new : ℕ → Logger F
  new log_size = record {
    states = replicate log_size empty_robot_state;
    commands = replicate log_size empty_command;
    ring_front = 0;
    ring_size = 0;
    log_size = log_size;
  }

  pub record_at : Logger F → ℕ → Record F
  record_at l wrapped_index = record {
    state = get_or l.states wrapped_index empty_robot_state;
    command = convert_command (get_or l.commands wrapped_index empty_command);
  }

  -- The loop of `flush` from the index `i`, with `rounds` rounds to go.
  pub flush_from : Logger F → (rounds i : ℕ) → List (Record F)
  flush_from l zero i = []
  flush_from l (suc rounds) i =
      record_at l ((l.ring_front + i) % l.ring_size) ∷ flush_from l rounds (i + 1)

  unfoldable pub flush : Logger F → List (Record F) × Logger F
  flush l = (flush_from l l.ring_size 0, record l { ring_front = 0; ring_size = 0 })
