-- ===== src/Tests/Logger.antt =====
-- Runs of the logger.
use libfranka.Prelude.{ℕ, ◌≡◌, [], ◌∷◌, map}
use libfranka.Interface.{empty_command}
use libfranka.RobotState.{empty_robot_state}
use libfranka.Logger.{new, flush}
use libfranka.Logger.Flush.{Entry, IsLog, log_all, newest, to_record, new-IsLog, flush-log_all}
use libfranka.Tests.Script.{count_double}

abbrev entry : ℕ → Entry ℕ
entry n = (record empty_robot_state { m_ee = n }, record empty_command { message_id = n })

-- Three entries in a ring of two slots.
flush-log_all_example :
    ((flush (log_all (new 2) (entry 1 ∷ entry 2 ∷ entry 3 ∷ []))).0
      ≡ map to_record (newest (new {F = ℕ} 2).log_size (entry 1 ∷ entry 2 ∷ entry 3 ∷ [])))
    × IsLog (flush (log_all (new 2) (entry 1 ∷ entry 2 ∷ entry 3 ∷ []))).1 []
    × ((flush (log_all (new 2) (entry 1 ∷ entry 2 ∷ entry 3 ∷ []))).1.log_size
        ≡ (new {F = ℕ} 2).log_size)
flush-log_all_example = flush-log_all (new 2) (entry 1 ∷ entry 2 ∷ entry 3 ∷ []) (new-IsLog 2)
