-- ===== src/Interface/Status.antt =====
-- The `Status` enumerations of common/include/research_interface/robot/service_types.h, and the byte
-- of a response read as one of them. `unlisted` is a byte that no enumerator names: the `default` of
-- the switches over a status.
use libfranka.Prelude.{ℕ, [], ◌∷◌, get_or}

-- `CommandBase::Status`
pub data Basic : Type 0 where
  success command_not_possible_rejected rejected_due_to_safety : Basic
  unlisted : ℕ → Basic

-- `GetterSetterCommandBase::Status`
pub data GetterSetter : Type 0 where
  success command_not_possible_rejected invalid_argument_rejected rejected_due_to_safety :
      GetterSetter
  unlisted : ℕ → GetterSetter

-- `Connect::Status`
pub data Connect : Type 0 where
  success incompatible_library_version : Connect
  unlisted : ℕ → Connect

-- `Move::Status`
pub data Move : Type 0 where
  success motion_started preempted command_not_possible_rejected : Move
  start_at_singular_pose_rejected invalid_argument_rejected reflex_aborted : Move
  emergency_aborted input_error_aborted aborted preempted_due_to_safety : Move
  rejected_due_to_safety : Move
  unlisted : ℕ → Move

-- `StopMove::Status`
pub data StopMove : Type 0 where
  success command_not_possible_rejected emergency_aborted reflex_aborted aborted : StopMove
  rejected_due_to_safety : StopMove
  unlisted : ℕ → StopMove

-- `AutomaticErrorRecovery::Status`
pub data Recovery : Type 0 where
  success command_not_possible_rejected manual_error_recovery_required_rejected : Recovery
  reflex_aborted emergency_aborted aborted rejected_due_to_safety : Recovery
  unlisted : ℕ → Recovery

abbrev pub getter_setter : ℕ → GetterSetter
getter_setter b =
    get_or
      (GetterSetter.success ∷ GetterSetter.command_not_possible_rejected
        ∷ GetterSetter.invalid_argument_rejected ∷ GetterSetter.rejected_due_to_safety ∷ [])
      b (GetterSetter.unlisted b)

abbrev pub connect : ℕ → Connect
connect b =
    get_or (Connect.success ∷ Connect.incompatible_library_version ∷ []) b (Connect.unlisted b)

abbrev pub move : ℕ → Move
move b =
    get_or
      (Move.success ∷ Move.motion_started ∷ Move.preempted ∷ Move.command_not_possible_rejected
        ∷ Move.start_at_singular_pose_rejected ∷ Move.invalid_argument_rejected
        ∷ Move.reflex_aborted ∷ Move.emergency_aborted ∷ Move.input_error_aborted ∷ Move.aborted
        ∷ Move.preempted_due_to_safety ∷ Move.rejected_due_to_safety ∷ [])
      b (Move.unlisted b)

abbrev pub stop_move : ℕ → StopMove
stop_move b =
    get_or
      (StopMove.success ∷ StopMove.command_not_possible_rejected ∷ StopMove.emergency_aborted
        ∷ StopMove.reflex_aborted ∷ StopMove.aborted ∷ StopMove.rejected_due_to_safety ∷ [])
      b (StopMove.unlisted b)

abbrev pub recovery : ℕ → Recovery
recovery b =
    get_or
      (Recovery.success ∷ Recovery.command_not_possible_rejected
        ∷ Recovery.manual_error_recovery_required_rejected ∷ Recovery.reflex_aborted
        ∷ Recovery.emergency_aborted ∷ Recovery.aborted ∷ Recovery.rejected_due_to_safety ∷ [])
      b (Recovery.unlisted b)
