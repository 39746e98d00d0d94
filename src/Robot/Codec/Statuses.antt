-- ===== src/Robot/Codec/Statuses.antt =====
-- The status bytes of command responses (crates/franka-rs/src/wire/robot/codec/status.rs, the status
-- enums of wire/robot/v5/service_types.rs, wire/robot/v10/service_types/mod.rs and error.rs). An enum
-- of FCI version 5 is a part of the one of version 10, with a numbering of its own.
use franka_rs.Common.{ℕ, Option, none, some, if◌then◌else◌, ◌==◌}
use franka_rs.Robot.Codec.Versions.{FciVersion, v5, v10}

-- `MoveStatus`
pub data MoveStatus : Type 0 where
  success motion_started preempted : MoveStatus
  preempted_due_to_activated_safety_functions command_rejected_due_to_activated_safety_functions
        command_not_possible_rejected :
      MoveStatus
  start_at_singular_pose_rejected invalid_argument_rejected reflex_aborted : MoveStatus
  emergency_aborted input_error_aborted aborted : MoveStatus

-- `StopMoveStatus`
pub data StopMoveStatus : Type 0 where
  success command_not_possible_rejected command_rejected_due_to_activated_safety_functions :
      StopMoveStatus
  emergency_aborted reflex_aborted aborted : StopMoveStatus

-- `AutomaticErrorRecoveryStatus`
pub data AutomaticErrorRecoveryStatus : Type 0 where
  success command_not_possible_rejected command_rejected_due_to_activated_safety_functions :
      AutomaticErrorRecoveryStatus
  manual_error_recovery_required_rejected reflex_aborted emergency_aborted :
      AutomaticErrorRecoveryStatus
  aborted : AutomaticErrorRecoveryStatus

-- `CommandStatus`
pub data CommandStatus : Type 0 where
  success command_not_possible_rejected command_rejected_due_to_activated_safety_functions :
      CommandStatus

-- `GetterSetterStatus`
pub data GetterSetterStatus : Type 0 where
  success command_not_possible_rejected invalid_argument_rejected : GetterSetterStatus
  command_rejected_due_to_activated_safety_functions : GetterSetterStatus

-- `v5::MoveStatus::from_u8`, read as a status of version 10
unfoldable pub move_status_v5 : ℕ → Option MoveStatus
move_status_v5 v =
    if v == 0
    then some MoveStatus.success
    else if v == 1
    then some MoveStatus.motion_started
    else if v == 2
    then some MoveStatus.preempted
    else if v == 3
    then some MoveStatus.command_not_possible_rejected
    else if v == 4
    then some MoveStatus.start_at_singular_pose_rejected
    else if v == 5
    then some MoveStatus.invalid_argument_rejected
    else if v == 6
    then some MoveStatus.reflex_aborted
    else if v == 7
    then some MoveStatus.emergency_aborted
    else if v == 8
    then some MoveStatus.input_error_aborted
    else if v == 9
    then some MoveStatus.aborted
    else none

-- `MoveStatus::from_u8` of version 10
unfoldable pub move_status_v10 : ℕ → Option MoveStatus
move_status_v10 v =
    if v == 0
    then some MoveStatus.success
    else if v == 1
    then some MoveStatus.motion_started
    else if v == 2
    then some MoveStatus.preempted
    else if v == 3
    then some MoveStatus.preempted_due_to_activated_safety_functions
    else if v == 4
    then some MoveStatus.command_rejected_due_to_activated_safety_functions
    else if v == 5
    then some MoveStatus.command_not_possible_rejected
    else if v == 6
    then some MoveStatus.start_at_singular_pose_rejected
    else if v == 7
    then some MoveStatus.invalid_argument_rejected
    else if v == 8
    then some MoveStatus.reflex_aborted
    else if v == 9
    then some MoveStatus.emergency_aborted
    else if v == 10
    then some MoveStatus.input_error_aborted
    else if v == 11
    then some MoveStatus.aborted
    else none

-- `parse_move_status`; `none` is the unexpected response.
unfoldable pub parse_move_status : FciVersion → ℕ → Option MoveStatus
unfolding move_status_v5 move_status_v10
parse_move_status v5 byte = move_status_v5 byte
parse_move_status v10 byte = move_status_v10 byte

-- `v5::StopMoveStatus::from_u8`, read as a status of version 10
unfoldable pub stop_move_status_v5 : ℕ → Option StopMoveStatus
stop_move_status_v5 v =
    if v == 0
    then some StopMoveStatus.success
    else if v == 1
    then some StopMoveStatus.command_not_possible_rejected
    else if v == 2
    then some StopMoveStatus.emergency_aborted
    else if v == 3
    then some StopMoveStatus.reflex_aborted
    else if v == 4
    then some StopMoveStatus.aborted
    else none

-- `StopMoveStatus::from_u8` of version 10
unfoldable pub stop_move_status_v10 : ℕ → Option StopMoveStatus
stop_move_status_v10 v =
    if v == 0
    then some StopMoveStatus.success
    else if v == 1
    then some StopMoveStatus.command_not_possible_rejected
    else if v == 2
    then some StopMoveStatus.command_rejected_due_to_activated_safety_functions
    else if v == 3
    then some StopMoveStatus.emergency_aborted
    else if v == 4
    then some StopMoveStatus.reflex_aborted
    else if v == 5
    then some StopMoveStatus.aborted
    else none

-- `parse_stop_move_status`; `none` is the unexpected response.
unfoldable pub parse_stop_move_status : FciVersion → ℕ → Option StopMoveStatus
unfolding stop_move_status_v5 stop_move_status_v10
parse_stop_move_status v5 byte = stop_move_status_v5 byte
parse_stop_move_status v10 byte = stop_move_status_v10 byte

-- `v5::AutomaticErrorRecoveryStatus::from_u8`, read as a status of version 10
unfoldable pub recovery_status_v5 : ℕ → Option AutomaticErrorRecoveryStatus
recovery_status_v5 v =
    if v == 0
    then some AutomaticErrorRecoveryStatus.success
    else if v == 1
    then some AutomaticErrorRecoveryStatus.command_not_possible_rejected
    else if v == 2
    then some AutomaticErrorRecoveryStatus.manual_error_recovery_required_rejected
    else if v == 3
    then some AutomaticErrorRecoveryStatus.reflex_aborted
    else if v == 4
    then some AutomaticErrorRecoveryStatus.emergency_aborted
    else if v == 5
    then some AutomaticErrorRecoveryStatus.aborted
    else none

-- `AutomaticErrorRecoveryStatus::from_u8` of version 10
unfoldable pub recovery_status_v10 : ℕ → Option AutomaticErrorRecoveryStatus
recovery_status_v10 v =
    if v == 0
    then some AutomaticErrorRecoveryStatus.success
    else if v == 1
    then some AutomaticErrorRecoveryStatus.command_not_possible_rejected
    else if v == 2
    then some AutomaticErrorRecoveryStatus.command_rejected_due_to_activated_safety_functions
    else if v == 3
    then some AutomaticErrorRecoveryStatus.manual_error_recovery_required_rejected
    else if v == 4
    then some AutomaticErrorRecoveryStatus.reflex_aborted
    else if v == 5
    then some AutomaticErrorRecoveryStatus.emergency_aborted
    else if v == 6
    then some AutomaticErrorRecoveryStatus.aborted
    else none

-- `parse_automatic_error_recovery_status`; `none` is the unexpected response.
unfoldable pub parse_automatic_error_recovery_status :
    FciVersion → ℕ → Option AutomaticErrorRecoveryStatus
unfolding recovery_status_v5 recovery_status_v10
parse_automatic_error_recovery_status v5 byte = recovery_status_v5 byte
parse_automatic_error_recovery_status v10 byte = recovery_status_v10 byte

-- `v5::CommandStatus::from_u8`, read as a status of version 10
unfoldable pub command_status_v5 : ℕ → Option CommandStatus
command_status_v5 v =
    if v == 0
    then some CommandStatus.success
    else if v == 1
    then some CommandStatus.command_not_possible_rejected
    else none

-- `CommandStatus::from_u8` of version 10
unfoldable pub command_status_v10 : ℕ → Option CommandStatus
command_status_v10 v =
    if v == 0
    then some CommandStatus.success
    else if v == 1
    then some CommandStatus.command_not_possible_rejected
    else if v == 2
    then some CommandStatus.command_rejected_due_to_activated_safety_functions
    else none

-- `parse_command_status`; `none` is the unexpected response.
unfoldable pub parse_command_status : FciVersion → ℕ → Option CommandStatus
unfolding command_status_v5 command_status_v10
parse_command_status v5 byte = command_status_v5 byte
parse_command_status v10 byte = command_status_v10 byte

-- `v5::GetterSetterStatus::from_u8`, read as a status of version 10
unfoldable pub getter_setter_status_v5 : ℕ → Option GetterSetterStatus
getter_setter_status_v5 v =
    if v == 0
    then some GetterSetterStatus.success
    else if v == 1
    then some GetterSetterStatus.command_not_possible_rejected
    else if v == 2
    then some GetterSetterStatus.invalid_argument_rejected
    else none

-- `GetterSetterStatus::from_u8` of version 10
unfoldable pub getter_setter_status_v10 : ℕ → Option GetterSetterStatus
getter_setter_status_v10 v =
    if v == 0
    then some GetterSetterStatus.success
    else if v == 1
    then some GetterSetterStatus.command_not_possible_rejected
    else if v == 2
    then some GetterSetterStatus.invalid_argument_rejected
    else if v == 3
    then some GetterSetterStatus.command_rejected_due_to_activated_safety_functions
    else none

-- `parse_getter_setter_status`; `none` is the unexpected response.
unfoldable pub parse_getter_setter_status : FciVersion → ℕ → Option GetterSetterStatus
unfolding getter_setter_status_v5 getter_setter_status_v10
parse_getter_setter_status v5 byte = getter_setter_status_v5 byte
parse_getter_setter_status v10 byte = getter_setter_status_v10 byte
