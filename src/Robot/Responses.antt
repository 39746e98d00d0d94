-- ===== src/Robot/Responses.antt =====
-- The commands over TCP and what their status answers (crates/franka-rs/src/robot/commands.rs and the
-- lookup of a command in robot_impl/mod.rs).
use franka_rs.Common.{ℕ, Bool, true, false, Option, none, some, List, [], ◌∷◌, Result, ok, err}
use franka_rs.Robot.Codec.Versions.{
  FciVersion, CommandKind, move, stop_move, automatic_error_recovery, get_robot_model, command_id,
}
use franka_rs.Robot.Codec.Statuses.{
  MoveStatus, StopMoveStatus, AutomaticErrorRecoveryStatus, CommandStatus, GetterSetterStatus,
  parse_move_status, parse_stop_move_status, parse_automatic_error_recovery_status,
  parse_command_status, parse_getter_setter_status,
}
use franka_rs.Robot.Modes.{is_other}
use franka_rs.Robot.Session.{
  user_stop_pressed, aborted_by_reflex, invalid_input, singular_pose, path_deviation,
  command_preempted, command_aborted, safety_preempted, safety_rejected, invalid_argument_rejected,
  manual_recovery, not_possible, RobotError, protocol, unexpected_response, command,
  invalid_operation, Session, M, of_result, give, ◌>>=◌, motion_generator_running,
}
use franka_rs.Robot.Session.Socket.{send_request, blocking_receive_response, status_byte}

-- `command_not_possible_message`, as the error it ends in
unfoldable pub command_not_possible : CommandKind → Session → RobotError
command_not_possible name s = command name (not_possible s.robot_mode (is_other s.robot_mode))

-- `handle_command_response`
unfoldable pub handle_command_response :
    CommandKind → CommandStatus → Session → Result RobotError (Unit {0})
unfolding command_not_possible
handle_command_response name CommandStatus.success s = ok tt
handle_command_response name CommandStatus.command_not_possible_rejected s =
    err (command_not_possible name s)
handle_command_response name CommandStatus.command_rejected_due_to_activated_safety_functions s =
    err (command name safety_rejected)

-- `handle_getter_setter_response`
unfoldable pub handle_getter_setter_response :
    CommandKind → GetterSetterStatus → Session → Result RobotError (Unit {0})
unfolding command_not_possible
handle_getter_setter_response name GetterSetterStatus.success s = ok tt
handle_getter_setter_response name GetterSetterStatus.command_not_possible_rejected s =
    err (command_not_possible name s)
handle_getter_setter_response name GetterSetterStatus.invalid_argument_rejected s =
    err (command name invalid_argument_rejected)
handle_getter_setter_response name
      GetterSetterStatus.command_rejected_due_to_activated_safety_functions s =
    err (command name safety_rejected)

-- `handle_move_status`
unfoldable pub handle_move_status : MoveStatus → Bool → Session → Result RobotError (Unit {0})
unfolding command_not_possible
handle_move_status MoveStatus.success running s = ok tt
handle_move_status MoveStatus.motion_started true s =
    err (protocol "libfranka: Move received unexpected motion started message.")
handle_move_status MoveStatus.motion_started false s = ok tt
handle_move_status MoveStatus.emergency_aborted running s = err (command move user_stop_pressed)
handle_move_status MoveStatus.reflex_aborted running s = err (command move aborted_by_reflex)
handle_move_status MoveStatus.input_error_aborted running s = err (command move invalid_input)
handle_move_status MoveStatus.command_not_possible_rejected running s =
    err (command_not_possible move s)
handle_move_status MoveStatus.start_at_singular_pose_rejected running s =
    err (command move singular_pose)
handle_move_status MoveStatus.invalid_argument_rejected running s =
    err (command move path_deviation)
handle_move_status MoveStatus.preempted running s = err (command move command_preempted)
handle_move_status MoveStatus.aborted running s = err (command move command_aborted)
handle_move_status MoveStatus.preempted_due_to_activated_safety_functions running s =
    err (command move safety_preempted)
handle_move_status MoveStatus.command_rejected_due_to_activated_safety_functions running s =
    err (command move safety_rejected)

-- `handle_move_response` and `handle_terminal_move_response`
unfoldable pub handle_move_response : MoveStatus → Session → Result RobotError (Unit {0})
unfolding handle_move_status
handle_move_response status s = handle_move_status status (motion_generator_running s) s

unfoldable pub handle_terminal_move_response : MoveStatus → Session → Result RobotError (Unit {0})
unfolding handle_move_status
handle_terminal_move_response status s = handle_move_status status true s

-- `handle_stop_move_response`
unfoldable pub handle_stop_move_response : StopMoveStatus → Session → Result RobotError (Unit {0})
unfolding command_not_possible
handle_stop_move_response StopMoveStatus.success s = ok tt
handle_stop_move_response StopMoveStatus.command_not_possible_rejected s =
    err (command_not_possible stop_move s)
handle_stop_move_response StopMoveStatus.aborted s = err (command_not_possible stop_move s)
handle_stop_move_response StopMoveStatus.emergency_aborted s =
    err (command stop_move user_stop_pressed)
handle_stop_move_response StopMoveStatus.reflex_aborted s =
    err (command stop_move aborted_by_reflex)
handle_stop_move_response StopMoveStatus.command_rejected_due_to_activated_safety_functions s =
    err (command move safety_rejected)

-- `handle_automatic_error_recovery_response`
unfoldable pub handle_automatic_error_recovery_response :
    AutomaticErrorRecoveryStatus → Session → Result RobotError (Unit {0})
unfolding command_not_possible
handle_automatic_error_recovery_response AutomaticErrorRecoveryStatus.success s = ok tt
handle_automatic_error_recovery_response AutomaticErrorRecoveryStatus.emergency_aborted s =
    err (command automatic_error_recovery user_stop_pressed)
handle_automatic_error_recovery_response AutomaticErrorRecoveryStatus.reflex_aborted s =
    err (command automatic_error_recovery aborted_by_reflex)
handle_automatic_error_recovery_response AutomaticErrorRecoveryStatus.command_not_possible_rejected
      s =
    err (command_not_possible automatic_error_recovery s)
handle_automatic_error_recovery_response
      AutomaticErrorRecoveryStatus.manual_error_recovery_required_rejected s =
    err (command automatic_error_recovery manual_recovery)
handle_automatic_error_recovery_response AutomaticErrorRecoveryStatus.aborted s =
    err (command automatic_error_recovery command_aborted)
handle_automatic_error_recovery_response
      AutomaticErrorRecoveryStatus.command_rejected_due_to_activated_safety_functions s =
    err (command move safety_rejected)

-- A status that the codec does not know is an unexpected response.
abbrev pub expected : {A : Type 0} → CommandKind → Option A → Result RobotError A
expected name none = err (unexpected_response name)
expected name (some a) = ok a

-- `RobotImpl::command_id`
unfoldable pub wire_command : CommandKind → Session → Result RobotError ℕ
wire_command name s = elim (command_id s.version name) [
  | none ↦ err (invalid_operation name)
  | some id ↦ ok id
]

-- The status of a response's payload, by a parser of the codec
abbrev pub parsed :
    {A : Type 0}
    → CommandKind
    → (FciVersion → ℕ → Option A)
    → List ℕ
    → Session
    → Result RobotError A
parsed name parse payload s = elim (status_byte payload) [
  | err e ↦ err e
  | ok byte ↦ expected name (parse s.version byte)
]

-- `move_status` and `stop_move_status`
unfoldable pub move_status : List ℕ → M MoveStatus
move_status payload s = of_result (parsed move parse_move_status payload s) s

unfoldable pub stop_move_status : List ℕ → M StopMoveStatus
stop_move_status payload s = of_result (parsed stop_move parse_stop_move_status payload s) s

-- A handler, run on the session as it is.
abbrev pub handled : (Session → Result RobotError (Unit {0})) → M (Unit {0})
handled handle s = of_result (handle s) s

-- `execute`
unfoldable pub execute : CommandKind → List ℕ → M (List ℕ)
unfolding wire_command
execute name payload = do
  number ← λ s. of_result (wire_command name s) s
  id ← send_request number payload
  blocking_receive_response id

-- `execute_setter`, which the setters call with their requests
unfoldable pub execute_setter : CommandKind → List ℕ → M (Unit {0})
execute_setter name payload = do
  message ← execute name payload
  status ← λ s. of_result (parsed name parse_getter_setter_status message s) s
  handled (handle_getter_setter_response name status)

-- `get_robot_model`: the text behind the status byte
abbrev behind_status : List ℕ → List ℕ
behind_status [] = []
behind_status (_ ∷ text) = text

unfoldable pub get_robot_model_text : M (List ℕ)
get_robot_model_text = do
  message ← execute get_robot_model []
  status ← λ s. of_result (parsed get_robot_model parse_command_status message s) s
  _ ← handled (handle_command_response get_robot_model status)
  give (behind_status message)

-- `automatic_error_recovery` and `stop`
unfoldable pub recover : M (Unit {0})
recover = do
  message ← execute automatic_error_recovery []
  status ← λ s.
      of_result (parsed automatic_error_recovery parse_automatic_error_recovery_status message s) s
  handled (handle_automatic_error_recovery_response status)

unfoldable pub stop : M (Unit {0})
unfolding stop_move_status
stop = do
  message ← execute stop_move []
  status ← stop_move_status message
  handled (handle_stop_move_response status)
