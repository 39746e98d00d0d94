-- ===== src/Robot/Motion/Cycle.antt =====
-- One cycle of a motion, and the loops of cycles
-- (crates/franka-rs/src/robot/robot_impl/motion.rs).
use franka_rs.Common.{
  ℕ, zero, suc, Bool, not, ◌&&◌, ◌||◌, Option, none, some, List, Result, ok, err, if◌then◌else◌,
  length, is_some,
}
use franka_rs.Robot.Codec.Statuses.{MoveStatus}
use franka_rs.Robot.Logger.{log, flush}
use franka_rs.Robot.Modes.{robot_mode_of, is_move, generator_runs, controller_runs}
use franka_rs.Robot.Session.{
  RobotError, protocol, command, control, control_text, Datagram, MotionCommand, ControlCommand,
  RobotCommand, Session, done, stalled, panicked, M, ◌>>=◌, ◌>>◌, give, fail, move_active,
  receive_robot_state,
}
use franka_rs.Robot.Session.Socket.{blocking_receive_response, throw_if_connection_closed, send_udp}
use franka_rs.Robot.Responses.{handle_terminal_move_response, move_status}

-- A loop that a test of its value and of the session ends. `fuel` bounds its rounds.
unfoldable pub until : {A : Type 0} → (A → Session → Bool) → (A → M A) → ℕ → A → M A
until stop body zero a s = (stalled, s)
until stop body (suc fuel) a s =
    if stop a s then (done a, s) else (body a >>= until stop body fuel) s

-- Every round of a loop here waits for a state or is the last one; the tests of the loop are one more
-- than its rounds.
abbrev pub rounds : Session → ℕ
rounds s = suc (suc (length s.readings))

-- What `send_robot_command` refuses, in the order of its guards
unfoldable pub refusal : Option MotionCommand → Option ControlCommand → Session → Option RobotError
refusal motion torques s =
    if is_some motion && not (generator_runs s.current_generator)
    then some (
        control_text
          "libfranka robot: Trying to send motion command, but no motion generator running!")
    else if is_some torques && not (controller_runs s.current_controller)
    then some
        (control_text "libfranka robot: Trying to send control command, but no controller running!")
    else if generator_runs s.current_generator
        && controller_runs s.current_controller
        && not (is_some motion && is_some torques)
    then some (control_text "libfranka robot: Trying to send partial robot command!")
    else none

abbrev pub send_or_refuse : Option RobotError → RobotCommand → M RobotCommand
send_or_refuse none cmd = send_udp cmd >> give cmd
send_or_refuse (some e) cmd = fail e

-- `send_robot_command`
unfoldable pub send_robot_command : Option MotionCommand → Option ControlCommand → M RobotCommand
unfolding refusal
send_robot_command none none s =
    (done (record { message_id = 0; motion = none; control = none }), s)
send_robot_command motion torques s =
    send_or_refuse (refusal motion torques s)
      (record { message_id = s.message_id; motion = motion; control = torques }) s

-- `logger().log` and `logger().flush`
unfoldable pub log_cycle : Datagram → RobotCommand → M (Unit {0})
log_cycle state cmd s = elim (log (state, cmd) s.logger) [
  | none ↦ (panicked, s)
  | some logger ↦ (done tt, record s { logger = logger })
]

unfoldable pub flush_log : M (List (Datagram × RobotCommand))
flush_log s = elim (flush s.logger) [
  | none ↦ (panicked, s)
  | some (entries, logger) ↦ (done entries, record s { logger = logger })
]

-- `update_motion`: with its end, behind the command that was sent
abbrev pub cycle_logged : RobotCommand → Datagram → M Datagram
cycle_logged cmd state = log_cycle state cmd >> give state

abbrev pub cycle_received : RobotCommand → M Datagram
cycle_received cmd = receive_robot_state >>= cycle_logged cmd

unfoldable pub update_motion : Option MotionCommand → Option ControlCommand → M Datagram
unfolding log_cycle
update_motion motion torques =
    throw_if_connection_closed >> (send_robot_command motion torques >>= cycle_received)

-- `create_control_exception`
unfoldable pub create_control_exception : {A : Type 0} → RobotError → MoveStatus → ℕ → M A
unfolding flush_log
create_control_exception text status errors =
    flush_log >>= λ entries. fail (control text status errors entries)

-- The terminal reply to a `Move`: what a rejection ends in, then the rest
unfoldable pub raise_with : {A : Type 0} → MoveStatus → ℕ → RobotError → M A
raise_with status errors (command name detail) =
    create_control_exception (command name detail) status errors
raise_with status errors e = fail e

-- `throw_on_motion_error`
abbrev pub errored : Datagram → Session → Bool
errored state s = not (is_move (robot_mode_of state.robot_byte)) || not (move_active s)

abbrev pub unexpected_reply : MoveStatus → ℕ → Result RobotError (Unit {0}) → M (Unit {0})
unexpected_reply status errors (ok _) = fail (protocol "Unexpected reply to a Move command")
unexpected_reply status errors (err e) = raise_with status errors e

abbrev pub judged : Datagram → MoveStatus → M (Unit {0})
judged state status s =
    unexpected_reply status state.last_motion_errors (handle_terminal_move_response status s) s

abbrev pub replied_with : Datagram → List ℕ → M (Unit {0})
replied_with state message = move_status message >>= judged state

unfoldable pub claim_motion_error : Datagram → ℕ → M (Unit {0})
unfolding move_status
claim_motion_error state motion_id = blocking_receive_response motion_id >>= replied_with state

unfoldable pub throw_on_motion_error : Datagram → ℕ → M (Unit {0})
throw_on_motion_error state motion_id s =
    if errored state s then claim_motion_error state motion_id s else (done tt, s)
