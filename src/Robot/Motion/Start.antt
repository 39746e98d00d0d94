-- ===== src/Robot/Motion/Start.antt =====
-- How a motion starts, and single commands
-- (crates/franka-rs/src/robot/robot_impl/motion.rs).
use franka_rs.Common.{
  ℕ, Bool, true, false, ◌||◌, Option, none, some, List, Result, ok, err, if◌then◌else◌,
}
use franka_rs.Robot.Codec.Versions.{FciVersion, v5, v10, move}
use franka_rs.Robot.Codec.Statuses.{MoveStatus}
use franka_rs.Robot.Codec.Encode.{move_request, zeros}
use franka_rs.Robot.Modes.{
  MoveGenerator, move_joint_velocity, move_torque_only, asked_generator, MoveController,
  asked_controller,
}
use franka_rs.Robot.Session.{
  RobotError, command, control_text, control_error, MotionCommand, ControlCommand, RobotCommand,
  done, failed, M, ◌>>=◌, ◌>>◌, give, fail, of_result, motion_generator_running, controller_running,
  move_active,
}
use franka_rs.Robot.Session.Socket.{send_request, blocking_receive_response, try_receive_response}
use franka_rs.Robot.Responses.{handle_move_response, wire_command, move_status, handled}
use franka_rs.Robot.Motion.Cycle.{until, rounds, send_robot_command, flush_log, update_motion}

-- `start_motion`: the modes that are asked for, kept before the request goes out
unfoldable pub ask_modes : MoveController → MoveGenerator → M (Unit {0})
unfolding asked_generator asked_controller
ask_modes controller generator s =
    if motion_generator_running s || controller_running s
    then (failed (control_text "libfranka robot: Attempted to start multiple motions!"), s)
    else (
      done tt,
      record s {
        current_generator = asked_generator generator;
        current_controller = asked_controller controller;
      },
    )

-- What its loop does with an early reply: an accepted one ends the loop.
abbrev pub on_early : Result RobotError (Unit {0}) → M Bool
on_early (ok _) = give true
on_early (err (command name detail)) = fail (control_error (command name detail))
on_early (err e) = fail e

abbrev pub on_polled : Option (List ℕ) → M Bool
on_polled none = update_motion none none >>= λ _. give false
on_polled (some message) =
    move_status message >>= λ status s. on_early (handle_move_response status s) s

unfoldable pub await_start : ℕ → Bool → M Bool
unfolding update_motion move_status
await_start motion_id _ = try_receive_response motion_id >>= on_polled

-- The ends of `start_motion`, each behind the call before it
abbrev pub spun : ℕ → M ℕ
spun motion_id = flush_log >>= λ _. give motion_id

abbrev pub spins : ℕ → M Bool
spins motion_id s =
    until (λ broke u. broke || move_active u) (await_start motion_id) (rounds s) false s

abbrev pub started_with : ℕ → MoveStatus → M ℕ
started_with motion_id status =
    handled (handle_move_response status) >> (spins motion_id >>= λ _. spun motion_id)

abbrev pub answered_with : ℕ → List ℕ → M ℕ
answered_with motion_id message = move_status message >>= started_with motion_id

abbrev pub requested_as : ℕ → M ℕ
requested_as motion_id = blocking_receive_response motion_id >>= answered_with motion_id

abbrev pub numbered : MoveController → MoveGenerator → List ℕ → ℕ → M ℕ
numbered controller generator request number =
    ask_modes controller generator >> (send_request number request >>= requested_as)

abbrev pub encoded : MoveController → MoveGenerator → List ℕ → M ℕ
encoded controller generator request =
    (λ s. of_result (wire_command move s) s) >>= numbered controller generator request

unfoldable pub start_motion : MoveController → MoveGenerator → List ℕ → List ℕ → M ℕ
unfolding ask_modes move_status await_start flush_log
start_motion controller generator path goal =
    (λ s. of_result (move_request s.version controller generator path goal) s)
    >>= encoded controller generator

-- `torque_only_motion_mode`
unfoldable pub torque_only_motion_mode : FciVersion → MoveGenerator
torque_only_motion_mode v5 = move_joint_velocity
torque_only_motion_mode v10 = move_torque_only

-- The zero motion command that version 5 wants beside torques
abbrev pub zero_motion : FciVersion → Option MotionCommand
zero_motion v5 =
    some (record { values = zeros 38; valid_elbow = false; motion_generation_finished = false })
zero_motion v10 = none

-- `write_once_torque_only`
unfoldable pub write_once_torque_only : ControlCommand → M RobotCommand
write_once_torque_only torques s = send_robot_command (zero_motion s.version) (some torques) s
