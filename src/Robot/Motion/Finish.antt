-- ===== src/Robot/Motion/Finish.antt =====
-- How a motion ends regularly (crates/franka-rs/src/robot/robot_impl/motion.rs).
use franka_rs.Common.{ℕ, Bool, true, not, ◌&&◌, Option, none, some, Result, ok, err, if◌then◌else◌}
use franka_rs.Robot.Codec.Versions.{FciVersion, v5, v10}
use franka_rs.Robot.Codec.Statuses.{MoveStatus}
use franka_rs.Robot.Modes.{idle, other_controller}
use franka_rs.Robot.Session.{
  RobotError, control_text, MotionCommand, ControlCommand, Session, done, failed, M, ◌>>=◌, give,
  motion_generator_running, controller_running,
}
use franka_rs.Robot.Session.Socket.{blocking_receive_response}
use franka_rs.Robot.Responses.{handle_terminal_move_response, move_status}
use franka_rs.Robot.Motion.Cycle.{
  until, rounds, update_motion, create_control_exception, raise_with,
}
use franka_rs.Robot.Motion.Start.{zero_motion}

-- Whether neither a motion generator nor a controller of the client runs
abbrev pub at_rest : Session → Bool
at_rest s = not (motion_generator_running s) && not (controller_running s)

unfoldable pub forget_modes : Session → Session
forget_modes s = record s { current_generator = idle; current_controller = other_controller }

-- The commands that `finish_motion` repeats
unfoldable pub finished_commands :
    FciVersion
    → Option MotionCommand
    → Option ControlCommand
    → Result RobotError (Option MotionCommand × Option ControlCommand)
finished_commands v (some motion) torques =
    ok (some (record motion { motion_generation_finished = true }), torques)
finished_commands v5 none torques =
    err (control_text "libfranka robot: No motion generator command given!")
finished_commands v10 none (some torques) =
    ok (none, some (record torques { torque_command_finished = true }))
finished_commands v10 none none =
    err (control_text "libfranka robot: No motion generator or control command given!")

-- Its end: the terminal reply, with the errors of the last state
abbrev pub on_terminal : MoveStatus → ℕ → Result RobotError (Unit {0}) → M (Unit {0})
on_terminal status errors (ok _) s = (done tt, forget_modes s)
on_terminal status errors (err e) s = raise_with status errors e s

abbrev pub conclude_with : ℕ → MoveStatus → M (Unit {0})
conclude_with errors MoveStatus.reflex_aborted =
    create_control_exception
      (control_text "Motion finished commanded, but the robot is still moving!")
      MoveStatus.reflex_aborted errors
conclude_with errors status =
    λ s. on_terminal status errors (handle_terminal_move_response status s) s

unfoldable pub conclude_motion : ℕ → ℕ → M (Unit {0})
unfolding move_status create_control_exception forget_modes raise_with
conclude_motion motion_id errors =
    blocking_receive_response motion_id >>= λ message. move_status message >>= conclude_with errors

-- A round, with the errors of the state that it ends with
unfoldable pub finish_round : Option MotionCommand → Option ControlCommand → ℕ → M ℕ
unfolding update_motion
finish_round motion torques _ =
    update_motion motion torques >>= λ state. give state.last_motion_errors

-- `finish_motion`
unfoldable pub finish_running : ℕ → Option MotionCommand → Option ControlCommand → M (Unit {0})
unfolding finish_round conclude_motion
finish_running motion_id motion torques s =
    (until (λ _. at_rest) (finish_round motion torques) (rounds s) 0 >>= conclude_motion motion_id)
      s

abbrev pub finish_with :
    ℕ → Result RobotError (Option MotionCommand × Option ControlCommand) → M (Unit {0})
finish_with motion_id (ok (motion, torques)) s = finish_running motion_id motion torques s
finish_with motion_id (err e) s = (failed e, s)

unfoldable pub finish_motion : ℕ → Option MotionCommand → Option ControlCommand → M (Unit {0})
unfolding forget_modes finish_running
finish_motion motion_id motion torques s =
    if at_rest s
    then (done tt, forget_modes s)
    else finish_with motion_id (finished_commands s.version motion torques) s

-- `finish_torque_only`
unfoldable pub finish_torque_only : ℕ → ControlCommand → M (Unit {0})
unfolding finish_motion
finish_torque_only motion_id torques s =
    finish_motion motion_id (zero_motion s.version) (some torques) s
