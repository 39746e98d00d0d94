-- ===== src/Robot/Motion/Abort.antt =====
-- How a motion is cancelled (crates/franka-rs/src/robot/robot_impl/motion.rs).
use franka_rs.Common.{ℕ, Bool, true, false, ◌&&◌, List, [], Result, ok, err, if◌then◌else◌}
use franka_rs.Robot.Codec.Versions.{stop_move}
use franka_rs.Robot.Session.{
  RobotError, command, control_error, done, M, ◌>>=◌, ◌>>◌, give, fail, of_result,
  receive_robot_state,
}
use franka_rs.Robot.Session.Socket.{send_request, blocking_receive_response, try_receive_response}
use franka_rs.Robot.Responses.{handle_stop_move_response, wire_command, stop_move_status}
use franka_rs.Robot.Motion.Cycle.{until, rounds}
use franka_rs.Robot.Motion.Finish.{at_rest, forget_modes}

-- `cancel_motion`
abbrev pub on_stopped : Result RobotError (Unit {0}) → M (Unit {0})
on_stopped (ok _) = give tt
on_stopped (err (command name detail)) = fail (control_error (command name detail))
on_stopped (err e) = fail e

unfoldable pub drain_round : Bool → M Bool
drain_round _ = receive_robot_state >>= λ _. give true

-- The state is read before the first test.
unfoldable pub drain_to_rest : M Bool
unfolding drain_round
drain_to_rest s = until (λ read u. read && at_rest u) drain_round (rounds s) false s

abbrev pub discard_reply : ℕ → M (Unit {0})
discard_reply motion_id = try_receive_response motion_id >>= λ _ s. (done tt, forget_modes s)

abbrev pub drained : ℕ → M (Unit {0})
drained motion_id = drain_to_rest >>= λ _. discard_reply motion_id

abbrev pub stop_answered : ℕ → List ℕ → M (Unit {0})
stop_answered motion_id message = stop_move_status message >>= λ status.
    (λ s. on_stopped (handle_stop_move_response status s) s) >> drained motion_id

abbrev pub stop_sent : ℕ → ℕ → M (Unit {0})
stop_sent motion_id stop_id = blocking_receive_response stop_id >>= stop_answered motion_id

unfoldable pub stop_and_drain : ℕ → M (Unit {0})
unfolding drain_to_rest forget_modes stop_move_status wire_command
stop_and_drain motion_id = (λ s. of_result (wire_command stop_move s) s) >>= λ number.
    send_request number [] >>= stop_sent motion_id

unfoldable pub cancel_motion : ℕ → M (Unit {0})
unfolding stop_and_drain
cancel_motion motion_id s = if s.alive then stop_and_drain motion_id s else (done tt, s)
