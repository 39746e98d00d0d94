-- ===== src/Examples/Sessions.antt =====
-- Sessions with a robot, run at concrete inputs (crates/franka-rs/src/robot).
use franka_rs.Common.{ℕ, ◌+◌, inr, ◌≡◌, ◌⊎◌, true, false, none, some, [], ◌∷◌, ok, err, refl, arith}
use franka_rs.Robot.Codec.Versions.{v5, v10, state_size, command_id, command_id_v10}
use franka_rs.Robot.Codec.Encode.{
  move_request, move_fields, move_controller_number, move_generator_number, f64s_to_wire,
}
use franka_rs.Robot.Connect.{Server}
use franka_rs.Robot.ControlLoop.{
  ControlLoop, Spin, Turn, finish_turn, run, run_inner, turn, default_motion, spin, spin_both,
  spin_control, spin_motion,
}
use franka_rs.Robot.ControlLoop.Fails.{run-Stopped}
use franka_rs.Robot.Motion.Stopping.{StopSaid}
use franka_rs.Robot.ControlLoop.Ends.{Turned, run-Ended}
use franka_rs.Robot.Session.Monad.{Ran}
use franka_rs.Robot.Logger.{RobotStateLogger, new_logger, flush, log, gather}
use franka_rs.Robot.Logger.History.{new_logger-Holds, log_all, flush-log_all}
use franka_rs.Robot.Modes.{
  joint_position, joint_velocity, joint_impedance, external_controller, move, asked_generator,
  asked_controller, robot_mode_of, motion_generator_of, controller_of, controller_code,
  controller_runs, generator_runs, motion_generator_code, same_generator, same_controller, idle,
  other_controller, move_joint_impedance, move_joint_position,
}
use franka_rs.Robot.Motion.Cycle.{
  send_robot_command, until, log_cycle, refusal, throw_on_motion_error, update_motion, flush_log,
}
use franka_rs.Robot.Motion.Start.{start_motion, ask_modes, await_start}
use franka_rs.Robot.Motion.Finish.{
  finish_motion, finish_round, conclude_motion, finish_running, finished_commands, forget_modes,
}
use franka_rs.Robot.Motion.Abort.{cancel_motion, drain_round, drain_to_rest, stop_and_drain}
use franka_rs.Robot.Motion.Cancel.{Cancelled, cancel_motion-Cancelled}
use franka_rs.Robot.Motion.Ends.{Ended, finish_motion-Ended}
use franka_rs.Robot.Motion.Served.{fresh, Served}
use franka_rs.Robot.Motion.Lively.{finish_motion_lively}
use franka_rs.Robot.Motion.Sending.{Sends, send_robot_command-outcome}
use franka_rs.Robot.Session.{
  RobotError, Datagram, RobotCommand, MotionCommand, datagram, nothing, Session, done, failed,
  stalled, receive_robot_state, control_text, controller_running, motion_generator_running,
  move_active, update_state, newer, block, drain, accept,
}
use franka_rs.Robot.Session.Newest.{Received, receive-Received, receive_lively}
use franka_rs.Robot.Codec.Statuses.{
  move_status_v10, parse_move_status, parse_stop_move_status, stop_move_status_v10,
}
use franka_rs.Robot.Responses.{
  handle_move_status, handle_stop_move_response, handle_terminal_move_response, move_status,
  stop_move_status, wire_command, handle_move_response,
}
use franka_rs.Robot.Session.Socket.{
  blocking_receive_response, send_request, send_udp, status_byte, try_receive_response,
  throw_if_connection_closed,
}
use franka_rs.Wire.{to_le_bytes}
use franka_rs.Robot.Motion.Starts.{Started, start_motion-Started}

-- States of version 10: of a motion under the joint impedance controller, and of a robot at rest
abbrev state_moving : ℕ → Datagram
state_moving id = record {
  size = 1377;
  message_id = id;
  motion_generator_byte = 1;
  controller_byte = 0;
  robot_byte = 2;
  last_motion_errors = 0;
}

abbrev state_resting : ℕ → Datagram
state_resting id = record {
  size = 1377;
  message_id = id;
  motion_generator_byte = 0;
  controller_byte = 3;
  robot_byte = 1;
  last_motion_errors = 0;
}

abbrev no_command : RobotCommand
no_command = record { message_id = 0; motion = none; control = none }

-- A motion runs, and comes to rest in state 12.
abbrev session_moving : Session
session_moving = record {
  version = v10;
  message_id = 10;
  robot_mode = move;
  motion_generator_mode = joint_position;
  controller_mode = joint_impedance;
  current_generator = joint_position;
  current_controller = joint_impedance;
  readings =
      datagram (state_moving 9)
      ∷ nothing
      ∷ datagram (state_moving 11)
      ∷ nothing
      ∷ datagram (state_resting 12)
      ∷ [];
  claims = ok (0 ∷ []) ∷ [];
  polls = ok none ∷ [];
  probes = ok tt ∷ ok tt ∷ [];
  sends = ok tt ∷ ok tt ∷ [];
  alive = true;
  next_command_id = 7;
  sent = [];
  logger = new_logger 2 (state_moving 0, no_command);
}

abbrev session_finished : Session
session_finished = (finish_motion 6 (some default_motion) none session_moving).1

finish_motion-Ended_example : Ended session_moving session_finished
unfolding finish_motion finish_running finish_round finished_commands conclude_motion
    blocking_receive_response move_status status_byte parse_move_status move_status_v10
    handle_terminal_move_response handle_move_status forget_modes update_motion
    throw_if_connection_closed send_robot_command refusal send_udp log_cycle log new_logger
    receive_robot_state accept drain block newer state_size update_state motion_generator_of
    controller_of robot_mode_of generator_runs controller_runs motion_generator_running
    controller_running until
finish_motion-Ended_example =
    finish_motion-Ended 6 (some default_motion) none session_moving session_finished refl

abbrev session_cancelled : Session
session_cancelled = (cancel_motion 6 session_moving).1

cancel_motion-Cancelled_example : Cancelled 6 session_moving session_cancelled
unfolding cancel_motion stop_and_drain wire_command command_id command_id_v10 send_request
    blocking_receive_response stop_move_status status_byte parse_stop_move_status
    stop_move_status_v10 handle_stop_move_response drain_to_rest drain_round until
    try_receive_response forget_modes receive_robot_state accept drain block newer state_size
    update_state motion_generator_of controller_of robot_mode_of generator_runs controller_runs
    motion_generator_running controller_running
cancel_motion-Cancelled_example =
    cancel_motion-Cancelled 6 session_moving session_cancelled refl refl

abbrev session_received : Session
session_received = (receive_robot_state session_moving).1

receive-Received_example : Received session_moving session_received (state_moving 11)
unfolding receive_robot_state accept drain block newer state_size update_state motion_generator_of
    controller_of robot_mode_of
receive-Received_example = receive-Received session_moving (state_moving 11) refl

receive_lively_example : (e : Datagram) × ((receive_robot_state session_moving).0 ≡ done e)
unfolding state_size
receive_lively_example =
    receive_lively session_moving (datagram (state_moving 9) ∷ []) [] (state_moving 11)
      (nothing ∷ datagram (state_resting 12) ∷ []) refl (ground arith) tt (ground arith)
      (omega arith)

-- A command with its motion goes out; one with torques beside it does not.
send_robot_command-outcome_example :
    let r = send_robot_command (some default_motion) none session_moving in
    ((cmd : RobotCommand) × (r.0 ≡ done cmd)
      × Sends (some default_motion) none session_moving cmd r.1)
    ⊎ ((r.1.sent ≡ []) × (((e : RobotError) × (r.0 ≡ failed e)) ⊎ (r.0 ≡ stalled)))
send_robot_command-outcome_example =
    let r = send_robot_command (some default_motion) none session_moving in
    send_robot_command-outcome (some default_motion) none session_moving r.1 r.0 refl refl

-- A torque-only process on version 5
abbrev session_torques : Session
session_torques = record session_moving {
  version = v5;
  current_generator = joint_velocity;
  current_controller = external_controller;
}

-- A callback whose first output is its last
abbrev once : Spin ℕ MotionCommand
once state step command world = (ok (command, true), world + 1)

abbrev loop_once : ControlLoop ℕ
loop_once = record { motion_callback = some once; control_callback = none; motion_id = 6 }

abbrev session_run : Session
session_run = (run loop_once 0 session_moving).1

run-Ended_example :
    (l : Turn ℕ) × (u : Session) × Turned loop_once 0 session_moving l u
    × Ran (finish_turn loop_once l) u tt session_run
    × Ended u session_run
unfolding run run_inner turn spin_both spin_motion spin_control spin throw_on_motion_error
    move_active same_generator same_controller motion_generator_code controller_code finish_motion
    finish_running finish_round finished_commands conclude_motion blocking_receive_response
    move_status status_byte parse_move_status move_status_v10 handle_terminal_move_response
    handle_move_status forget_modes update_motion throw_if_connection_closed send_robot_command
    refusal send_udp log_cycle log new_logger receive_robot_state accept drain block newer
    state_size update_state motion_generator_of controller_of robot_mode_of generator_runs
    controller_runs motion_generator_running controller_running until
run-Ended_example = run-Ended loop_once 0 session_moving session_run refl

-- A callback whose output does not convert
abbrev never : Spin ℕ MotionCommand
never state step command world = (err (control_text "not finite"), world)

abbrev loop_never : ControlLoop ℕ
loop_never = record { motion_callback = some never; control_callback = none; motion_id = 6 }

abbrev session_dropped : Session
session_dropped = (run loop_never 0 session_moving).1

run-Stopped_example :
    (u : Session) × (run_inner loop_never 0 session_moving
      ≡ (failed (control_text "not finite"), u))
    × (((u.alive ≡ false) × (session_dropped ≡ u))
        ⊎ ((u.alive ≡ true) × StopSaid 6 u session_dropped))
unfolding run run_inner turn spin_both spin_motion spin_control spin throw_on_motion_error
    move_active same_generator same_controller motion_generator_code controller_code update_motion
    throw_if_connection_closed send_robot_command refusal send_udp log_cycle log new_logger
    receive_robot_state accept drain block newer state_size update_state motion_generator_of
    controller_of robot_mode_of generator_runs controller_runs motion_generator_running
    controller_running until cancel_motion stop_and_drain wire_command command_id command_id_v10
    send_request blocking_receive_response stop_move_status status_byte parse_stop_move_status
    stop_move_status_v10 handle_stop_move_response drain_to_rest drain_round try_receive_response
    forget_modes
run-Stopped_example =
    run-Stopped loop_never 0 session_moving session_dropped (failed (control_text "not finite"))
      refl (inr (control_text "not finite", refl))

abbrev first_turn : Turn ℕ
first_turn = record {
  robot_state = state_moving 10;
  previous_time = 10;
  motion_command = some default_motion;
  control_command = none;
  world = 0;
  is_finished = false;
}

flush-log_all_example :
    (l : RobotStateLogger ℕ) × (log_all (1 ∷ 2 ∷ 3 ∷ []) (new_logger 2 0) ≡ some l)
    × (flush l ≡ some (2 ∷ 3 ∷ [], record l { ring_front = 0; ring_size = 0 }))
flush-log_all_example = flush-log_all 2 0 (1 ∷ 2 ∷ 3 ∷ [])

abbrev command_moving : RobotCommand
command_moving = record { message_id = 11; motion = some default_motion; control = none }

-- A robot that speaks version 5 and says so by refusing version 10
abbrev fer : Server
fer v5 = ok (0, 5)
fer v10 = ok (1, 5)

-- The sockets serve two cycles, and the robot is at rest after the second.
abbrev session_served : Session
session_served = record session_moving {
  readings = fresh (state_moving 11 ∷ state_resting 12 ∷ []);
}

session_served-Served :
    Served
      (some (record default_motion { motion_generation_finished = true }))
      none
      (state_moving 11 ∷ state_resting 12 ∷ [])
      session_served
unfolding state_size refusal generator_runs controller_runs
session_served-Served = record {
  readings = refl;
  probes = refl;
  sends = refl;
  ascend = ground arith;
  given = refl;
  accepted = refl;
  logs = ([], new_logger-Holds 2 (state_moving 0, no_command));
}

finish_motion_lively_example :
    (t : Session) × (finish_motion 6 (some default_motion) none session_served ≡ (done tt, t))
    × Ended session_served t
unfolding finished_commands generator_runs controller_runs motion_generator_of controller_of
finish_motion_lively_example =
    finish_motion_lively 6 (some default_motion)
      (some (record default_motion { motion_generation_finished = true })) none none
      (state_moving 11 ∷ state_resting 12 ∷ []) session_served [] [] refl session_served-Served refl
      refl

-- A robot at rest, which a motion of joint positions makes move in state 11
abbrev session_idle : Session
session_idle = record session_moving {
  motion_generator_mode = idle;
  controller_mode = other_controller;
  current_generator = idle;
  current_controller = other_controller;
  readings = fresh (state_moving 11 ∷ []);
  claims = ok (1 ∷ []) ∷ [];
}

abbrev session_started : Session
session_started = (start_motion move_joint_impedance move_joint_position [] [] session_idle).1

start_motion-Started_example :
    Started move_joint_impedance move_joint_position [] [] 7 session_idle session_started
unfolding start_motion move_request move_fields move_controller_number move_generator_number
    f64s_to_wire to_le_bytes wire_command command_id command_id_v10 ask_modes asked_generator
    asked_controller generator_runs controller_runs motion_generator_running controller_running
    send_request blocking_receive_response move_status status_byte parse_move_status move_status_v10
    handle_move_response handle_move_status until await_start try_receive_response update_motion
    throw_if_connection_closed send_robot_command log_cycle log new_logger flush_log flush gather
    move_active same_generator same_controller motion_generator_code controller_code
    receive_robot_state accept drain block newer state_size update_state motion_generator_of
    controller_of robot_mode_of
start_motion-Started_example =
    start_motion-Started move_joint_impedance move_joint_position [] [] 7 session_idle
      session_started refl
