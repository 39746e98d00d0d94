-- ===== src/Robot/Motion/Sending.antt =====
-- Which commands go out (crates/franka-rs/src/robot/robot_impl/motion.rs, `send_robot_command`).
use franka_rs.Common.{
  ◌≡◌, ◌↔◌, ◌⊎◌, Bool, true, false, Option, none, some, List, ◌∷◌, Result, ok, refl, arith, is_some,
  ◌||◌,
}
use franka_rs.Robot.Codec.Versions.{FciVersion, v5, v10}
use franka_rs.Robot.Modes.{
  generator_runs, controller_runs, asked_generator, asked_controller, move_external,
}
use franka_rs.Robot.Session.{
  RobotError, Session, MotionCommand, ControlCommand, RobotCommand, commanded, Outcome, done,
  failed, stalled,
}
use franka_rs.Robot.Session.Socket.{send_udp}
use franka_rs.Robot.Motion.Cycle.{refusal, send_robot_command}
use franka_rs.Robot.Motion.Start.{torque_only_motion_mode, write_once_torque_only, zero_motion}

-- The parts of a command are those that the motion asked for: `g` says that it has a generator, `c`
-- that it has the client's controller.
abbrev pub Fits : Option MotionCommand → Option ControlCommand → Bool → Bool → Type 0
Fits none none g c = ⊥
Fits (some _) none g c = (g ≡ true) × (c ≡ false)
Fits none (some _) g c = (g ≡ false) × (c ≡ true)
Fits (some _) (some _) g c = (g ≡ true) × (c ≡ true)

refusal_iff :
    (motion : Option MotionCommand) (torques : Option ControlCommand) (s : Session)
    → (is_some motion || is_some torques) ≡ true
    → (refusal motion torques s ≡ none)
      ↔ Fits motion torques
          (generator_runs s.current_generator)
          (controller_runs s.current_controller)
unfolding refusal
refusal_iff none none s h = absurd (ground arith)
refusal_iff (some m) none s h = ground arith
refusal_iff none (some c) s h = ground arith
refusal_iff (some m) (some c) s h = ground arith

-- The command, and nothing else, goes out.
abbrev pub Sends :
    Option MotionCommand → Option ControlCommand → Session → RobotCommand → Session → Type 0
Sends motion torques s cmd t =
    (cmd ≡ record { message_id = s.message_id; motion = motion; control = torques })
    × (t.sent ≡ commanded cmd ∷ s.sent)
    × Fits motion torques (generator_runs s.current_generator)
        (controller_runs s.current_controller)

-- A command that has a part either goes out, as the answer to the last state that was accepted, and
-- then its parts are those that the motion asked for; or the call does not succeed and nothing goes
-- out.
pub send_robot_command-outcome :
    (motion : Option MotionCommand) (torques : Option ControlCommand) (s t : Session)
    (o : Outcome RobotCommand)
    → (is_some motion || is_some torques) ≡ true
    → send_robot_command motion torques s ≡ (o, t)
    → ((cmd : RobotCommand) × (o ≡ done cmd) × Sends motion torques s cmd t)
      ⊎ ((t.sent ≡ s.sent) × (((e : RobotError) × (o ≡ failed e)) ⊎ (o ≡ stalled)))
unfolding send_robot_command send_udp
send_robot_command-outcome none none s t o p h = absurd (ground arith)
send_robot_command-outcome (some m) none s t o p h =
    let fits = refusal_iff (some m) none s refl in ground arith
send_robot_command-outcome none (some c) s t o p h =
    let fits = refusal_iff none (some c) s refl in ground arith
send_robot_command-outcome (some m) (some c) s t o p h =
    let fits = refusal_iff (some m) (some c) s refl in ground arith

-- The command with its torques is what goes out.
abbrev pub Goes :
    Option MotionCommand → ControlCommand → Session → Outcome RobotCommand × Session → Type 0
Goes motion torques s r =
    (cmd : RobotCommand) × (r.0 ≡ done cmd)
    × (r.1.sent ≡ commanded cmd ∷ s.sent)
    × (cmd.message_id ≡ s.message_id)
    × (cmd.motion ≡ motion)
    × (cmd.control ≡ some torques)

torques_go :
    (motion : Option MotionCommand) (torques : ControlCommand) (s : Session)
    (sends : List (Result RobotError (Unit {0})))
    → refusal motion (some torques) s ≡ none
    → s.sends ≡ ok tt ∷ sends
    → Goes motion torques s (send_robot_command motion (some torques) s)
unfolding send_robot_command send_udp
torques_go none torques s sends r e = (
  record { message_id = s.message_id; motion = none; control = some torques },
  ground arith,
  ground arith,
  refl,
  refl,
  refl,
)
torques_go (some m) torques s sends r e = (
  record { message_id = s.message_id; motion = some m; control = some torques },
  ground arith,
  ground arith,
  refl,
  refl,
  refl,
)

zero_motion-refusal :
    (v : FciVersion) (torques : ControlCommand) (s : Session)
    → s.current_generator ≡ asked_generator (torque_only_motion_mode v)
    → s.current_controller ≡ asked_controller move_external
    → refusal (zero_motion v) (some torques) s ≡ none
unfolding torque_only_motion_mode asked_generator asked_controller refusal generator_runs
    controller_runs
zero_motion-refusal v5 torques s g c = ground arith
zero_motion-refusal v10 torques s g c = ground arith

-- Under either version, torques fit the motion that a torque-only process asks for: where the socket
-- takes the command, it goes out with the torques and the version's zero motion.
pub write_once_torque_only-sends :
    (torques : ControlCommand) (s : Session) (sends : List (Result RobotError (Unit {0})))
    → s.current_generator ≡ asked_generator (torque_only_motion_mode s.version)
    → s.current_controller ≡ asked_controller move_external
    → s.sends ≡ ok tt ∷ sends
    → (cmd : RobotCommand) × ((write_once_torque_only torques s).0 ≡ done cmd)
      × ((write_once_torque_only torques s).1.sent ≡ commanded cmd ∷ s.sent)
      × (cmd.message_id ≡ s.message_id)
      × (cmd.motion ≡ zero_motion s.version)
      × (cmd.control ≡ some torques)
unfolding write_once_torque_only
write_once_torque_only-sends torques s sends g c e =
    torques_go (zero_motion s.version) torques s sends (zero_motion-refusal s.version torques s g c)
      e
