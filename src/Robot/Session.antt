-- ===== src/Robot/Session.antt =====
-- A session with the robot and its stream of states (crates/franka-rs/src/robot/robot_impl/mod.rs).
-- What the sockets say is given in advance, in the order in which it is asked for; where it runs
-- out, a call that waits is `stalled`.
pub mod Newest
pub mod Socket
pub mod Monad
use Prim.Native.String.{String}
use franka_rs.Common.{
  ℕ, ◌+◌, Bool, true, false, not, ◌&&◌, ◌||◌, Option, none, some, List, [], ◌∷◌, Result, ok, err,
  ltb, leb, ◌==◌, if◌then◌else◌,
}
use franka_rs.Robot.Codec.Versions.{FciVersion, CommandKind, state_size}
use franka_rs.Robot.Codec.Statuses.{MoveStatus}
use franka_rs.Robot.Logger.{RobotStateLogger}
use franka_rs.Robot.Modes.{
  MotionGeneratorMode, ControllerMode, RobotMode, motion_generator_of, controller_of, robot_mode_of,
  generator_runs, controller_runs, same_generator, same_controller,
}

-- What a rejected command says behind its name.
pub data Detail : Type 0 where
  user_stop_pressed aborted_by_reflex invalid_input singular_pose path_deviation : Detail
  command_preempted command_aborted safety_preempted safety_rejected : Detail
  invalid_argument_rejected manual_recovery : Detail
  -- with the mode, and whether it asks about the brakes
  not_possible : RobotMode → Bool → Detail

-- A state datagram: its length, and of its fields those that the session reads (`StateModes`, and
-- `last_motion_errors` as a bit pattern).
pub record Datagram : Type 0 where
  pub size : ℕ
  pub message_id : ℕ
  pub motion_generator_byte : ℕ
  pub controller_byte : ℕ
  pub robot_byte : ℕ
  pub last_motion_errors : ℕ

-- `MotionGeneratorCommand` and `ControllerCommand`: the doubles as bit patterns, and the flags.
pub record MotionCommand : Type 0 where
  pub values : List ℕ
  pub valid_elbow : Bool
  pub motion_generation_finished : Bool

pub record ControlCommand : Type 0 where
  pub torques : List ℕ
  pub torque_command_finished : Bool

-- `RobotCommandData`; a part that is not given is all zeros.
pub record RobotCommand : Type 0 where
  pub message_id : ℕ
  pub motion : Option MotionCommand
  pub control : Option ControlCommand

-- `FrankaError`, as far as a session raises it; the texts that the source formats are constructors with the pieces.
pub data RobotError : Type 0 where
  network : String → RobotError
  protocol : String → RobotError
  unexpected_response : CommandKind → RobotError
  command : CommandKind → Detail → RobotError
  -- a `ControlException`: of a text alone; with the text of an error; and as
  -- `create_control_exception` builds it of a text, the status, the errors and the log
  control_text : String → RobotError
  control_error : RobotError → RobotError
  control : RobotError → MoveStatus → ℕ → List (Datagram × RobotCommand) → RobotError
  invalid_operation : CommandKind → RobotError
  invalid_argument : String → RobotError
  incompatible_version : ℕ → ℕ → RobotError

-- What one read of the UDP socket says.
pub data Reading : Type 0 where
  datagram : Datagram → Reading
  nothing : Reading
  udp_failed : String → Reading

-- What the client does on the sockets, newest first: a request with its command's number, its id and
-- its payload; waiting for a response, and asking for one; a command; shutting TCP down.
pub data Sent : Type 0 where
  requested : ℕ → ℕ → List ℕ → Sent
  awaited polled : ℕ → Sent
  commanded : RobotCommand → Sent
  shut_down : Sent

-- `State` and what the sockets will say: UDP reads, claims of a response that wait and that do not,
-- probes for a closed connection, the results of sending, and whether TCP is alive. A claimed
-- response is its payload.
pub record Session : Type 0 where
  pub version : FciVersion
  pub message_id : ℕ
  pub robot_mode : RobotMode
  pub motion_generator_mode : MotionGeneratorMode
  pub controller_mode : ControllerMode
  pub current_generator : MotionGeneratorMode
  pub current_controller : ControllerMode
  pub readings : List Reading
  pub claims : List (Result RobotError (List ℕ))
  pub polls : List (Result RobotError (Option (List ℕ)))
  pub probes : List (Result RobotError (Unit {0}))
  pub sends : List (Result RobotError (Unit {0}))
  pub alive : Bool
  pub next_command_id : ℕ
  pub sent : List Sent
  pub logger : RobotStateLogger (Datagram × RobotCommand)

-- How a call ends; a call may panic where an index is out of range.
pub data Outcome (A : Type 0) : Type 0 where
  done : A → Outcome A
  failed : RobotError → Outcome A
  stalled panicked : Outcome A

abbrev pub M : Type 0 → Type 0
M A = Session → Outcome A × Session

infixl 5 ◌>>=◌ ◌>>◌
abbrev pub ◌>>=◌ : {A B : Type 0} → M A → (A → M B) → M B
◌>>=◌ m f s = elim (m s).0 [
  | done a ↦ f a (m s).1
  | failed e ↦ (failed e, (m s).1)
  | stalled ↦ (stalled, (m s).1)
  | panicked ↦ (panicked, (m s).1)
]

abbrev pub ◌>>◌ : {B : Type 0} → M (Unit {0}) → M B → M B
m >> k = m >>= λ _. k

abbrev pub give : {A : Type 0} → A → M A
give a s = (done a, s)

abbrev pub fail : {A : Type 0} → RobotError → M A
fail e s = (failed e, s)

abbrev pub of_result : {A : Type 0} → Result RobotError A → M A
of_result (ok a) s = (done a, s)
of_result (err e) s = (failed e, s)

-- `State::motion_generator_running`, `controller_running` and `move_active`
unfoldable pub motion_generator_running : Session → Bool
motion_generator_running s = generator_runs s.motion_generator_mode

unfoldable pub controller_running : Session → Bool
controller_running s = controller_runs s.controller_mode

unfoldable pub move_active : Session → Bool
move_active s =
    same_generator s.motion_generator_mode s.current_generator
    && same_controller s.controller_mode s.current_controller

-- `update_state`
unfoldable pub update_state : Datagram → Session → Session
update_state d s = record s {
  robot_mode = robot_mode_of d.robot_byte;
  motion_generator_mode = motion_generator_of d.motion_generator_byte;
  controller_mode = controller_of d.controller_byte;
  message_id = d.message_id;
}

-- The newer of the state in hand and a datagram; `last` is the id that was accepted before.
unfoldable pub newer : ℕ → Option Datagram → Datagram → Option Datagram
newer last none d = if ltb last d.message_id then some d else none
newer last (some b) d = if ltb b.message_id d.message_id then some d else some b

-- The two loops of `receive_robot_state`, over the reads to come: the queue is drained, then reads
-- wait until a newer state is in hand. A read that waits and gets nothing is a timeout.
unfoldable pub block : ℕ → ℕ → Option Datagram → List Reading → Outcome Datagram × List Reading
block size last (some b) readings = (done b, readings)
block size last none [] = (stalled, [])
block size last none (nothing ∷ readings) = (failed (network "UDP receive: Timeout"), readings)
block size last none (udp_failed why ∷ readings) = (failed (network why), readings)
block size last none (datagram d ∷ readings) =
    let rest = block size last (newer last none d) readings in
    if d.size == size then rest else (failed (protocol "incorrect object size"), readings)

unfoldable pub drain : ℕ → ℕ → Option Datagram → List Reading → Outcome Datagram × List Reading
drain size last best [] = (stalled, [])
drain size last best (nothing ∷ readings) = block size last best readings
drain size last best (udp_failed why ∷ readings) = (failed (network why), readings)
drain size last best (datagram d ∷ readings) =
    let rest = drain size last (newer last best d) readings in
    if d.size == size then rest else (failed (protocol "incorrect object size"), readings)

-- `shutdown_tcp_on_network_error`
abbrev pub shut_on : RobotError → Session → Session
shut_on (network _) s = record s { sent = shut_down ∷ s.sent }
shut_on _ s = s

unfoldable pub accept : Outcome Datagram → Session → Outcome Datagram × Session
accept (done d) s = (done d, update_state d s)
accept (failed e) s = (failed e, shut_on e s)
accept other s = (other, s)

-- `receive_robot_state`, `read_once`
unfoldable pub receive_robot_state : M Datagram
receive_robot_state s =
    let (outcome, readings) = drain (state_size s.version) s.message_id none s.readings in
    accept outcome (record s { readings = readings })
