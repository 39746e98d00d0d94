-- ===== src/Robot/Motion/Served.antt =====
-- A cycle of a motion that the sockets serve (crates/franka-rs/src/robot/robot_impl/motion.rs).
use franka_rs.Common.{
  ℕ, ◌<◌, ◌≡◌, Bool, true, not, ◌&&◌, Option, none, some, List, [], ◌∷◌, Result, ok, refl, ap, ◌∙◌,
  arith, is_some, ◌||◌,
}
use franka_rs.Robot.Codec.Versions.{state_size}
use franka_rs.Robot.Logger.{RobotStateLogger, log}
use franka_rs.Robot.Logger.Ring.{Holds, log-Holds}
use franka_rs.Robot.Modes.{motion_generator_of, controller_of, generator_runs, controller_runs}
use franka_rs.Robot.Session.{
  RobotError, commanded, Datagram, RobotCommand, MotionCommand, ControlCommand, Reading, datagram,
  nothing, Session, Outcome, done, failed, stalled, panicked, M, ◌>>=◌, give,
  motion_generator_running, controller_running, receive_robot_state, update_state, newer, block,
  drain, accept,
}
use franka_rs.Robot.Session.Monad.{Ran}
use franka_rs.Robot.Session.Socket.{throw_if_connection_closed, send_udp}
use franka_rs.Robot.Motion.Cycle.{
  refusal, send_robot_command, log_cycle, cycle_logged, cycle_received, update_motion,
}
use franka_rs.Robot.Motion.Finish.{at_rest}

-- Fresh states, each after an empty queue
abbrev pub fresh : List Datagram → List Reading
fresh [] = []
fresh (d ∷ states) = nothing ∷ datagram d ∷ fresh states

abbrev pub all_ok : {A : Type 0} → List A → List (Result RobotError (Unit {0}))
all_ok [] = []
all_ok (_ ∷ states) = ok tt ∷ all_ok states

-- Each state is one of the version, and newer than the one before.
abbrev pub Ascend : ℕ → ℕ → List Datagram → Type 0
Ascend size last [] = Unit {0}
Ascend size last (d ∷ states) =
    (d.size ≡ size) × (last < d.message_id) × Ascend size d.message_id states

-- The sockets serve one cycle for each of the states, and take its command.
pub record Served (motion : Option MotionCommand) (torques : Option ControlCommand)
    (states : List Datagram) (s : Session) : Type 0 where
  pub readings : s.readings ≡ fresh states
  pub probes : s.probes ≡ all_ok states
  pub sends : s.sends ≡ all_ok states
  pub ascend : Ascend (state_size s.version) s.message_id states
  pub given : (is_some motion || is_some torques) ≡ true
  pub accepted : refusal motion torques s ≡ none
  pub logs : (h : List (Datagram × RobotCommand)) × Holds s.logger h

pub bind-Ran :
    {A B : Type 0} (m : M A) (f : A → M B) (s u : Session) (a : A) (r : Outcome B × Session)
    → Ran m s a u
    → f a u ≡ r
    → (m >>= f) s ≡ r
bind-Ran {A} m f s u a r p q =
    ap
      (λ (x : Outcome A × Session). elim x.0 [
        | done a ↦ f a x.1
        | failed e ↦ (failed e, x.1)
        | stalled ↦ (stalled, x.1)
        | panicked ↦ (panicked, x.1)
      ])
      p
    ∙ q

drain_fresh :
    (size last : ℕ) (d : Datagram) (rest : List Reading)
    → d.size ≡ size
    → last < d.message_id
    → drain size last none (nothing ∷ datagram d ∷ rest) ≡ (done d, rest)
unfolding drain block newer
drain_fresh size last d rest e n = ground arith

receive_fresh :
    (s : Session) (d : Datagram) (rest : List Reading)
    → s.readings ≡ nothing ∷ datagram d ∷ rest
    → d.size ≡ state_size s.version
    → s.message_id < d.message_id
    → Ran receive_robot_state s d (update_state d (record s { readings = rest }))
unfolding receive_robot_state accept
receive_fresh s d rest e size n =
    ap (λ (r : Outcome Datagram × List Reading). accept r.0 (record s { readings = r.1 }))
      (ap (drain (state_size s.version) s.message_id none) e
        ∙ drain_fresh (state_size s.version) s.message_id d rest size n)

probe_ok :
    (s : Session) (rest : List (Result RobotError (Unit {0})))
    → s.probes ≡ ok tt ∷ rest
    → Ran throw_if_connection_closed s tt (record s { probes = rest })
unfolding throw_if_connection_closed
probe_ok s rest e = ground arith

send_ok :
    (motion : Option MotionCommand) (torques : Option ControlCommand) (s : Session)
    (rest : List (Result RobotError (Unit {0})))
    → (is_some motion || is_some torques) ≡ true
    → refusal motion torques s ≡ none
    → s.sends ≡ ok tt ∷ rest
    → let cmd : RobotCommand = record {
      message_id = s.message_id;
      motion = motion;
      control = torques;
    } in
      Ran
        (send_robot_command motion torques)
        s
        cmd
        (record s { sends = rest; sent = commanded cmd ∷ s.sent })
unfolding send_robot_command send_udp
send_ok none none s rest g r e = absurd (ground arith)
send_ok (some m) torques s rest g r e = ground arith
send_ok none (some c) s rest g r e = ground arith

log_ok :
    (d : Datagram) (cmd : RobotCommand) (s : Session)
    (k : RobotStateLogger (Datagram × RobotCommand))
    → log (d, cmd) s.logger ≡ some k
    → Ran (log_cycle d cmd) s tt (record s { logger = k })
unfolding log_cycle
log_ok d cmd s k e = ground arith

-- Whether a state is one of a robot at rest
abbrev pub resting : Datagram → Bool
resting d =
    not (generator_runs (motion_generator_of d.motion_generator_byte))
    && not (controller_runs (controller_of d.controller_byte))

-- A cycle is served, and what it leaves serves the others.
pub update_motion-Served :
    (motion : Option MotionCommand) (torques : Option ControlCommand) (d : Datagram)
    (states : List Datagram) (s : Session)
    → Served motion torques (d ∷ states) s
    → (t : Session) × Ran (update_motion motion torques) s d t
      × Served motion torques states t
      × (at_rest t ≡ resting d)
      × (t.claims ≡ s.claims)
      × (t.version ≡ s.version)
unfolding update_motion update_state refusal motion_generator_running controller_running
update_motion-Served motion torques d states s v =
    let cmd : RobotCommand = record {
      message_id = s.message_id;
      motion = motion;
      control = torques;
    } in
    let s1 = record s { probes = all_ok states } in
    let s2 = record s1 { sends = all_ok states; sent = commanded cmd ∷ s.sent } in
    let s3 = update_state d (record s2 { readings = fresh states }) in
    let (h, held) = v.logs in
    let (k, logged, holds, same) = log-Holds (d, cmd) s.logger h held in
    let t = record s3 { logger = k } in
    let (size, newer, ascend) = v.ascend in
    let received = receive_fresh s2 d (fresh states) v.readings size newer in
    let ends =
      bind-Ran (log_cycle d cmd) (λ _. give d) s3 t tt (done d, t) (log_ok d cmd s3 k logged)
        refl in
    let rest = bind-Ran receive_robot_state (cycle_logged cmd) s2 s3 d (done d, t) received ends in
    let sent =
      bind-Ran (send_robot_command motion torques) cycle_received s1 s2 cmd (done d, t)
        (send_ok motion torques s1 (all_ok states) v.given v.accepted v.sends) rest in
    let all =
      bind-Ran throw_if_connection_closed
        (λ _. send_robot_command motion torques >>= cycle_received) s s1 tt (done d, t)
        (probe_ok s (all_ok states) v.probes) sent in
    (
      t,
      all,
      record {
        readings = refl;
        probes = refl;
        sends = refl;
        ascend = ascend;
        given = v.given;
        accepted = v.accepted;
        logs = (_, holds);
      },
      refl,
      refl,
      refl,
    )
