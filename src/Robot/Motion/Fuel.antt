-- ===== src/Robot/Motion/Fuel.antt =====
-- The loops of a motion end (crates/franka-rs/src/robot/robot_impl/motion.rs): a round that does not
-- end its loop uses up a read of the state's socket.
use franka_rs.Common.{
  ℕ, suc, ◌<◌, ◌≡◌, inr, Option, none, some, List, [], ◌∷◌, refl, ap, sym, subst, ◌∙◌, arith,
  length, length-append,
}
use franka_rs.Robot.Session.{
  Session, Datagram, RobotCommand, MotionCommand, ControlCommand, Reading, Outcome, ◌>>=◌, give,
  receive_robot_state, update_state,
}
use franka_rs.Robot.Session.Newest.{Among, Received, receive-Received}
use franka_rs.Robot.Session.Monad.{Ran, bind_done}
use franka_rs.Robot.Session.Socket.{throw_if_connection_closed, send_udp}
use franka_rs.Robot.Motion.Cycle.{
  until, rounds, cycle_logged, cycle_received, send_robot_command, update_motion, log_cycle,
}
use franka_rs.Robot.Motion.Finish.{at_rest, finish_round}
use franka_rs.Robot.Motion.Loops.{until_enough}

-- What one cycle keeps: all but the modes of the robot, the log and what the state's socket says.
pub record Steady (s t : Session) : Type 0 where
  pub version : t.version ≡ s.version
  pub claims : t.claims ≡ s.claims
  pub polls : t.polls ≡ s.polls
  pub alive : t.alive ≡ s.alive
  pub next_command_id : t.next_command_id ≡ s.next_command_id
  pub current_generator : t.current_generator ≡ s.current_generator
  pub current_controller : t.current_controller ≡ s.current_controller

pub Steady-refl : (s : Session) → Steady s s
Steady-refl s = record {
  version = refl;
  claims = refl;
  polls = refl;
  alive = refl;
  next_command_id = refl;
  current_generator = refl;
  current_controller = refl;
}

pub Steady-trans : (s t u : Session) → Steady s t → Steady t u → Steady s u
Steady-trans s t u p q = record {
  version = q.version ∙ p.version;
  claims = q.claims ∙ p.claims;
  polls = q.polls ∙ p.polls;
  alive = q.alive ∙ p.alive;
  next_command_id = q.next_command_id ∙ p.next_command_id;
  current_generator = q.current_generator ∙ p.current_generator;
  current_controller = q.current_controller ∙ p.current_controller;
}

-- The reads to come are the same.
abbrev pub Waits : Session → Session → Type 0
Waits s t = Steady s t × (t.readings ≡ s.readings)

probe-Waits : (s t : Session) (a : Unit {0}) → Ran throw_if_connection_closed s a t → Waits s t
unfolding throw_if_connection_closed
probe-Waits s t a h = ground arith

send_udp-Waits :
    (c : RobotCommand) (s t : Session) (a : Unit {0}) → Ran (send_udp c) s a t → Waits s t
unfolding send_udp
send_udp-Waits c s t a h = ground arith

log_cycle-Waits :
    (d : Datagram) (c : RobotCommand) (s t : Session) (a : Unit {0})
    → Ran (log_cycle d c) s a t
    → Waits s t
unfolding log_cycle
log_cycle-Waits d c s t a h = ground arith

length-Among : (d : Datagram) (used : List Reading) → Among d used → 0 < length used
length-Among d [] h = absurd h
length-Among d (x ∷ used) h = omega arith

update_state-Steady :
    (d : Datagram) (readings : List Reading) (s : Session)
    → Steady s (update_state d (record s { readings = readings }))
unfolding update_state
update_state-Steady d readings s = record {
  version = refl;
  claims = refl;
  polls = refl;
  alive = refl;
  next_command_id = refl;
  current_generator = refl;
  current_controller = refl;
}

-- A cycle goes on, and uses reads up.
abbrev pub Cycles : Session → Session → Type 0
Cycles s t = Steady s t × (length t.readings < length s.readings)

Received-Cycles : (s t : Session) (d : Datagram) → Received s t d → Cycles s t
Received-Cycles s t d r =
    let some_used = length-Among d r.used r.among in
    let split = ap (λ l. length l) r.split ∙ length-append r.used t.readings in
    (
      subst (Steady s) (sym r.taken) (update_state-Steady d t.readings s),
      omega (arith, some_used, split),
    )

pub receive-Cycles : (s t : Session) (d : Datagram) → Ran receive_robot_state s d t → Cycles s t
receive-Cycles s t d h =
    let r = receive-Received s d (ap (λ (r : Outcome Datagram × Session). r.0) h) in
    Received-Cycles s t d
      (subst (λ u. Received s u d) (ap (λ (r : Outcome Datagram × Session). r.1) h) r)

send_robot_command-Waits :
    (motion : Option MotionCommand) (torques : Option ControlCommand) (s t : Session)
    (c : RobotCommand)
    → Ran (send_robot_command motion torques) s c t
    → Waits s t
unfolding send_robot_command send_udp
send_robot_command-Waits none none s t c h = ground arith
send_robot_command-Waits (some m) torques s t c h = ground arith
send_robot_command-Waits none (some m) s t c h = ground arith

-- One cycle of a motion is steady, and uses reads up.
pub update_motion-Cycles :
    (motion : Option MotionCommand) (torques : Option ControlCommand) (s t : Session) (d : Datagram)
    → Ran (update_motion motion torques) s d t
    → Cycles s t
unfolding update_motion
update_motion-Cycles motion torques s t d h =
    let send = send_robot_command motion torques in
    let (_, s1, p1, h1) =
      bind_done throw_if_connection_closed (λ _. send >>= cycle_received) s d t h in
    let (c, s2, p2, h2) = bind_done send cycle_received s1 d t h1 in
    let (e, s3, p3, h3) = bind_done receive_robot_state (cycle_logged c) s2 d t h2 in
    let (_, s4, p4, h4) = bind_done (log_cycle e c) (λ _. give e) s3 d t h3 in
    let (v1, w1) = probe-Waits s s1 _ p1 in
    let (v2, w2) = send_robot_command-Waits motion torques s1 s2 c p2 in
    let (v3, w3) = receive-Cycles s2 s3 e p3 in
    let (v4, w4) = log_cycle-Waits e c s3 s4 _ p4 in
    let l1 = ap (λ (l : List Reading). length l) w1 in
    let l2 = ap (λ (l : List Reading). length l) w2 in
    let l4 = ap (λ (l : List Reading). length l) w4 in
    let same = ap (λ (r : Outcome Datagram × Session). r.1) h4 in
    subst (Cycles s) same (
      Steady-trans s s1 s4 v1 (Steady-trans s1 s2 s4 v2 (Steady-trans s2 s3 s4 v3 v4)),
      omega (arith, l1, l2, w3, l4),
    )

pub finish_round-Cycles :
    (motion : Option MotionCommand) (torques : Option ControlCommand) (a b : ℕ) (s t : Session)
    → Ran (finish_round motion torques a) s b t
    → Cycles s t
unfolding finish_round
finish_round-Cycles motion torques a b s t h =
    let (d, u, p, q) =
      bind_done (update_motion motion torques) (λ state. give state.last_motion_errors) s b t h in
    subst (Cycles s) (ap (λ (r : Outcome ℕ × Session). r.1) q)
      (update_motion-Cycles motion torques s u d p)

-- The loop of a regular end ends alike with every fuel beyond the reads to come.
pub finish_loop-enough :
    (motion : Option MotionCommand) (torques : Option ControlCommand) (errors n : ℕ) (s : Session)
    → suc (length s.readings) < n
    → until (λ _. at_rest) (finish_round motion torques) n errors s
      ≡ until (λ _. at_rest) (finish_round motion torques) (rounds s) errors s
finish_loop-enough motion torques errors n s h =
    until_enough (λ _. at_rest) (finish_round motion torques)
      (λ a u b t r. inr (finish_round-Cycles motion torques a b u t r).1) n (rounds s) errors s h
      (omega arith)
