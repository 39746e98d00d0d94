-- ===== src/Robot/Motion/Said.antt =====
-- What the calls of a start say on the sockets
-- (crates/franka-rs/src/robot/robot_impl/motion.rs).
use franka_rs.Common.{
  ℕ, ◌+◌, ◌%◌, ◌^◌, ◌≡◌, Bool, false, Option, none, some, List, ◌∷◌, Result, ok, err, ap, sym,
  subst, ◌∙◌, arith,
}
use franka_rs.Robot.Codec.Statuses.{MoveStatus}
use franka_rs.Robot.Modes.{MoveController, MoveGenerator, asked_generator, asked_controller}
use franka_rs.Robot.Responses.{move_status, handle_move_response}
use franka_rs.Robot.Session.{
  RobotError, command, RobotCommand, Session, Datagram, Sent, requested, awaited, polled, Outcome,
  ◌>>=◌, of_result, give, receive_robot_state, motion_generator_running, controller_running,
}
use franka_rs.Robot.Session.Monad.{Ran, bind_done}
use franka_rs.Robot.Session.Socket.{
  send_request, blocking_receive_response, try_receive_response, throw_if_connection_closed,
}
use franka_rs.Robot.Motion.Cycle.{
  send_robot_command, log_cycle, cycle_logged, cycle_received, update_motion, flush_log,
}
use franka_rs.Robot.Motion.Start.{ask_modes, on_early, on_polled}
use franka_rs.Robot.Motion.Fuel.{update_motion-Cycles}
use franka_rs.Robot.Motion.Cancel.{receive-sent}

-- What was said is the same, and so are what is asked for and the next id.
abbrev pub Same : List Sent → Session → Session → Type 0
Same said s t =
    (t.sent ≡ said)
    × (t.current_generator ≡ s.current_generator)
    × (t.current_controller ≡ s.current_controller)
    × (t.next_command_id ≡ s.next_command_id)

Same-trans : (said : List Sent) (s t u : Session) → Same t.sent s t → Same said t u → Same said s u
Same-trans said s t u p q = (q.0, q.1 ∙ p.1, q.2 ∙ p.2, q.3 ∙ p.3)

pub taken :
    {A : Type 0} (r : Result RobotError A) (s t : Session) (a : A)
    → Ran (of_result r) s a t
    → (r ≡ ok a) × (t ≡ s)
taken (ok b) s t a h = ground arith
taken (err e) s t a h = absurd (ground arith)

pub asked :
    (controller : MoveController) (generator : MoveGenerator) (s t : Session) (a : Unit {0})
    → Ran (ask_modes controller generator) s a t
    → (motion_generator_running s ≡ false)
      × (controller_running s ≡ false)
      × (t.sent ≡ s.sent)
      × (t.next_command_id ≡ s.next_command_id)
      × (t.current_generator ≡ asked_generator generator)
      × (t.current_controller ≡ asked_controller controller)
unfolding ask_modes
asked controller generator s t a h = ground arith

pub request_sent :
    (s t : Session) (number id : ℕ) (request : List ℕ)
    → Ran (send_request number request) s id t
    → (id ≡ s.next_command_id)
      × (t.sent ≡ requested number s.next_command_id request ∷ s.sent)
      × (t.current_generator ≡ s.current_generator)
      × (t.current_controller ≡ s.current_controller)
      × (t.next_command_id ≡ (s.next_command_id + 1) % 2 ^ 32)
unfolding send_request
request_sent s t number id request h = ground arith

pub response_awaited :
    (s t : Session) (id : ℕ) (message : List ℕ)
    → Ran (blocking_receive_response id) s message t
    → Same (awaited id ∷ s.sent) s t
unfolding blocking_receive_response
response_awaited s t id message h = ground arith

pub response_polled :
    (s t : Session) (id : ℕ) (o : Option (List ℕ))
    → Ran (try_receive_response id) s o t
    → Same (polled id ∷ s.sent) s t
unfolding try_receive_response
response_polled s t id o h = ground arith

probe_same : (s t : Session) (a : Unit {0}) → Ran throw_if_connection_closed s a t → t.sent ≡ s.sent
unfolding throw_if_connection_closed
probe_same s t a h = ground arith

nothing_sent :
    (s t : Session) (c : RobotCommand) → Ran (send_robot_command none none) s c t → t.sent ≡ s.sent
unfolding send_robot_command
nothing_sent s t c h = ground arith

logged_same :
    (d : Datagram) (c : RobotCommand) (s t : Session) (a : Unit {0})
    → Ran (log_cycle d c) s a t
    → t.sent ≡ s.sent
unfolding log_cycle
logged_same d c s t a h = ground arith

pub flush_log-Same :
    (s t : Session) (a : List (Datagram × RobotCommand)) → Ran flush_log s a t → Same s.sent s t
unfolding flush_log
flush_log-Same s t a h = ground arith

idle_cycle : (s t : Session) (d : Datagram) → Ran (update_motion none none) s d t → Same s.sent s t
unfolding update_motion
idle_cycle s t d h =
    let send = send_robot_command none none in
    let (x, s1, p1, h1) =
      bind_done throw_if_connection_closed (λ _. send >>= cycle_received) s d t h in
    let (c, s2, p2, h2) = bind_done send cycle_received s1 d t h1 in
    let (e, s3, p3, h3) = bind_done receive_robot_state (cycle_logged c) s2 d t h2 in
    let (y, s4, p4, h4) = bind_done (log_cycle e c) (λ _. give e) s3 d t h3 in
    let steady = (update_motion-Cycles none none s t d h).0 in
    (
      ap (λ (r : Outcome Datagram × Session). r.1.sent) (sym h4)
          ∙ (logged_same e c s3 s4 y p4
              ∙ (receive-sent s2 s3 e p3 ∙ (nothing_sent s1 s2 c p2 ∙ probe_same s s1 x p1))),
      steady.current_generator,
      steady.current_controller,
      steady.next_command_id,
    )

early_same :
    (r : Result RobotError (Unit {0})) (s t : Session) (b : Bool) → Ran (on_early r) s b t → t ≡ s
early_same (ok x) s t b h = ground arith
early_same (err (command name detail)) s t b h = absurd (ground arith)
early_same (err _) s t b h = absurd (ground arith)

pub status_same :
    (message : List ℕ) (s t : Session) (status : MoveStatus)
    → Ran (move_status message) s status t
    → t ≡ s
unfolding move_status
status_same message s t status h = ground arith

pub Same-of : (s t : Session) → t ≡ s → Same s.sent s t
Same-of s t e = (
  ap (λ (u : Session). u.sent) e,
  ap (λ (u : Session). u.current_generator) e,
  ap (λ (u : Session). u.current_controller) e,
  ap (λ (u : Session). u.next_command_id) e,
)

pub polled_round :
    (o : Option (List ℕ)) (s t : Session) (b : Bool) → Ran (on_polled o) s b t → Same s.sent s t
polled_round none s t b h =
    let (d, u, p, q) = bind_done (update_motion none none) (λ _. give false) s b t h in
    subst (Same s.sent s) (ap (λ (r : Outcome Bool × Session). r.1) q) (idle_cycle s u d p)
polled_round (some message) s t b h =
    let (status, u, p, q) =
      bind_done (move_status message) (λ status s. on_early (handle_move_response status s) s) s b t
        h in
    Same-of s t
      (early_same (handle_move_response status u) u t b q ∙ status_same message s u status p)
