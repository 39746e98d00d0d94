-- ===== src/Robot/Motion/Cancel.antt =====
-- How a motion is cancelled (crates/franka-rs/src/robot/robot_impl/motion.rs, `cancel_motion`).
use franka_rs.Common.{
  ℕ, ◌+◌, ◌%◌, ◌^◌, ◌≡◌, Bool, true, false, some, List, [], ◌∷◌, if_intro, refl, ap, sym, subst,
  ◌∙◌, arith, ◌&&◌,
}
use franka_rs.Robot.Codec.Versions.{FciVersion, v5, v10, stop_move, command_id}
use franka_rs.Robot.Codec.Statuses.{StopMoveStatus}
use franka_rs.Robot.Modes.{idle, other_controller}
use franka_rs.Robot.Responses.{wire_command, stop_move_status, handle_stop_move_response}
use franka_rs.Robot.Session.{
  Session, Datagram, Reading, requested, awaited, polled, Outcome, done, ◌>>=◌, ◌>>◌, of_result,
  give, receive_robot_state, update_state, motion_generator_running, controller_running,
}
use franka_rs.Robot.Session.Monad.{Ran, bind_done}
use franka_rs.Robot.Session.Newest.{Received, receive-Received}
use franka_rs.Robot.Session.Socket.{send_request, blocking_receive_response, try_receive_response}
use franka_rs.Robot.Motion.Cycle.{rounds}
use franka_rs.Robot.Motion.Finish.{at_rest, forget_modes}
use franka_rs.Robot.Motion.Abort.{
  on_stopped, drain_round, drain_to_rest, discard_reply, drained, stop_answered, stop_sent,
  stop_and_drain, cancel_motion,
}
use franka_rs.Robot.Motion.Loops.{until_keeps, until_passed}

updated_sent :
    (d : Datagram) (readings : List Reading) (s : Session)
    → (update_state d (record s { readings = readings })).sent ≡ s.sent
unfolding update_state
updated_sent d readings s = refl

-- A read of the state says nothing on the sockets.
pub receive-sent : (s t : Session) (d : Datagram) → Ran receive_robot_state s d t → t.sent ≡ s.sent
receive-sent s t d h =
    let e = ap (λ (r : Outcome Datagram × Session). r.1) h in
    let r =
      subst (λ u. Received s u d) e
        (receive-Received s d (ap (λ (r : Outcome Datagram × Session). r.0) h)) in
    ap (λ (u : Session). u.sent) r.taken ∙ updated_sent d t.readings s

pub drain_round-sent : (a b : Bool) (s t : Session) → Ran (drain_round a) s b t → t.sent ≡ s.sent
unfolding drain_round
drain_round-sent a b s t h =
    let (d, u, p, q) = bind_done receive_robot_state (λ _. give true) s b t h in
    ap (λ (r : Outcome Bool × Session). r.1.sent) (sym q) ∙ receive-sent s u d p

and_right : (a b : Bool) → (a && b) ≡ true → b ≡ true
and_right true b h = h
and_right false b h = absurd (ground arith)

-- What the drain leaves: the robot at rest, and nothing said.
pub drain_to_rest-rests :
    (s t : Session) (b : Bool) → Ran drain_to_rest s b t → (at_rest t ≡ true) × (t.sent ≡ s.sent)
unfolding drain_to_rest
drain_to_rest-rests s t b h =
    let stop = λ (read : Bool) (u : Session). read && at_rest u in
    let passed = until_passed stop drain_round (rounds s) false s b t h in
    let sent =
      until_keeps stop drain_round (λ _ (u : Session). u.sent ≡ s.sent)
        (λ a u c v w r. drain_round-sent a c u v r ∙ w) (rounds s) false s b t refl h in
    (and_right b (at_rest t) passed, sent)

-- Nor does it take an id.
updated_next :
    (d : Datagram) (readings : List Reading) (s : Session)
    → (update_state d (record s { readings = readings })).next_command_id ≡ s.next_command_id
unfolding update_state
updated_next d readings s = refl

drain_round-next :
    (a b : Bool) (s t : Session) → Ran (drain_round a) s b t → t.next_command_id ≡ s.next_command_id
unfolding drain_round
drain_round-next a b s t h =
    let (d, u, p, q) = bind_done receive_robot_state (λ _. give true) s b t h in
    let e = ap (λ (r : Outcome Datagram × Session). r.1) p in
    let r =
      subst (λ v. Received s v d) e
        (receive-Received s d (ap (λ (r : Outcome Datagram × Session). r.0) p)) in
    ap (λ (r : Outcome Bool × Session). r.1.next_command_id) (sym q)
    ∙ ap (λ (v : Session). v.next_command_id) r.taken
    ∙ updated_next d u.readings s

drain_to_rest-next :
    (s t : Session) (b : Bool) → Ran drain_to_rest s b t → t.next_command_id ≡ s.next_command_id
unfolding drain_to_rest
drain_to_rest-next s t b h =
    until_keeps (λ read u. read && at_rest u) drain_round
      (λ _ (u : Session). u.next_command_id ≡ s.next_command_id)
      (λ a u c v w r. drain_round-next a c u v r ∙ w) (rounds s) false s b t refl h

awaited_next :
    (s t : Session) (id : ℕ) (message : List ℕ)
    → Ran (blocking_receive_response id) s message t
    → t.next_command_id ≡ s.next_command_id
unfolding blocking_receive_response
awaited_next s t id message h = ground arith

pub requested_stop :
    (s t : Session) (number id : ℕ)
    → Ran (send_request number []) s id t
    → (t.sent ≡ requested number s.next_command_id [] ∷ s.sent)
      × (id ≡ s.next_command_id)
      × (t.next_command_id ≡ (s.next_command_id + 1) % 2 ^ 32)
unfolding send_request
requested_stop s t number id h = ground arith

pub awaited_stop :
    (s t : Session) (id : ℕ) (message : List ℕ)
    → Ran (blocking_receive_response id) s message t
    → t.sent ≡ awaited id ∷ s.sent
unfolding blocking_receive_response
awaited_stop s t id message h = ground arith

pub stop_id : (v : FciVersion) → command_id v stop_move ≡ some 2
unfolding command_id
stop_id v5 = refl
stop_id v10 = refl

pub stop_number :
    (s t : Session) (number : ℕ)
    → Ran (λ s. of_result (wire_command stop_move s) s) s number t
    → (number ≡ 2) × (t ≡ s)
unfolding wire_command
stop_number s t number h = let e = stop_id s.version in ground (arith, e)

pub answered :
    (s t : Session) (message : List ℕ) (status : StopMoveStatus)
    → Ran (stop_move_status message) s status t
    → t ≡ s
unfolding stop_move_status
answered s t message status h = ground arith

pub accepted_stop :
    (s t : Session) (status : StopMoveStatus) (a : Unit {0})
    → Ran (λ s. on_stopped (handle_stop_move_response status s) s) s a t
    → t ≡ s
accepted_stop s t status a h = ground arith

discarded :
    (s t : Session) (motion_id : ℕ) (a : Unit {0})
    → Ran (discard_reply motion_id) s a t
    → (t.sent ≡ polled motion_id ∷ s.sent)
      × (at_rest t ≡ at_rest s)
      × (t.current_generator ≡ idle)
      × (t.current_controller ≡ other_controller)
      × (t.next_command_id ≡ s.next_command_id)
unfolding try_receive_response forget_modes motion_generator_running controller_running
discarded s t motion_id a h = ground arith

-- What a cancelled motion promises: nothing of the client runs, no mode is asked for, and one
-- `StopMove` has gone out and was answered before the reply to the motion was asked for.
abbrev pub Cancelled : ℕ → Session → Session → Type 0
Cancelled motion_id s t =
    (at_rest t ≡ true)
    × (t.current_generator ≡ idle)
    × (t.current_controller ≡ other_controller)
    × (t.next_command_id ≡ (s.next_command_id + 1) % 2 ^ 32)
    × (t.sent
        ≡ polled motion_id ∷ awaited s.next_command_id ∷ requested 2 s.next_command_id [] ∷ s.sent)

stop_trace :
    (motion_id number id : ℕ) (s s1 s2 s3 s4 s5 s6 t : Session)
    → number ≡ 2
    → s1 ≡ s
    → s2.sent ≡ requested number s1.next_command_id [] ∷ s1.sent
    → id ≡ s1.next_command_id
    → s3.sent ≡ awaited id ∷ s2.sent
    → s4 ≡ s3
    → s5 ≡ s4
    → s6.sent ≡ s5.sent
    → t.sent ≡ polled motion_id ∷ s6.sent
    → t.sent
      ≡ polled motion_id ∷ awaited s.next_command_id ∷ requested 2 s.next_command_id [] ∷ s.sent
stop_trace motion_id number id s s1 s2 s3 s4 s5 s6 t two e1 e2 own e3 e4 e5 e6 e7 = cc

stop_and_drain-Cancelled :
    (motion_id : ℕ) (s t : Session) (a : Unit {0})
    → Ran (stop_and_drain motion_id) s a t
    → Cancelled motion_id s t
unfolding stop_and_drain
stop_and_drain-Cancelled motion_id s t a h =
    let (number, s1, p1, h1) =
      bind_done (λ s. of_result (wire_command stop_move s) s)
        (λ number. send_request number [] >>= stop_sent motion_id) s a t h in
    let (id, s2, p2, h2) = bind_done (send_request number []) (stop_sent motion_id) s1 a t h1 in
    let (message, s3, p3, h3) =
      bind_done (blocking_receive_response id) (stop_answered motion_id) s2 a t h2 in
    let (status, s4, p4, h4) =
      bind_done (stop_move_status message)
        (λ status. (λ s. on_stopped (handle_stop_move_response status s) s) >> drained motion_id) s3
        a t h3 in
    let (x, s5, p5, h5) =
      bind_done (λ s. on_stopped (handle_stop_move_response status s) s) (λ _. drained motion_id) s4
        a t h4 in
    let (y, s6, p6, h6) = bind_done drain_to_rest (λ _. discard_reply motion_id) s5 a t h5 in
    let (two, e1) = stop_number s s1 number p1 in
    let (e2, own, n2) = requested_stop s1 s2 number id p2 in
    let e3 = awaited_stop s2 s3 id message p3 in
    let e4 = answered s3 s4 message status p4 in
    let e5 = accepted_stop s4 s5 status x p5 in
    let n3 = awaited_next s2 s3 id message p3 in
    let n6 = drain_to_rest-next s5 s6 y p6 in
    let next = λ (u : Session). u.next_command_id in
    let (rests, e6) = drain_to_rest-rests s5 s6 y p6 in
    let (e7, at, generator, controller, n7) = discarded s6 t motion_id a h6 in
    (
      at ∙ rests,
      generator,
      controller,
      n7 ∙ n6 ∙ ap next e5 ∙ ap next e4 ∙ n3 ∙ n2 ∙ ap (λ u. (next u + 1) % 2 ^ 32) e1,
      stop_trace motion_id number id s s1 s2 s3 s4 s5 s6 t two e1 e2 own e3 e4 e5 e6 e7,
    )

-- A motion whose cancellation succeeds on a live connection leaves nothing of the client running and
-- no mode asked for; what went out is one `StopMove` under the session's next id, which is counted
-- up, and its answer was awaited before the reply to the motion was asked for.
pub cancel_motion-Cancelled :
    (motion_id : ℕ) (s t : Session)
    → s.alive ≡ true
    → Ran (cancel_motion motion_id) s tt t
    → Cancelled motion_id s t
unfolding cancel_motion
cancel_motion-Cancelled motion_id s t live =
    if_intro (λ r. r ≡ (done tt, t) → Cancelled motion_id s t) s.alive
      (λ _ h. stop_and_drain-Cancelled motion_id s t tt h) (λ e h. absurd (ground arith))
