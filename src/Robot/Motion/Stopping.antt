-- ===== src/Robot/Motion/Stopping.antt =====
-- What goes out when a motion is cancelled, whatever becomes of the cancellation
-- (crates/franka-rs/src/robot/robot_impl/motion.rs).
use franka_rs.Common.{
  ℕ, zero, suc, ◌≡◌, ◌≢◌, ◌⊎◌, inl, inr, true, false, Bool, none, List, [], ◌∷◌, ◌&&◌, Result, ok,
  err, if_intro, refl, ap, sym, subst, ◌∙◌, arith,
}
use franka_rs.Robot.Codec.Versions.{state_size}
use franka_rs.Robot.Session.{
  RobotError, command, Session, Sent, requested, awaited, polled, Outcome, done, failed, stalled,
  panicked, M, ◌>>=◌, ◌>>◌, shut_on, shut_down, network, of_result, give, motion_generator_running,
  controller_running, receive_robot_state, accept, drain, update_state, Datagram,
}
use franka_rs.Robot.Motion.Cancel.{
  stop_id, awaited_stop, answered, accepted_stop, requested_stop, receive-sent, drain_round-sent,
  drain_to_rest-rests,
}
use franka_rs.Robot.Motion.Cycle.{until, rounds}
use franka_rs.Robot.Motion.Abort.{
  drain_round, drain_to_rest, discard_reply, drained, stop_answered, stop_sent, stop_and_drain,
  cancel_motion, on_stopped,
}
use franka_rs.Robot.Motion.Finish.{at_rest, forget_modes}
use franka_rs.Robot.Responses.{stop_move_status, handle_stop_move_response, wire_command}
use franka_rs.Robot.Codec.Versions.{stop_move}
use franka_rs.Robot.Session.Socket.{send_request, blocking_receive_response, try_receive_response}

-- What a sequence leaves: what its first call leaves where that does not succeed, what the second does otherwise
after_outcome :
    {A B : Type 0} (P : Session → Type 0) (f : A → M B) (o : Outcome A) (t : Session)
    → P t
    → ((a : A) → o ≡ done a → P (f a t).1)
    → P (((λ (_ : Session). (o, t)) >>= f) t).1
after_outcome P f (done a) t p q = q a refl
after_outcome P f (failed e) t p q = p
after_outcome P f stalled t p q = p
after_outcome P f panicked t p q = p

either_after :
    {A B : Type 0} (P : Session → Type 0) (m : M A) (f : A → M B) (s : Session)
    → P (m s).1
    → ((a : A) (t : Session) → m s ≡ (done a, t) → P (f a t).1)
    → P ((m >>= f) s).1
either_after P m f s p q =
    after_outcome P f (m s).0 (m s).1 p (λ a e. q a (m s).1 (ap (λ o. (o, (m s).1)) e))

-- Nothing is said, but that a failing network is shut down.
abbrev pub Quiet : List Sent → Session → Type 0
Quiet said t = (t.sent ≡ said) ⊎ (t.sent ≡ shut_down ∷ said)

shut_on-Quiet : (e : RobotError) (s : Session) → Quiet s.sent (shut_on e s)
shut_on-Quiet (network _) s = inr refl
shut_on-Quiet _ s = inl refl

accept-Quiet : (o : Outcome Datagram) (s : Session) → Quiet s.sent (accept o s).1
unfolding accept update_state
accept-Quiet (done d) s = inl refl
accept-Quiet (failed e) s = shut_on-Quiet e s
accept-Quiet stalled s = inl refl
accept-Quiet panicked s = inl refl

receive-Quiet : (s : Session) → Quiet s.sent (receive_robot_state s).1
unfolding receive_robot_state
receive-Quiet s =
    let r = drain (state_size s.version) s.message_id none s.readings in
    accept-Quiet r.0 (record s { readings = r.1 })

drain_round-Quiet : (a : Bool) (s : Session) → Quiet s.sent (drain_round a s).1
unfolding drain_round
drain_round-Quiet a s =
    either_after (Quiet s.sent) receive_robot_state (λ _. give true) s (receive-Quiet s)
      (λ d t h. inl (receive-sent s t d h))

until-Quiet :
    (stop : Bool → Session → Bool) (n : ℕ) (a : Bool) (s : Session) (said : List Sent)
    → s.sent ≡ said
    → Quiet said (until stop drain_round n a s).1
unfolding until
until-Quiet stop zero a s said e = inl e
until-Quiet stop (suc n) a s said e =
    if_intro (λ (r : Outcome Bool × Session). Quiet said r.1) (stop a s) (λ _. inl e)
      (λ _.
        either_after (Quiet said) (drain_round a) (until stop drain_round n) s
          (subst (λ l. Quiet l (drain_round a s).1) e (drain_round-Quiet a s))
          (λ b t h. until-Quiet stop n b t said (drain_round-sent a b s t h ∙ e)))

-- What goes out after the answer to `StopMove`: nothing, or, once the robot is at rest, the question for
-- the reply to the motion
abbrev pub Fate : ℕ → List Sent → Session → Type 0
Fate motion_id said v = Quiet said v ⊎ ((v.sent ≡ polled motion_id ∷ said) × (at_rest v ≡ true))

discard_said :
    (motion_id : ℕ) (s : Session)
    → ((discard_reply motion_id s).1.sent ≡ polled motion_id ∷ s.sent)
      × (at_rest (discard_reply motion_id s).1 ≡ at_rest s)
unfolding try_receive_response forget_modes motion_generator_running controller_running
discard_said motion_id s = ground arith

discard-Fate :
    (motion_id : ℕ) (s : Session) (said : List Sent)
    → s.sent ≡ said
    → at_rest s ≡ true
    → Fate motion_id said (discard_reply motion_id s).1
discard-Fate motion_id s said e r =
    let (sent, rest) = discard_said motion_id s in
    inr (sent ∙ ap (λ l. polled motion_id ∷ l) e, rest ∙ r)

drained-Fate :
    (motion_id : ℕ) (s : Session) (said : List Sent)
    → s.sent ≡ said
    → Fate motion_id said (drained motion_id s).1
unfolding drain_to_rest
drained-Fate motion_id s said e =
    either_after (Fate motion_id said) drain_to_rest (λ _. discard_reply motion_id) s
      (inl (until-Quiet (λ read u. read && at_rest u) (rounds s) false s said e))
      (λ b t h.
        let (rest, same) = drain_to_rest-rests s t b h in
        discard-Fate motion_id t said (same ∙ e) rest)

of_result-same : {A : Type 0} (r : Result RobotError A) (s : Session) → (of_result r s).1 ≡ s
of_result-same (ok a) s = refl
of_result-same (err e) s = refl

on_stopped-same : (r : Result RobotError (Unit {0})) (s : Session) → (on_stopped r s).1 ≡ s
on_stopped-same (ok a) s = refl
on_stopped-same (err (command name detail)) s = refl
on_stopped-same (err _) s = refl

stop_answered-Fate :
    (motion_id : ℕ) (message : List ℕ) (s : Session)
    → Fate motion_id s.sent (stop_answered motion_id message s).1
unfolding stop_move_status
stop_answered-Fate motion_id message s =
    let P = Fate motion_id s.sent in
    either_after P (stop_move_status message)
      (λ status. (λ s. on_stopped (handle_stop_move_response status s) s) >> drained motion_id) s
      (inl (inl (ap (λ (u : Session). u.sent) (of_result-same _ s))))
      (λ status t h.
        let e = answered s t message status h in
        either_after P (λ s. on_stopped (handle_stop_move_response status s) s)
          (λ _. drained motion_id) t
          (inl (
            inl (
              ap (λ (u : Session). u.sent)
                (on_stopped-same (handle_stop_move_response status t) t ∙ e))))
          (λ x u k.
            drained-Fate motion_id u s.sent
              (ap (λ (u : Session). u.sent) (accepted_stop t u status x k ∙ e))))

awaited_said :
    (id : ℕ) (s : Session) → (blocking_receive_response id s).1.sent ≡ awaited id ∷ s.sent
unfolding blocking_receive_response
awaited_said id s = ground arith

-- The request's answer is awaited, and then comes its fate.
stop_sent-Fate :
    (motion_id id : ℕ) (s : Session)
    → Fate motion_id (awaited id ∷ s.sent) (stop_sent motion_id id s).1
stop_sent-Fate motion_id id s =
    either_after (Fate motion_id (awaited id ∷ s.sent)) (blocking_receive_response id)
      (stop_answered motion_id) s (inl (inl (awaited_said id s)))
      (λ message t h.
        subst (λ l. Fate motion_id l (stop_answered motion_id message t).1)
          (awaited_stop s t id message h) (stop_answered-Fate motion_id message t))

bind_first :
    {A B : Type 0} (m : M A) (f : A → M B) (s : Session) (a : A) (t : Session)
    → m s ≡ (done a, t)
    → (m >>= f) s ≡ f a t
bind_first m f s a t e = ap (λ r. ((λ (_ : Session). r) >>= f) s) e

-- What of a cancelled motion goes out, whatever becomes of it: nothing where the socket does not take
-- the request; otherwise one `StopMove`, whose answer is awaited, and then its fate
abbrev pub StopSaid : ℕ → Session → Session → Type 0
StopSaid motion_id s v =
    ((v.sent ≡ s.sent) × ((rest : List (Result RobotError (Unit {0}))) → s.sends ≢ ok tt ∷ rest))
    ⊎ Fate motion_id (awaited s.next_command_id ∷ requested 2 s.next_command_id [] ∷ s.sent) v

taken_or_not :
    (sends : List (Result RobotError (Unit {0})))
    → ((rest : List (Result RobotError (Unit {0}))) × (sends ≡ ok tt ∷ rest))
      ⊎ ((rest : List (Result RobotError (Unit {0}))) → sends ≢ ok tt ∷ rest)
taken_or_not [] = inr (λ rest e. absurd (ground arith))
taken_or_not (err e ∷ sends) = inr (λ rest h. absurd (ground arith))
taken_or_not (ok tt ∷ sends) = inl (sends, refl)

request_said :
    (s : Session) (rest : List (Result RobotError (Unit {0})))
    → s.sends ≡ ok tt ∷ rest
    → send_request 2 [] s ≡ (done s.next_command_id, (send_request 2 [] s).1)
unfolding send_request
request_said s rest e = ground arith

untaken :
    (s : Session) (sends : List (Result RobotError (Unit {0})))
    → s.sends ≡ sends
    → ((rest : List (Result RobotError (Unit {0}))) → s.sends ≢ ok tt ∷ rest)
    → ((send_request 2 [] s).1.sent ≡ s.sent) × ((a : ℕ) → (send_request 2 [] s).0 ≢ done a)
unfolding send_request
untaken s [] e h = (ground arith, λ a k. absurd (ground arith))
untaken s (err x ∷ rest) e h = (ground arith, λ a k. absurd (ground arith))
untaken s (ok tt ∷ rest) e h = absurd (h rest e)

request_refused :
    (f : ℕ → M (Unit {0})) (s : Session)
    → ((rest : List (Result RobotError (Unit {0}))) → s.sends ≢ ok tt ∷ rest)
    → ((send_request 2 [] >>= f) s).1.sent ≡ s.sent
request_refused f s h =
    let (sent, undone) = untaken s s.sends refl h in
    let r = send_request 2 [] s in
    after_outcome (λ (u : Session). u.sent ≡ s.sent) f r.0 r.1 sent (λ a e. absurd (undone a e))

wired_stop : (s : Session) → of_result (wire_command stop_move s) s ≡ (done 2, s)
unfolding wire_command
wired_stop s = let e = stop_id s.version in ground arith

stop_and_drain-StopSaid :
    (motion_id : ℕ) (s : Session) → StopSaid motion_id s (stop_and_drain motion_id s).1
unfolding stop_and_drain
stop_and_drain-StopSaid motion_id s =
    let numbered = λ (number : ℕ). send_request number [] >>= stop_sent motion_id in
    let same =
      bind_first (λ s. of_result (wire_command stop_move s) s) numbered s 2 s (wired_stop s) in
    subst (λ (r : Outcome (Unit {0}) × Session). StopSaid motion_id s r.1) (sym same)
      (elim (taken_or_not s.sends) [
        | inl (rest, e) ↦
            let t : Session = (send_request 2 [] s).1 in
            let sent = request_said s rest e in
            let (said, own, next) = requested_stop s t 2 s.next_command_id sent in
            inr (
              subst
                (λ (r : Outcome (Unit {0}) × Session).
                  Fate motion_id
                    (awaited s.next_command_id ∷ requested 2 s.next_command_id [] ∷ s.sent) r.1)
                (sym
                  (bind_first (send_request 2 []) (stop_sent motion_id) s s.next_command_id t sent))
                (subst
                  (λ l.
                    Fate motion_id (awaited s.next_command_id ∷ l)
                      (stop_sent motion_id s.next_command_id t).1)
                  said (stop_sent-Fate motion_id s.next_command_id t)))
        | inr refused ↦ inl (request_refused (stop_sent motion_id) s refused, refused)
      ])

-- On a connection that is lost, a cancellation does nothing.
pub cancelled_alive :
    (motion_id : ℕ) (u : Session)
    → ((u.alive ≡ false) × ((cancel_motion motion_id u).1 ≡ u))
      ⊎ ((u.alive ≡ true) × StopSaid motion_id u (cancel_motion motion_id u).1)
unfolding cancel_motion
cancelled_alive motion_id u =
    if_intro
      (λ (r : Outcome (Unit {0}) × Session).
        ((u.alive ≡ false) × (r.1 ≡ u)) ⊎ ((u.alive ≡ true) × StopSaid motion_id u r.1))
      u.alive (λ live. inr (live, stop_and_drain-StopSaid motion_id u)) (λ lost. inl (lost, refl))
