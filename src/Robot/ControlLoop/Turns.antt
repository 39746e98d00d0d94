-- ===== src/Robot/ControlLoop/Turns.antt =====
-- The control loop's rounds end (crates/franka-rs/src/robot/control_loop/runner.rs).
use franka_rs.Common.{
  ℕ, suc, ◌<◌, ◌≡◌, ◌⊎◌, inl, inr, Bool, true, false, Result, ok, err, ap, sym, subst, ◌∙◌, arith,
  length, if_intro,
}
use franka_rs.Robot.Codec.Statuses.{MoveStatus}
use franka_rs.Robot.Responses.{move_status, handle_terminal_move_response}
use franka_rs.Robot.Session.{RobotError, command, Datagram, Session, Outcome, done, give, of_result}
use franka_rs.Robot.Session.Monad.{Ran, bind_done}
use franka_rs.Robot.Session.Socket.{blocking_receive_response}
use franka_rs.Robot.Motion.Cycle.{
  until, rounds, update_motion, errored, raise_with, unexpected_reply, judged, replied_with,
  claim_motion_error, throw_on_motion_error,
}
use franka_rs.Robot.Motion.Fuel.{update_motion-Cycles}
use franka_rs.Robot.Motion.Loops.{until_enough}
use franka_rs.Robot.Motion.Ends.{create_never}
use franka_rs.Robot.ControlLoop.{ControlLoop, Turn, spin_both, checked, cycled, turn}

raise_never :
    (status : MoveStatus) (errors : ℕ) (e : RobotError) (s t : Session) (a : Unit {0})
    → ¬ Ran (raise_with status errors e) s a t
unfolding raise_with
raise_never status errors (command name detail) s t a h =
    create_never (command name detail) status errors s t a h
raise_never status errors _ s t a h = ground arith

reply_never :
    (status : MoveStatus) (errors : ℕ) (r : Result RobotError (Unit {0})) (s t : Session)
    (a : Unit {0})
    → ¬ Ran (unexpected_reply status errors r) s a t
reply_never status errors (ok x) s t a h = ground arith
reply_never status errors (err e) s t a h = raise_never status errors e s t a h

claim_never :
    (state : Datagram) (motion_id : ℕ) (s t : Session) (a : Unit {0})
    → ¬ Ran (claim_motion_error state motion_id) s a t
unfolding claim_motion_error
claim_never state motion_id s t a h =
    let (message, s1, p1, h1) =
      bind_done (blocking_receive_response motion_id) (replied_with state) s a t h in
    let (status, s2, p2, h2) = bind_done (move_status message) (judged state) s1 a t h1 in
    reply_never status state.last_motion_errors (handle_terminal_move_response status s2) s2 t a h2

-- A state that is no error of the motion changes nothing.
throw_on_motion_error-same :
    (state : Datagram) (motion_id : ℕ) (s t : Session) (a : Unit {0})
    → Ran (throw_on_motion_error state motion_id) s a t
    → t ≡ s
unfolding throw_on_motion_error
throw_on_motion_error-same state motion_id s t a =
    if_intro (λ r. r ≡ (done a, t) → t ≡ s) (errored state s)
      (λ _ h. absurd (claim_never state motion_id s t a h))
      (λ _ h. sym (ap (λ (r : Outcome (Unit {0}) × Session). r.1) h))

of_result-same :
    {A : Type 0} (r : Result RobotError A) (s u : Session) (a : A) → Ran (of_result r) s a u → u ≡ s
of_result-same (ok b) s u a h = ground arith
of_result-same (err e) s u a h = absurd (ground arith)

module _ {W : Type 0} where
  cycled-shrinks :
      (c : ControlLoop W) (goes_on : Bool) (l k : Turn W) (s t : Session)
      → Ran (cycled c (goes_on, l)) s k t
      → (k.is_finished ≡ true) ⊎ (length t.readings < length s.readings)
  cycled-shrinks c false l k s t h = inl (ground arith)
  cycled-shrinks c true l k s t h =
      let (state, s1, p1, h1) =
        bind_done (update_motion l.motion_command l.control_command) (checked c l) s k t h in
      let (x, s2, p2, h2) =
        bind_done (throw_on_motion_error state c.motion_id) (λ _. give _) s1 k t h1 in
      let same = throw_on_motion_error-same state c.motion_id s1 s2 x p2 in
      let end = sym (ap (λ (r : Outcome (Turn W) × Session). r.1) h2) ∙ same in
      inr (
        subst (λ (u : Session). length u.readings < length s.readings) (sym end)
          (update_motion-Cycles l.motion_command l.control_command s s1 state p1).1)

  turn-shrinks :
      (c : ControlLoop W) (l : Turn W) (s : Session) (k : Turn W) (t : Session)
      → Ran (turn c l) s k t
      → (k.is_finished ≡ true) ⊎ (length t.readings < length s.readings)
  unfolding turn
  turn-shrinks c l s k t h =
      let ((goes_on, m), u, p, q) =
        bind_done (λ s. of_result (spin_both s.version c l) s) (cycled c) s k t h in
      subst (λ (v : Session). (k.is_finished ≡ true) ⊎ (length t.readings < length v.readings))
        (of_result-same (spin_both s.version c l) s u (goes_on, m) p)
        (cycled-shrinks c goes_on m k u t q)

  -- The rounds of a control loop end alike with every fuel beyond the reads to come, whatever the
  -- callbacks do.
  pub turns-enough :
      (c : ControlLoop W) (l : Turn W) (n : ℕ) (s : Session)
      → suc (length s.readings) < n
      → until (λ (l : Turn W) _. l.is_finished) (turn c) n l s
        ≡ until (λ (l : Turn W) _. l.is_finished) (turn c) (rounds s) l s
  turns-enough c l n s h =
      until_enough (λ (l : Turn W) _. l.is_finished) (turn c) (turn-shrinks c) n (rounds s) l s h
        (omega arith)
