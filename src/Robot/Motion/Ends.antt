-- ===== src/Robot/Motion/Ends.antt =====
-- How a motion ends (crates/franka-rs/src/robot/robot_impl/motion.rs).
use franka_rs.Common.{
  ℕ, ◌≡◌, ◌⊎◌, inl, inr, true, Option, none, some, List, [], ◌∷◌, Result, ok, err, if_intro, refl,
  ap, sym, subst, ◌∙◌, arith,
}
use franka_rs.Robot.Codec.Versions.{FciVersion, v5, v10, move}
use franka_rs.Robot.Codec.Statuses.{MoveStatus, parse_move_status}
use franka_rs.Robot.Modes.{idle, other_controller}
use franka_rs.Robot.Responses.{
  move_status, handle_move_status, handle_terminal_move_response, expected,
}
use franka_rs.Robot.Session.{
  RobotError, Session, MotionCommand, ControlCommand, Outcome, done, ◌>>=◌, of_result,
  motion_generator_running, controller_running,
}
use franka_rs.Robot.Session.Monad.{Ran, bind_done}
use franka_rs.Robot.Session.Socket.{blocking_receive_response, status_byte}
use franka_rs.Robot.Motion.Cycle.{until, rounds, raise_with, create_control_exception, flush_log}
use franka_rs.Robot.Motion.Finish.{
  at_rest, forget_modes, conclude_with, conclude_motion, finish_round, finish_running,
  finished_commands, finish_with, finish_motion,
}
use franka_rs.Robot.Motion.Fuel.{Steady, Steady-refl, Steady-trans, finish_round-Cycles}
use franka_rs.Robot.Motion.Loops.{until_keeps, until_passed}

-- The reply claimed next says `Success`: its status byte is 0 in both versions.
abbrev pub Succeeded : Session → Session → Type 0
Succeeded s t = (rest : List ℕ) × (s.claims ≡ ok (0 ∷ rest) ∷ t.claims)

success_byte :
    (v : FciVersion) (byte : ℕ) → parse_move_status v byte ≡ some MoveStatus.success → byte ≡ 0
unfolding parse_move_status
success_byte v5 byte h = ground arith
success_byte v10 byte h = ground arith

pub create_never :
    (text : RobotError) (status : MoveStatus) (errors : ℕ) (s t : Session) (a : Unit {0})
    → ¬ Ran (create_control_exception text status errors) s a t
unfolding create_control_exception flush_log
create_never text status errors s t a h = ground arith

terminal_success :
    (status : MoveStatus) (errors : ℕ) (s t : Session) (a : Unit {0})
    → Ran (conclude_with errors status) s a t
    → (status ≡ MoveStatus.success) × (t ≡ forget_modes s)
unfolding handle_terminal_move_response handle_move_status raise_with
terminal_success MoveStatus.success errors s t a h =
    (refl, sym (ap (λ (r : Outcome (Unit {0}) × Session). r.1) h))
terminal_success MoveStatus.motion_started errors s t a h = absurd (ground arith)
terminal_success MoveStatus.preempted errors s t a h = absurd (create_never _ _ _ s t a h)
terminal_success MoveStatus.preempted_due_to_activated_safety_functions errors s t a h =
    absurd (create_never _ _ _ s t a h)
terminal_success MoveStatus.command_rejected_due_to_activated_safety_functions errors s t a h =
    absurd (create_never _ _ _ s t a h)
terminal_success MoveStatus.command_not_possible_rejected errors s t a h =
    absurd (create_never _ _ _ s t a h)
terminal_success MoveStatus.start_at_singular_pose_rejected errors s t a h =
    absurd (create_never _ _ _ s t a h)
terminal_success MoveStatus.invalid_argument_rejected errors s t a h =
    absurd (create_never _ _ _ s t a h)
terminal_success MoveStatus.reflex_aborted errors s t a h = absurd (create_never _ _ _ s t a h)
terminal_success MoveStatus.emergency_aborted errors s t a h = absurd (create_never _ _ _ s t a h)
terminal_success MoveStatus.input_error_aborted errors s t a h = absurd (create_never _ _ _ s t a h)
terminal_success MoveStatus.aborted errors s t a h = absurd (create_never _ _ _ s t a h)

-- The claim of a terminal reply leaves the rest of the claims.
claimed :
    (id : ℕ) (s t : Session) (message : List ℕ)
    → Ran (blocking_receive_response id) s message t
    → (s.claims ≡ ok message ∷ t.claims) × (at_rest t ≡ at_rest s)
unfolding blocking_receive_response motion_generator_running controller_running
claimed id s t message h = ground arith

expected-some :
    (o : Option MoveStatus) (s t : Session) (status : MoveStatus)
    → Ran (of_result (expected move o)) s status t
    → (o ≡ some status) × (t ≡ s)
expected-some none s t status h = absurd (ground arith)
expected-some (some status) s t other h = ground arith

read_success :
    (message : List ℕ) (s t : Session) (status : MoveStatus)
    → Ran (move_status message) s status t
    → status ≡ MoveStatus.success
    → (t ≡ s) × ((rest : List ℕ) × (message ≡ 0 ∷ rest))
unfolding move_status status_byte
read_success [] s t status h e = absurd (ground arith)
read_success (byte ∷ rest) s t status h e =
    let (parses, same) = expected-some (parse_move_status s.version byte) s t status h in
    let zero_byte = success_byte s.version byte (parses ∙ ap (λ m. some m) e) in
    (same, (rest, ap (λ b. b ∷ rest) zero_byte))

conclude-Succeeded :
    (motion_id errors : ℕ) (s t : Session) (a : Unit {0})
    → Ran (conclude_motion motion_id errors) s a t
    → (u : Session) × (t ≡ forget_modes u) × (at_rest u ≡ at_rest s) × Succeeded s u
unfolding conclude_motion
conclude-Succeeded motion_id errors s t a h =
    let (message, s1, p1, h1) =
      bind_done (blocking_receive_response motion_id)
        (λ message. move_status message >>= conclude_with errors) s a t h in
    let (status, s2, p2, h2) = bind_done (move_status message) (conclude_with errors) s1 a t h1 in
    let (success, forgets) = terminal_success status errors s2 t a h2 in
    let (same, (rest, byte)) = read_success message s1 s2 status p2 success in
    let (claims, resting) = claimed motion_id s s1 message p1 in
    (
      s2,
      forgets,
      ap at_rest same ∙ resting,
      (
        rest,
        claims
            ∙ (ap (λ l. ok l ∷ s1.claims) byte
                ∙ ap (λ (u : Session). ok (0 ∷ rest) ∷ u.claims) (sym same)),
      ),
    )

-- What a regular end promises: nothing of the client runs, no mode is asked for, and a motion that
-- ran was answered by `Success`.
abbrev pub Ended : Session → Session → Type 0
Ended s t =
    (at_rest t ≡ true)
    × (t.current_generator ≡ idle)
    × (t.current_controller ≡ other_controller)
    × ((at_rest s ≡ true) ⊎ Succeeded s t)

forget_modes-Ended :
    (s u t : Session)
    → at_rest u ≡ true
    → t ≡ forget_modes u
    → (at_rest s ≡ true) ⊎ Succeeded s u
    → Ended s t
unfolding forget_modes motion_generator_running controller_running
forget_modes-Ended s u t rest e why = subst (Ended s) (sym e) (rest, refl, refl, why)

finished_rounds :
    (motion : Option MotionCommand) (torques : Option ControlCommand) (s u : Session) (errors : ℕ)
    → Ran (until (λ _. at_rest) (finish_round motion torques) (rounds s) 0) s errors u
    → Steady s u × (at_rest u ≡ true)
finished_rounds motion torques s u errors p = (
  until_keeps (λ _. at_rest) (finish_round motion torques) (λ _ v. Steady s v)
      (λ a v b x w r. Steady-trans s v x w (finish_round-Cycles motion torques a b v x r).0)
      (rounds s) 0 s errors u (Steady-refl s) p,
  until_passed (λ _. at_rest) (finish_round motion torques) (rounds s) 0 s errors u p,
)

finish_running-Ended :
    (motion_id : ℕ) (motion : Option MotionCommand) (torques : Option ControlCommand)
    (s t : Session) (a : Unit {0})
    → Ran (finish_running motion_id motion torques) s a t
    → Ended s t
unfolding finish_running
finish_running-Ended motion_id motion torques s t a h =
    let round = finish_round motion torques in
    let (errors, u, p, q) =
      bind_done (until (λ _. at_rest) round (rounds s) 0) (conclude_motion motion_id) s a t h in
    let (w, forgets, resting, (rest, claims)) = conclude-Succeeded motion_id errors u t a q in
    let (steady, passed) = finished_rounds motion torques s u errors p in
    forget_modes-Ended s w t (resting ∙ passed) forgets (inr (rest, sym steady.claims ∙ claims))

finish_with-Ended :
    (motion_id : ℕ) (r : Result RobotError (Option MotionCommand × Option ControlCommand))
    (s t : Session) (a : Unit {0})
    → Ran (finish_with motion_id r) s a t
    → Ended s t
finish_with-Ended motion_id (ok (motion, torques)) s t a h =
    finish_running-Ended motion_id motion torques s t a h
finish_with-Ended motion_id (err e) s t a h = absurd (ground arith)

-- A motion that ends regularly leaves nothing of the client running and no mode asked for, and a
-- motion that ran was answered by `Success`.
pub finish_motion-Ended :
    (motion_id : ℕ) (motion : Option MotionCommand) (torques : Option ControlCommand)
    (s t : Session)
    → Ran (finish_motion motion_id motion torques) s tt t
    → Ended s t
unfolding finish_motion
finish_motion-Ended motion_id motion torques s t =
    if_intro (λ r. r ≡ (done tt, t) → Ended s t) (at_rest s)
      (λ e h.
        forget_modes-Ended s s t e (sym (ap (λ (r : Outcome (Unit {0}) × Session). r.1) h)) (inl e))
      (λ e h. finish_with-Ended motion_id (finished_commands s.version motion torques) s t tt h)
