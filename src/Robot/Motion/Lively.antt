-- ===== src/Robot/Motion/Lively.antt =====
-- A motion that is finished does end (crates/franka-rs/src/robot/robot_impl/motion.rs).
use franka_rs.Common.{
  ℕ, zero, suc, ◌+◌, ◌<◌, ◌≡◌, inl, inr, Bool, true, false, Option, some, List, [], ◌∷◌, Result, ok,
  if_intro, if_true, if_false, refl, ap, ◌∙◌, arith, length, Bool-cases,
}
use franka_rs.Robot.Codec.Versions.{FciVersion, v5, v10, move}
use franka_rs.Robot.Codec.Statuses.{MoveStatus, parse_move_status, move_status_v5, move_status_v10}
use franka_rs.Robot.Session.{
  RobotError, Datagram, MotionCommand, ControlCommand, Reading, Session, done, of_result, awaited,
  ◌>>=◌, give,
}
use franka_rs.Robot.Responses.{
  expected, move_status, handle_terminal_move_response, handle_move_status,
}
use franka_rs.Robot.Session.Monad.{Ran}
use franka_rs.Robot.Session.Socket.{blocking_receive_response, status_byte}
use franka_rs.Robot.Motion.Ends.{Ended, finish_motion-Ended}
use franka_rs.Robot.Motion.Cycle.{until, rounds, update_motion}
use franka_rs.Robot.Motion.Finish.{
  at_rest, finish_round, finish_running, finished_commands, finish_motion, finish_with,
  conclude_motion, conclude_with, forget_modes,
}
use franka_rs.Robot.Motion.Served.{fresh, Served, bind-Ran, resting, update_motion-Served}

-- Whether the robot is at rest after the states
abbrev pub settled : Bool → List Datagram → Bool
settled b [] = b
settled b (d ∷ states) = settled (resting d) states

finish_round-Ran :
    (motion : Option MotionCommand) (torques : Option ControlCommand) (errors : ℕ) (d : Datagram)
    (s t : Session)
    → Ran (update_motion motion torques) s d t
    → Ran (finish_round motion torques errors) s d.last_motion_errors t
unfolding finish_round
finish_round-Ran motion torques errors d s t h =
    bind-Ran (update_motion motion torques) (λ state. give state.last_motion_errors) s t d
      (done d.last_motion_errors, t) h refl

abbrev Rests : Option MotionCommand → Option ControlCommand → ℕ → ℕ → Session → Session → Type 0
Rests motion torques n errors s t =
    (e : ℕ) × Ran (until (λ _. at_rest) (finish_round motion torques) n errors) s e t
    × (t.claims ≡ s.claims)
    × (t.version ≡ s.version)

Rests-now :
    (motion : Option MotionCommand) (torques : Option ControlCommand) (n errors : ℕ) (s : Session)
    → at_rest s ≡ true
    → Rests motion torques (suc n) errors s s
unfolding until
Rests-now motion torques n errors s e = (errors, if_true (at_rest s) _ _ e, refl, refl)

Rests-later :
    (motion : Option MotionCommand) (torques : Option ControlCommand) (n errors : ℕ) (d : Datagram)
    (s u t : Session)
    → at_rest s ≡ false
    → Ran (update_motion motion torques) s d u
    → u.claims ≡ s.claims
    → u.version ≡ s.version
    → Rests motion torques n d.last_motion_errors u t
    → Rests motion torques (suc n) errors s t
unfolding until
Rests-later motion torques n errors d s u t e h claims version (k, ran, c, v) = (
  k,
  if_false (at_rest s) _ _ e
      ∙ bind-Ran (finish_round motion torques errors)
          (until (λ _. at_rest) (finish_round motion torques) n) s u d.last_motion_errors
          (done k, t) (finish_round-Ran motion torques errors d s u h) ran,
  c ∙ claims,
  v ∙ version,
)

until-Rests :
    (motion : Option MotionCommand) (torques : Option ControlCommand) (n errors : ℕ)
    (states : List Datagram) (s : Session)
    → Served motion torques states s
    → settled (at_rest s) states ≡ true
    → length states < n
    → (t : Session) × Rests motion torques n errors s t
until-Rests motion torques zero errors states s v r p = absurd (omega (arith, p))
until-Rests motion torques (suc n) errors [] s v r p = (s, Rests-now motion torques n errors s r)
until-Rests motion torques (suc n) errors (d ∷ states) s v r p = elim (Bool-cases (at_rest s)) [
  | inl e ↦ (s, Rests-now motion torques n errors s e)
  | inr e ↦
      let (u, ran, served, rests, claims, version) =
        update_motion-Served motion torques d states s v in
      let (t, later) =
        until-Rests motion torques n d.last_motion_errors states u served
          (ap (λ b. settled b states) rests ∙ r) (omega (arith, p)) in
      (t, Rests-later motion torques n errors d s u t e ran claims version later)
]

claim_ok :
    (id : ℕ) (s : Session) (message : List ℕ) (claims : List (Result RobotError (List ℕ)))
    → s.claims ≡ ok message ∷ claims
    → Ran
        (blocking_receive_response id)
        s
        message
        (record s { claims = claims; sent = awaited id ∷ s.sent })
unfolding blocking_receive_response
claim_ok id s message claims e = ground arith

parse_zero : (v : FciVersion) → parse_move_status v 0 ≡ some MoveStatus.success
unfolding parse_move_status move_status_v5 move_status_v10
parse_zero v5 = refl
parse_zero v10 = refl

zero_status : (s : Session) (more : List ℕ) → Ran (move_status (0 ∷ more)) s MoveStatus.success s
unfolding move_status status_byte
zero_status s more =
    ap (λ (o : Option MoveStatus). of_result (expected move o) s) (parse_zero s.version)

conclude-Ran :
    (motion_id errors : ℕ) (s : Session) (more : List ℕ)
    (claims : List (Result RobotError (List ℕ)))
    → s.claims ≡ ok (0 ∷ more) ∷ claims
    → (t : Session) × Ran (conclude_motion motion_id errors) s tt t
unfolding conclude_motion handle_terminal_move_response handle_move_status
conclude-Ran motion_id errors s more claims e =
    let u = record s { claims = claims; sent = awaited motion_id ∷ s.sent } in
    let t = forget_modes u in
    let status =
      bind-Ran (move_status (0 ∷ more)) (conclude_with errors) u u MoveStatus.success (done tt, t)
        (zero_status u more) refl in
    (
      t,
      bind-Ran (blocking_receive_response motion_id)
          (λ message. move_status message >>= conclude_with errors) s u (0 ∷ more) (done tt, t)
          (claim_ok motion_id s (0 ∷ more) claims e) status,
    )

length-fresh : (states : List Datagram) → length (fresh states) ≡ length states + length states
length-fresh [] = refl
length-fresh (d ∷ states) = omega (arith, length-fresh states)

finish_by :
    (motion_id : ℕ) (motion m : Option MotionCommand) (torques c : Option ControlCommand)
    (s u : Session)
    → finished_commands s.version motion torques ≡ ok (m, c)
    → Ran (finish_running motion_id m c) s tt u
    → (t : Session) × Ran (finish_motion motion_id motion torques) s tt t
unfolding finish_motion
finish_by motion_id motion m torques c s u f h =
    if_intro (λ r. (t : Session) × (r ≡ (done tt, t))) (at_rest s) (λ e. (forget_modes s, refl))
      (λ e. (
        u,
        ap
              (λ (r : Result RobotError (Option MotionCommand × Option ControlCommand)).
                finish_with motion_id r s)
              f
            ∙ h,
      ))

finish_running-Ran :
    (motion_id : ℕ) (motion : Option MotionCommand) (torques : Option ControlCommand)
    (states : List Datagram) (s : Session) (more : List ℕ)
    (claims : List (Result RobotError (List ℕ)))
    → Served motion torques states s
    → settled (at_rest s) states ≡ true
    → s.claims ≡ ok (0 ∷ more) ∷ claims
    → (t : Session) × Ran (finish_running motion_id motion torques) s tt t
unfolding finish_running
finish_running-Ran motion_id motion torques states s more claims v r e =
    let reads = ap (λ (l : List Reading). length l) v.readings ∙ length-fresh states in
    let (u, (errors, ran, same, _)) =
      until-Rests motion torques (rounds s) 0 states s v r (omega (arith, reads)) in
    let (t, concluded) = conclude-Ran motion_id errors u more claims (same ∙ e) in
    (
      t,
      bind-Ran (until (λ _. at_rest) (finish_round motion torques) (rounds s) 0)
          (conclude_motion motion_id) s u errors (done tt, t) ran concluded,
    )

-- Where the sockets serve a cycle for each of some fresh states after which the robot is at rest, and
-- the reply to the motion is `Success`, a call that finishes the motion with a command ends well.
pub finish_motion_lively :
    (motion_id : ℕ) (motion m : Option MotionCommand) (torques c : Option ControlCommand)
    (states : List Datagram) (s : Session) (more : List ℕ)
    (claims : List (Result RobotError (List ℕ)))
    → finished_commands s.version motion torques ≡ ok (m, c)
    → Served m c states s
    → settled (at_rest s) states ≡ true
    → s.claims ≡ ok (0 ∷ more) ∷ claims
    → (t : Session) × Ran (finish_motion motion_id motion torques) s tt t × Ended s t
finish_motion_lively motion_id motion m torques c states s more claims f v r e =
    let (u, ran) = finish_running-Ran motion_id m c states s more claims v r e in
    let (t, h) = finish_by motion_id motion m torques c s u f ran in
    (t, h, finish_motion-Ended motion_id motion torques s t h)
