-- ===== src/Robot/ControlLoop/Ends.antt =====
-- How a control loop ends (crates/franka-rs/src/robot/control_loop/runner.rs).
use franka_rs.Common.{◌≡◌, true, none, arith}
use franka_rs.Robot.Session.{Datagram, Session, Outcome, done, failed, stalled, panicked}
use franka_rs.Robot.Session.Monad.{Ran, bind_done}
use franka_rs.Robot.Motion.Cycle.{until, rounds, update_motion, throw_on_motion_error}
use franka_rs.Robot.Motion.Ends.{Ended, finish_motion-Ended}
use franka_rs.Robot.Motion.Loops.{until_passed}
use franka_rs.Robot.ControlLoop.{
  ControlLoop, Turn, first_turn, turn, finish_turn, goes_round, begins, run_inner, dropped, run,
}

module _ {W : Type 0} where
  -- The rounds of a loop: the first state, then turns until one of them has finished, which leaves the
  -- loop at `l` in the session `u`.
  abbrev pub Turned : ControlLoop W → W → Session → Turn W → Session → Type 0
  Turned c world s l u =
      (state : Datagram) × (s1 : Session) × (s2 : Session) × Ran (update_motion none none) s state
        s1
      × Ran (throw_on_motion_error state c.motion_id) s1 tt s2
      × Ran (until (λ l _. l.is_finished) (turn c) (rounds s2) (first_turn c world state)) s2 l u
      × (l.is_finished ≡ true)

  -- A loop that ends regularly has ended the motion regularly, from where its turns end.
  run_inner-Ended :
      (c : ControlLoop W) (world : W) (s t : Session) (a : Unit {0})
      → Ran (run_inner c world) s a t
      → (l : Turn W) × (u : Session) × Turned c world s l u
        × Ran (finish_turn c l) u tt t
        × Ended u t
  unfolding run_inner
  run_inner-Ended c world s t a h =
      let (state, s1, p1, h1) = bind_done (update_motion none none) (begins c world) s a t h in
      let (x, s2, p2, h2) =
        bind_done (throw_on_motion_error state c.motion_id) (λ _. goes_round c _) s1 a t h1 in
      let stop = λ (l : Turn W) (_ : Session). l.is_finished in
      let (l, s3, p3, h3) =
        bind_done (until stop (turn c) (rounds s2) (first_turn c world state)) (finish_turn c) s2 a
          t h2 in
      let over = until_passed stop (turn c) (rounds s2) (first_turn c world state) s2 l s3 p3 in
      (
        l,
        s3,
        (state, s1, s2, p1, p2, p3, over),
        h3,
        finish_motion-Ended c.motion_id l.motion_command l.control_command s3 t h3,
      )

  dropped_done :
      (c : ControlLoop W) (o : Outcome (Unit {0})) (s : Session) (a : Unit {0}) (t : Session)
      → dropped c o s ≡ (done a, t)
      → ◌≡◌ {A = Outcome (Unit {0}) × Session} (o, s) (done a, t)
  dropped_done c (done b) s a t h = h
  dropped_done c (failed e) s a t h = absurd (ground arith)
  dropped_done c stalled s a t h = absurd (ground arith)
  dropped_done c panicked s a t h = absurd (ground arith)

  -- A run that ends regularly has taken turns until one finished, and has then finished the motion with
  -- the outputs of that turn: it leaves nothing of the client running and no mode asked for, and where
  -- the motion still ran at the end of the turns, the reply to it that was claimed then was `Success`.
  pub run-Ended :
      (c : ControlLoop W) (world : W) (s t : Session)
      → Ran (run c world) s tt t
      → (l : Turn W) × (u : Session) × Turned c world s l u
        × Ran (finish_turn c l) u tt t
        × Ended u t
  unfolding run
  run-Ended c world s t h =
      let r = run_inner c world s in run_inner-Ended c world s t tt (dropped_done c r.0 r.1 tt t h)
