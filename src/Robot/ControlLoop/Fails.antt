-- ===== src/Robot/ControlLoop/Fails.antt =====
-- How a control loop that fails ends (crates/franka-rs/src/robot/control_loop/runner.rs).
use franka_rs.Common.{◌≡◌, ◌⊎◌, true, false, ap, subst, arith}
use franka_rs.Robot.Session.{RobotError, Session, Outcome, done, failed, stalled, panicked}
use franka_rs.Robot.Motion.Stopping.{StopSaid, cancelled_alive}
use franka_rs.Robot.ControlLoop.{ControlLoop, run, run_inner, dropped}

-- What a run does that fails, or whose callback panics
module _ {W : Type 0} where
  -- What the drop of the loop leaves
  abbrev Stopped : ControlLoop W → Session → Session → Type 0
  Stopped c u v = ((u.alive ≡ false) × (v ≡ u)) ⊎ ((u.alive ≡ true) × StopSaid c.motion_id u v)

  dropped-Stopped :
      (c : ControlLoop W) (p o : Outcome (Unit {0})) (u v : Session)
      → dropped c p u ≡ (o, v)
      → (o ≡ panicked) ⊎ ((e : RobotError) × (o ≡ failed e))
      → (p ≡ o) × Stopped c u v
  dropped-Stopped c (done a) o u v h bad = absurd (ground arith)
  dropped-Stopped c stalled o u v h bad = absurd (ground arith)
  dropped-Stopped c (failed e) o u v h bad = (
    ap (λ (r : Outcome (Unit {0}) × Session). r.0) h,
    subst (Stopped c u) (ap (λ (r : Outcome (Unit {0}) × Session). r.1) h)
        (cancelled_alive c.motion_id u),
  )
  dropped-Stopped c panicked o u v h bad = (
    ap (λ (r : Outcome (Unit {0}) × Session). r.0) h,
    subst (Stopped c u) (ap (λ (r : Outcome (Unit {0}) × Session). r.1) h)
        (cancelled_alive c.motion_id u),
  )

  -- A run fails, or panics, exactly as its loop does; then the motion is cancelled. On a connection that is
  -- lost nothing more is done. Otherwise, whatever becomes of the cancellation, either the socket does not
  -- take the request and nothing goes out, or one `StopMove` goes out under the session's next id and
  -- its answer is awaited; after that, nothing more goes out but that a failing network is shut down, or
  -- that the reply to the motion is asked for, and this only once nothing of the client runs.
  pub run-Stopped :
      (c : ControlLoop W) (world : W) (s v : Session) (o : Outcome (Unit {0}))
      → run c world s ≡ (o, v)
      → (o ≡ panicked) ⊎ ((e : RobotError) × (o ≡ failed e))
      → (u : Session) × (run_inner c world s ≡ (o, u))
        × (((u.alive ≡ false) × (v ≡ u)) ⊎ ((u.alive ≡ true) × StopSaid c.motion_id u v))
  unfolding run
  run-Stopped c world s v o h bad =
      let r = run_inner c world s in
      let (same, stopped) = dropped-Stopped c r.0 o r.1 v h bad in
      (r.1, ap (λ p. (p, r.1)) same, stopped)
