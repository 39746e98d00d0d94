-- ===== src/Robot/ControlLoop.antt =====
-- The control loop (crates/franka-rs/src/robot/control_loop/runner.rs). The user's callbacks and the
-- conversion of what they return are given, over a world `W` that they change, the filter's state
-- among it.
pub mod Ends
pub mod Fails
pub mod Turns
use franka_rs.Common.{
  ℕ, ◌-◌, Bool, true, false, not, Option, none, some, List, Result, ok, err, if◌then◌else◌,
}
use franka_rs.Robot.Codec.Versions.{FciVersion, v5, v10}
use franka_rs.Robot.Codec.Encode.{zeros}
use franka_rs.Robot.Session.{
  RobotError, Datagram, MotionCommand, ControlCommand, Session, Outcome, done, failed, stalled,
  panicked, M, ◌>>=◌, ◌>>◌, give, of_result,
}
use franka_rs.Robot.Motion.Cycle.{until, rounds, update_motion, throw_on_motion_error}
use franka_rs.Robot.Motion.Finish.{finish_motion}
use franka_rs.Robot.Motion.Abort.{cancel_motion}

-- A callback and the conversion of its output into a command: with the state and the time step, the
-- command so far and the world; whether the output says that it is the last, and the error, if the
-- conversion fails.
abbrev pub Spin : Type 0 → Type 0 → Type 0
Spin W C = Datagram → ℕ → C → W → Result RobotError (C × Bool) × W

-- `ControlLoop`: the two callbacks, the motion and the world
pub record ControlLoop (W : Type 0) : Type 0 where
  pub motion_callback : Option (Spin W MotionCommand)
  pub control_callback : Option (Spin W ControlCommand)
  pub motion_id : ℕ

-- What `run_inner` changes as it goes round
pub record Turn (W : Type 0) : Type 0 where
  pub robot_state : Datagram
  pub previous_time : ℕ
  pub motion_command : Option MotionCommand
  pub control_command : Option ControlCommand
  pub world : W
  pub is_finished : Bool

-- `default()` where there is a callback
abbrev pub default_motion : MotionCommand
default_motion = record {
  values = zeros 38;
  valid_elbow = false;
  motion_generation_finished = false;
}

abbrev pub default_torques : ControlCommand
default_torques = record { torques = zeros 7; torque_command_finished = false }

abbrev pub if_some : {A B : Type 0} → Option A → B → Option B
if_some none b = none
if_some (some _) b = some b

-- `spin_motion` and `spin_control`: whether the loop goes on, and the command
unfoldable pub spin :
    {W C : Type 0}
    → Option (Spin W C)
    → Datagram
    → ℕ
    → Option C
    → W
    → Result RobotError (Bool × Option C) × W
spin none state step command world = (ok (true, command), world)
spin (some callback) state step none world = (ok (true, none), world)
spin (some callback) state step (some command) world =
    let (r, after) = callback state step command world in
    elim r [ ok (next, finished) ↦ (ok (not finished, some next), after) | err e ↦ (err e, after) ]

module _ {W : Type 0} where
  -- The time of a state is its `message_id` in milliseconds.
  abbrev time_step : Turn W → ℕ
  time_step l = l.robot_state.message_id - l.previous_time

  unfoldable pub spin_motion : ControlLoop W → Turn W → Result RobotError (Bool × Turn W)
  unfolding spin
  spin_motion c l =
      let (r, after) =
        spin c.motion_callback l.robot_state (time_step l) l.motion_command l.world in
      elim r [
        | ok (goes_on, command) ↦ ok (goes_on, record l { motion_command = command; world = after })
        | err e ↦ err e
      ]

  unfoldable pub spin_control : ControlLoop W → Turn W → Result RobotError (Bool × Turn W)
  unfolding spin
  spin_control c l =
      let (r, after) =
        spin c.control_callback l.robot_state (time_step l) l.control_command l.world in
      elim r [
        | ok (goes_on, command) ↦
            ok (goes_on, record l { control_command = command; world = after })
        | err e ↦ err e
      ]

  -- `a()? && b()?`
  abbrev and_then :
      Result RobotError (Bool × Turn W)
      → (Turn W → Result RobotError (Bool × Turn W))
      → Result RobotError (Bool × Turn W)
  and_then (err e) second = err e
  and_then (ok (true, l)) second = second l
  and_then (ok (false, l)) second = ok (false, l)

  -- Both spins, in the order of the version
  unfoldable pub spin_both : FciVersion → ControlLoop W → Turn W → Result RobotError (Bool × Turn W)
  unfolding spin_motion spin_control
  spin_both v5 c l = and_then (spin_motion c l) (spin_control c)
  spin_both v10 c l = and_then (spin_control c l) (spin_motion c)

  -- A round of `run_inner`: the spins, then the cycle unless they ended the loop
  abbrev pub checked : ControlLoop W → Turn W → Datagram → M (Turn W)
  checked c l state =
      throw_on_motion_error state c.motion_id
      >> give (record l { robot_state = state; previous_time = l.robot_state.message_id })

  abbrev pub cycled : ControlLoop W → Bool × Turn W → M (Turn W)
  cycled c (true, l) = update_motion l.motion_command l.control_command >>= checked c l
  cycled c (false, l) = give (record l { is_finished = true })

  unfoldable pub turn : ControlLoop W → Turn W → M (Turn W)
  unfolding spin_both update_motion throw_on_motion_error
  turn c l s = (of_result (spin_both s.version c l) >>= cycled c) s

  abbrev pub finish_turn : ControlLoop W → Turn W → M (Unit {0})
  finish_turn c l = finish_motion c.motion_id l.motion_command l.control_command

  abbrev pub goes_round : ControlLoop W → Turn W → M (Unit {0})
  goes_round c l s = (until (λ l _. l.is_finished) (turn c) (rounds s) l >>= finish_turn c) s

  abbrev pub first_turn : ControlLoop W → W → Datagram → Turn W
  first_turn c world state = record {
    robot_state = state;
    previous_time = state.message_id;
    motion_command = if_some c.motion_callback default_motion;
    control_command = if_some c.control_callback default_torques;
    world = world;
    is_finished = false;
  }

  abbrev pub begins : ControlLoop W → W → Datagram → M (Unit {0})
  begins c world state =
      throw_on_motion_error state c.motion_id >> goes_round c (first_turn c world state)

  -- `run_inner`
  unfoldable pub run_inner : ControlLoop W → W → M (Unit {0})
  unfolding update_motion throw_on_motion_error turn finish_motion
  run_inner c world = update_motion none none >>= begins c world

  -- `run`, with the `Drop` that cancels the motion unless the loop ended regularly, also where it
  -- panics; how the cancellation ends is not told.
  abbrev pub dropped : ControlLoop W → Outcome (Unit {0}) → Session → Outcome (Unit {0}) × Session
  dropped c (done a) s = (done a, s)
  dropped c (failed e) s = (failed e, (cancel_motion c.motion_id s).1)
  dropped c panicked s = (panicked, (cancel_motion c.motion_id s).1)
  dropped c stalled s = (stalled, s)

  unfoldable pub run : ControlLoop W → W → M (Unit {0})
  unfolding run_inner cancel_motion
  run c world s = let (outcome, after) = run_inner c world s in dropped c outcome after
