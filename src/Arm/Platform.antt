-- ===== src/Arm/Platform.antt =====
-- What the arm thread calls: `RobotSide` and `Control` (crates/franka-node/src/arm/mod.rs), the
-- clock, the gripper's driver and the payload parser, as an interface. `World` is the state of all
-- of it; a call returns the new one.
use Prim.Native.String.{String}
use franka_rs.Common.{ℕ, Bool, Option, List, Result}
use franka_rs.Float.{Float, Arr7}
use franka_rs.Guard.Rules.{JointLimits}

pub record Platform : Type 1 where
  pub float : Float
  pub World : Type 0
  -- `RobotState`, `FrankaError`, `Box<dyn Control>`, the control options, `LiveTuning` and its
  -- updates
  pub RobotState : Type 0
  pub Fault : Type 0
  pub Handle : Type 0
  pub LoopOptions : Type 0
  pub Tuning : Type 0
  pub Update : Type 0
  pub default_state : RobotState
  pub pose : RobotState → ℕ → float.F
  pub joint_q : RobotState → Arr7 float.F
  pub joint_dq : RobotState → Arr7 float.F
  -- `Instant::now()`, in ns, and `monotonic_ns()`
  pub now : World → ℕ × World
  pub monotonic_ns : World → ℕ × World
  -- `RobotSide`
  pub read_once : World → Result Fault RobotState × World
  pub set_collision_behavior : World → Result Fault (Unit {0}) × World
  pub start : World → Result Fault Handle × World
  pub start_joints : LoopOptions → World → Result Fault Handle × World
  pub automatic_error_recovery : World → Result Fault (Unit {0}) × World
  pub joint_position_limits : JointLimits float.F
  -- `JointTargetControlOptions`: at a fraction of the limits, its deviation read and replaced
  pub scaled_options : float.F → LoopOptions
  pub max_deviation : LoopOptions → float.F
  pub with_max_deviation : LoopOptions → float.F → LoopOptions
  -- `Control`
  pub set_target : Handle → Arr7 float.F → World → Result Fault (Unit {0}) × World
  pub target_of : Handle → World → Arr7 float.F
  pub state_of : Handle → World → RobotState
  pub is_running : Handle → World → Bool
  pub tuning_of : Handle → World → Result Fault Tuning
  pub tune : Handle → Update → World → Result Fault (Unit {0}) × World
  pub stop_handle : Handle → World → Result Fault (Unit {0}) × World
  -- `Backlog::dropped` and `Backlog::release`, the recording's file stem and the generated session id
  pub dropped_targets : World → ℕ
  pub release_slot : World → World
  pub recording_id : World → Option String
  pub recording_file : World → Option String
  pub session_id : World → String
  -- `LiveTuning::apply_update`, and the first bound that a change crosses unconfirmed
  pub apply_update : Tuning → Update → Result Fault Tuning
  pub unconfirmed : Tuning → Tuning → List String → Option String
  -- the `max_width_m` of the gripper driver's state, and whether its home thread can be spawned
  pub max_width : World → float.F
  pub can_spawn : World → Bool

-- What of `ArmConfig` the thread reads; durations in ns, `period` being
-- that of one state tick.
pub record ArmConfig (pf : Platform) : Type 0 where
  pub name : String
  pub state_hz : ℕ
  pub period : ℕ
  pub hold_after : ℕ
  pub stop_after : ℕ
  pub joint_budget_fraction : pf.float.F
  pub guard_options : franka_rs.Guard.Rules.GuardOptions pf.float.F
