-- ===== src/Examples.antt =====
-- Test data: numbers as doubles, a robot side that a clock stands for, and an arm in flight.
pub mod Witnesses
pub mod Bytes
mod Sessions
mod Targets
mod Tunings
mod Hand
use franka_rs.Common.{
  arith, ℕ, ◌+◌, ◌-◌, ◌*◌, ◌/◌, ◌^◌, min, max, true, false, none, some, [], ◌∷◌, ok, ltb, leb, List,
}
use franka_rs.Float.{Float, Arr7, splat}
use franka_rs.Guard.{Guard}
use franka_rs.Guard.Rules.{GuardOptions, JointLimits}
use franka_rs.Msg.{TargetMsg, active, joints}
use franka_rs.Arm.Commands.{acquire_verb, enable_verb, home_verb}
use franka_rs.Arm.Loop.{target_event, cmd, lease_alive, shutdown}
use franka_rs.Arm.Thread.{Received, received, timed_out}
use franka_rs.Arm.Platform.{Platform, ArmConfig}
use franka_rs.Arm.Machine.{Machine, EpisodeMsg, start, no_counts, contains}
use franka_rs.Arm.Safety.{IsWell}

-- Rounded down to whole numbers, with no negative ones.
abbrev pub whole : Float
whole = record {
  F = ℕ;
  add = λ a b. a + b;
  sub = λ a b. a - b;
  mul = λ a b. a * b;
  div = λ a b. a / b;
  abs = λ a. a;
  neg = λ a. 0;
  sqrt = λ a. a;
  acos = λ a. 0;
  fmin = λ a b. min a b;
  fmax = λ a b. max a b;
  flt = ltb;
  fle = leb;
  is_finite = λ a. true;
  nan = 0;
  frac_pi_2 = 1;
  frac_pi_4 = 0;
  sum_start = 0;
  decimal = λ m k. m / 10 ^ k;
  of_ℕ = λ n. n;
}

abbrev pub limits : JointLimits ℕ
limits = record { lower = splat 0; upper = splat 100 }

-- The world is its clock, which each reading advances; every call succeeds.
abbrev pub bench : Platform
bench = record {
  float = whole;
  World = ℕ;
  RobotState = Arr7 ℕ;
  Fault = ℕ;
  Handle = ℕ;
  LoopOptions = ℕ;
  Tuning = ℕ;
  Update = ℕ;
  default_state = splat 0;
  pose = λ s k. 0;
  joint_q = λ s. s;
  joint_dq = λ s. splat 0;
  now = λ w. (w, w + 1);
  monotonic_ns = λ w. (w, w + 1);
  read_once = λ w. (ok (splat 1), w);
  set_collision_behavior = λ w. (ok tt, w);
  start = λ w. (ok 1, w);
  start_joints = λ o w. (ok 1, w);
  automatic_error_recovery = λ w. (ok tt, w);
  joint_position_limits = limits;
  scaled_options = λ f. f;
  max_deviation = λ o. o;
  with_max_deviation = λ o d. d;
  set_target = λ h t w. (ok tt, w);
  target_of = λ h w. splat 1;
  state_of = λ h w. splat 1;
  is_running = λ h w. true;
  tuning_of = λ h w. ok 0;
  tune = λ h u w. (ok tt, w);
  stop_handle = λ h w. (ok tt, w);
  dropped_targets = λ w. 0;
  release_slot = λ w. w;
  recording_id = λ w. none;
  recording_file = λ w. none;
  session_id = λ w. "session";
  apply_update = λ t u. ok u;
  unconfirmed = λ a b c. none;
  max_width = λ w. 8;
  can_spawn = λ w. true;
}

abbrev pub options : GuardOptions ℕ
options = record {
  max_step = 5;
  max_step_rotation = 5;
  max_step_joint = 5;
  max_lead = 0;
  max_lead_rotation = 0;
  workspace = none;
  rate_hz = 100;
  joint_limit_inset = 1;
}

abbrev pub config : ArmConfig bench
config = record {
  name = "left";
  state_hz = 100;
  period = 10;
  hold_after = 50;
  stop_after = 200;
  joint_budget_fraction = 1;
  guard_options = options;
}

-- A gate of joint targets for client 7.
abbrev pub gate : Guard ℕ
gate = record {
  options = options;
  limits = some limits;
  holder = 7;
  last_seq = 3;
  previous = splat 10;
  tokens = 5;
  refilled_ns = 0;
}

-- The same for poses, with both lead limits on.
abbrev pub pose_gate : Guard ℕ
pose_gate = record gate {
  options = record options { max_lead = 2; max_lead_rotation = 2 };
  limits = none;
}

abbrev pub good : TargetMsg ℕ
good = record {
  kind_byte = 2;
  flags = 0;
  client_id = 7;
  seq = 4;
  t_send_ns = 90;
  payload = splat 12;
}

-- An anchored pose, whose quaternion has the norm 1 in whole numbers
abbrev pub anchored : TargetMsg ℕ
anchored = record good {
  kind_byte = 1;
  flags = 1;
  payload = record { a0 = 1; a1 = 1; a2 = 1; a3 = 0; a4 = 0; a5 = 0; a6 = 1 };
}

abbrev pub opened : EpisodeMsg
opened = record { recording_id = "session"; file = none; t_node_ns = 0; when = start }

-- An arm that client 7 flies; its clock stands at 100.
abbrev pub flying : Machine bench
flying = record {
  config = config;
  world = 100;
  out = [];
  episode = some opened;
  channel_dropped_base = 0;
  phase = active;
  holder = 7;
  alive = 7 ∷ 8 ∷ [];
  control = some 1;
  guard = some gate;
  homing = none;
  snapshot = splat 1;
  read_at = none;
  last_accept = 60;
  last_target = 90;
  holding = false;
  accepted_seq = 3;
  accepted_t_send = 0;
  counts = no_counts;
  params = record { version = 0; origin = none; crossing = none; published_at = none };
  gripper = none;
  gripper_ticks = 0;
}

-- The same, long after the last target.
abbrev pub silent : Machine bench
silent = record flying { world = 1000 }

-- The same, where the last accepted target is older than `hold_after`, but the last target is not
-- older than `stop_after`.
abbrev pub waiting : Machine bench
waiting = record flying { world = 120 }

pub flying-IsWell : IsWell flying
unfolding contains
flying-IsWell = ground arith

-- The invariant does not read the clock.
pub silent-IsWell : IsWell silent
unfolding contains
silent-IsWell = ground arith

pub waiting-IsWell : IsWell waiting
unfolding contains
waiting-IsWell = ground arith

-- Client 7 gets a lease, enables a session and sends a target; a client with no lease asks for home.
abbrev pub busy : List (Received bench)
busy =
    received (lease_alive 7)
      (cmd acquire_verb (record { client = 7; mode = none; speed = none; episode = none }) 1 ∷ [])
    ∷ received
        (cmd enable_verb (record { client = 7; mode = some joints; speed = none; episode = none })
          2)
        (target_event good 110 ∷ [])
    ∷ timed_out
    ∷ received (cmd home_verb (record { client = 9; mode = none; speed = none; episode = none }) 3)
        (shutdown ∷ target_event good 120 ∷ [])
    ∷ []
