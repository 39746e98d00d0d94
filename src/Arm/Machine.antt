-- ===== src/Arm/Machine.antt =====
-- The state of `Machine` (crates/franka-node/src/arm/machine.rs) and what it sends: replies,
-- published messages and calls of the recorder, newest first in `out`.
use Prim.Native.String.{String}
use franka_rs.Common.{
  ℕ, Bool, true, false, Option, none, List, [], ◌∷◌, Result, if◌then◌else◌, ◌==◌,
}
use franka_rs.Float.{Arr7}
use franka_rs.Guard.{Guard}
use franka_rs.Guard.Rules.{Reason}
use franka_rs.Msg.{Kind, Phase, idle, TargetMsg}
use franka_rs.Arm.Platform.{Platform, ArmConfig}

-- The text of a refusal or a failure: a literal, or the pieces that the source formats into it.
pub data Why (pf : Platform) : Type 0 where
  text : String → Why pf
  not_allowed : Phase → Why pf
  held_by : ℕ → Why pf
  reason : Reason pf.float.F → Why pf
  initial_target : Reason pf.float.F → Why pf
  failed : pf.Fault → Why pf
  bad_episode : String → Why pf
  width_beyond : pf.float.F → pf.float.F → Why pf
  unknown_gripper_kind : ℕ → Why pf

-- What a `Result<(), String>` of the thread is.
abbrev pub Outcome : Platform → Type 0
Outcome pf = Result (Why pf) (Unit {0})

pub data EpisodePhase : Type 0 where
  start end : EpisodePhase

-- `EpisodeMsg`, without the arm's constant name
pub record EpisodeMsg : Type 0 where
  pub recording_id : String
  pub file : Option String
  pub t_node_ns : ℕ
  pub when : EpisodePhase

-- `StateMsg`; the columns that are copied from the robot's state are in `snapshot`.
pub record StateMsg (pf : Platform) : Type 0 where
  pub phase_byte : ℕ
  pub flags : ℕ
  pub client_id : ℕ
  pub seq_accepted : ℕ
  pub t_send_ns_accepted : ℕ
  pub t_node_ns : ℕ
  pub snapshot : pf.RobotState
  pub target : Arr7 pf.float.F
  pub accepted : ℕ
  pub refused : ℕ
  pub dropped : ℕ

-- Who set the parameters that are in force: the version, the client and the time.
pub record Origin : Type 0 where
  pub version : ℕ
  pub by : ℕ
  pub at_ns : ℕ

pub record Crossing (pf : Platform) : Type 0 where
  pub from : pf.Tuning
  pub to : pf.Tuning
  pub at : ℕ

-- `Params`
pub record Params (pf : Platform) : Type 0 where
  pub version : ℕ
  pub origin : Option Origin
  pub crossing : Option (Crossing pf)
  pub published_at : Option ℕ

-- A `params/set` refusal, by its reason code.
pub data Rejection (pf : Platform) : Type 0 where
  bad_type : Rejection pf
  client_not_positive : Rejection pf
  no_session : Rejection pf
  not_ready : pf.Fault → Rejection pf
  stale : ℕ → ℕ → Rejection pf
  invalid : pf.Fault → Rejection pf
  bad_field : String → Rejection pf
  needs_confirm : String → Rejection pf

pub data ParamsReply (pf : Platform) : Type 0 where
  schema : ParamsReply pf
  current : Params pf → ParamsReply pf
  set_accepted : ℕ → pf.Tuning → ParamsReply pf
  set_refused : Rejection pf → ℕ → ParamsReply pf

-- `GripperMsg`
pub record GripperMsg (pf : Platform) : Type 0 where
  pub kind_byte : ℕ
  pub client_id : ℕ
  pub seq : ℕ
  pub width : pf.float.F
  pub force : pf.float.F

-- What the thread does to others. Replies carry the number of their query.
pub data Output (pf : Platform) : Type 0 where
  replied : ℕ → Outcome pf → Output pf
  params_replied : ℕ → ParamsReply pf → Output pf
  published_state : StateMsg pf → Output pf
  published_episode : EpisodeMsg → Output pf
  published_params : Params pf → Output pf
  published_gripper : ℕ → Output pf
  recording_begun : Kind → Option String → Output pf
  recording_discarded : Output pf
  recording_finished : Output pf
  recorded_accepted : TargetMsg pf.float.F → Output pf
  recorded_refused : TargetMsg pf.float.F → Why pf → Output pf
  gripper_width : pf.float.F → Output pf
  gripper_grasp : pf.float.F → pf.float.F → Output pf
  gripper_stopped : Output pf
  gripper_home_started : ℕ → Output pf
  gripper_home_lost : ℕ → Output pf

-- `Homing`: the reply of the query, the start and the count of ticks within the tolerance
pub record Homing : Type 0 where
  pub reply : ℕ
  pub started : ℕ
  pub within : ℕ

-- `GripperSide`: the last accepted (client, seq), and whether a home runs on its thread
pub record GripperSide : Type 0 where
  pub last : Option (ℕ × ℕ)
  pub home_running : Bool

pub record Counts : Type 0 where
  pub accepted : ℕ
  pub refused : ℕ
  pub dropped : ℕ

-- `Machine`; `robot`, `backlog`, `stats` and the publishers are behind `world` and `out`.
pub record Machine (pf : Platform) : Type 0 where
  pub config : ArmConfig pf
  pub world : pf.World
  pub out : List (Output pf)
  pub episode : Option EpisodeMsg
  pub channel_dropped_base : ℕ
  pub phase : Phase
  pub holder : ℕ
  pub alive : List ℕ
  pub control : Option pf.Handle
  pub guard : Option (Guard pf.float.F)
  pub homing : Option Homing
  pub snapshot : pf.RobotState
  pub read_at : Option ℕ
  pub last_accept : ℕ
  pub last_target : ℕ
  pub holding : Bool
  pub accepted_seq : ℕ
  pub accepted_t_send : ℕ
  pub counts : Counts
  pub params : Params pf
  pub gripper : Option GripperSide
  pub gripper_ticks : ℕ

abbrev pub no_counts : Counts
no_counts = record { accepted = 0; refused = 0; dropped = 0 }

-- `Machine::new`; the two clock readings are `t` and `u`.
unfoldable pub new :
    {pf : Platform} → ArmConfig pf → Option GripperSide → ℕ → ℕ → pf.World → Machine pf
new {pf} config gripper t u w = record {
  config = config;
  world = w;
  out = [];
  episode = none;
  channel_dropped_base = 0;
  phase = idle;
  holder = 0;
  alive = [];
  control = none;
  guard = none;
  homing = none;
  snapshot = pf.default_state;
  read_at = none;
  last_accept = t;
  last_target = u;
  holding = false;
  accepted_seq = 0;
  accepted_t_send = 0;
  counts = no_counts;
  params = record { version = 0; origin = none; crossing = none; published_at = none };
  gripper = gripper;
  gripper_ticks = 0;
}

abbrev pub emit : {pf : Platform} → Output pf → Machine pf → Machine pf
emit o m = record m { out = o ∷ m.out }

-- `BTreeSet::contains`, `insert` and `remove` on the live leases
unfoldable pub contains : ℕ → List ℕ → Bool
contains a [] = false
contains a (b ∷ bs) = if a == b then true else contains a bs

unfoldable pub insert : ℕ → List ℕ → List ℕ
unfolding contains
insert a bs = if contains a bs then bs else a ∷ bs

unfoldable pub remove : ℕ → List ℕ → List ℕ
remove a [] = []
remove a (b ∷ bs) = let rest = remove a bs in if a == b then rest else b ∷ rest
