-- ===== src/Arm/Loop.antt =====
-- The loop of the arm thread (crates/franka-node/src/arm/machine.rs): targets, ticks, the watchdog,
-- batches of events, and the thread's run.
use franka_rs.Common.{
  ℕ, ◌+◌, ◌-◌, ◌/◌, Bool, true, false, not, ◌&&◌, ◌||◌, Option, none, some, List, [], ◌∷◌, ok, err,
  Result, leb, if◌then◌else◌, min, max,
}
use franka_rs.Float.{Arr7, elements, zip7}
use franka_rs.Guard.{Guard, Verdict, accept, refuse, kind, check}
use franka_rs.Guard.Rules.{from_the_commander}
use franka_rs.Msg.{cartesian, same_kind, Phase, active, homing, TargetMsg, CmdRequest}
use franka_rs.Arm.Platform.{Platform}
use franka_rs.Arm.Pose.{pose_target}
use franka_rs.Arm.Machine.{
  Machine, text, reason, failed, Homing, GripperMsg, recorded_accepted, published_gripper, emit,
  insert,
}
use franka_rs.Arm.Params.{ParamsVerb, SetRequest, params_query, publish_params_if_due}
use franka_rs.Arm.Publish.{publish_state, refuse_target}
use franka_rs.Arm.Session.{fault, stop, finish_home}
use franka_rs.Arm.Gripper.{gripper_target}
use franka_rs.Arm.Commands.{Verb, command, lease_lost, ready}

-- `Event`; a reply is the number of its query, a payload is decoded.
pub data Event (pf : Platform) : Type 0 where
  target_event : TargetMsg pf.float.F → ℕ → Event pf
  cmd : Verb → CmdRequest pf.float.F → ℕ → Event pf
  params_event : ParamsVerb → Result (Unit {0}) (SetRequest pf) → ℕ → Event pf
  gripper_event : GripperMsg pf → Event pf
  lease_alive : ℕ → Event pf
  lease_gone : ℕ → Event pf
  shutdown : Event pf

pub data Flow : Type 0 where
  continue halt : Flow

-- `IDLE_READ_PERIOD`, `HOME_SETTLE_TICKS`, `HOME_TIMEOUT` and `GRIPPER_STATE_HZ`; times in ns
abbrev pub idle_read_period : ℕ
idle_read_period = 1_000_000_000

abbrev pub home_settle_ticks : ℕ
home_settle_ticks = 10

abbrev pub home_timeout : ℕ
home_timeout = 60_000_000_000

abbrev pub gripper_state_hz : ℕ
gripper_state_hz = 20

-- `iter().all(..)`
unfoldable pub all_of : {A : Type 0} → (A → Bool) → List A → Bool
all_of p [] = true
all_of p (a ∷ l) = p a && all_of p l

module _ {pf : Platform} where
  open pf use {
    float,
    float.{F, sub, abs, flt, fle, decimal},
    Handle,
    Fault,
    now,
    set_target,
    state_of,
    is_running,
    read_once,
    pose,
    joint_q,
    joint_dq,
    release_slot,
  }

  -- An accepted target: the control took it.
  unfoldable pub note_accepted : TargetMsg F → Machine pf → Machine pf
  note_accepted msg m =
      let (t, w) = now m.world in
      emit (recorded_accepted msg) (record m {
        world = w;
        counts = record m.counts { accepted = m.counts.accepted + 1 };
        accepted_seq = msg.seq;
        accepted_t_send = msg.t_send_ns;
        last_accept = t;
        last_target = t;
        holding = false;
      })

  -- The target watchdog's sign of life of a refused target.
  unfoldable pub note_alive : Bool → Machine pf → Machine pf
  note_alive false m = m
  note_alive true m = let (t, w) = now m.world in record m { world = w; last_target = t }

  -- What `set_target` said of an accepted target
  unfoldable pub on_taken : Result Fault (Unit {0}) → TargetMsg F → Machine pf → Machine pf
  on_taken (ok _) msg m = note_accepted msg m
  on_taken (err e) msg m = fault (failed e) m

  unfoldable pub on_verdict : Verdict F → TargetMsg F → Handle → Machine pf → Machine pf
  on_verdict accept msg control m =
      let (taken, w) = set_target control msg.payload m.world in
      on_taken taken msg (record m { world = w })
  on_verdict (refuse why) msg control m =
      refuse_target msg (reason why) (note_alive (from_the_commander why) m)

  -- The reference of the lead check: the measured pose, in a Cartesian session
  unfoldable pub reference_of : Guard F → Machine pf → Option (Arr7 F)
  reference_of g m =
      if same_kind (kind g) cartesian then some (pose_target float (pose m.snapshot)) else none

  -- A target while Active, with the gate and the handle of the session
  unfoldable pub judge_target : TargetMsg F → ℕ → Guard F → Handle → Machine pf → Machine pf
  judge_target msg received_ns g control m =
      let (g', verdict) = check float g msg received_ns (reference_of g m) in
      on_verdict verdict msg control (record m { guard = some g' })

  -- `self.guard.as_mut().zip(self.control.as_ref())`
  unfoldable pub target_with :
      Option (Guard F) → Option Handle → TargetMsg F → ℕ → Machine pf → Machine pf
  target_with (some g) (some control) msg received_ns m = judge_target msg received_ns g control m
  target_with (some g) none msg received_ns m = fault (text "no control handle") m
  target_with none _ msg received_ns m = fault (text "no control handle") m

  unfoldable pub target_active : TargetMsg F → ℕ → Machine pf → Machine pf
  target_active msg received_ns m = target_with m.guard m.control msg received_ns m

  abbrev pub target_in : Phase → TargetMsg F → ℕ → Machine pf → Machine pf
  target_in active msg received_ns m = target_active msg received_ns m
  target_in homing msg received_ns m = refuse_target msg (text "homing") m
  target_in _ msg received_ns m = refuse_target msg (text "not active") m

  -- `target`
  unfoldable pub target : TargetMsg F → ℕ → Machine pf → Machine pf
  target msg received_ns m = target_in m.phase msg received_ns m

  unfoldable pub refresh_with : Option Handle → Machine pf → Bool × Machine pf
  refresh_with none m = (false, fault (text "the control loop ended") m)
  refresh_with (some control) m =
      if is_running control m.world
      then (true, record m { snapshot = state_of control m.world })
      else (false, fault (text "the control loop ended") m)

  -- `refresh_from_control`
  unfoldable pub refresh_from_control : Machine pf → Bool × Machine pf
  refresh_from_control m = refresh_with m.control m

  -- `watchdog`: each `elapsed` reads the clock.
  unfoldable pub watchdog : Machine pf → Machine pf
  watchdog m =
      let (t, w) = now m.world in
      let m1 = record m { world = w } in
      if leb m.config.stop_after (t - m.last_target)
      then (stop m1).1
      else if m.holding
      then m1
      else let (u, w') = now w in
        let m2 = record m1 { world = w' } in
        if leb m.config.hold_after (u - m.last_accept) then record m2 { holding = true } else m2

  abbrev pub deadline_in : Phase → Machine pf → Option ℕ
  deadline_in active m =
      let stop_at = m.last_target + m.config.stop_after in
      some (if m.holding then stop_at else min (m.last_accept + m.config.hold_after) stop_at)
  deadline_in _ m = none

  -- `watchdog_deadline`
  unfoldable pub watchdog_deadline : Machine pf → Option ℕ
  watchdog_deadline m = deadline_in m.phase m

  -- `tick_active`
  unfoldable pub tick_active : Machine pf → Machine pf
  tick_active m = let (running, m') = refresh_from_control m in if running then watchdog m' else m'

  -- Every joint within HOME_TOLERANCE (0.02) of READY; every joint slower than
  -- REST_JOINT_VELOCITY (0.01).
  unfoldable pub near_ready : Machine pf → Bool
  unfolding all_of ready
  near_ready m =
      all_of (λ v. fle v (decimal 2 2))
        (elements (zip7 (λ a b. abs (sub a b)) (joint_q m.snapshot) (ready float)))

  unfoldable pub at_rest : Machine pf → Bool
  unfolding all_of
  at_rest m = all_of (λ v. flt (abs v) (decimal 1 2)) (elements (joint_dq m.snapshot))

  -- The arrival check on the query of the running home.
  unfoldable pub check_arrival : Homing → Machine pf → Machine pf
  check_arrival h m =
      let within = if near_ready m then h.within + 1 else 0 in
      let arrived = near_ready m && (at_rest m || leb home_settle_ticks within) in
      let (t, w) = now m.world in
      let m1 = record m { world = w; homing = some (record h { within = within }) } in
      if arrived
      then (finish_home (ok tt) m1).1
      else if leb home_timeout (t - h.started)
      then (finish_home (err (text "home timed out")) m1).1
      else m1

  unfoldable pub check_query : Option Homing → Machine pf → Machine pf
  check_query none m = (finish_home (err (text "no query")) m).1
  check_query (some h) m = check_arrival h m

  -- `tick_homing`
  unfoldable pub tick_homing : Machine pf → Machine pf
  tick_homing m =
      let (running, m') = refresh_from_control m in
      if not running then m' else check_query m'.homing m'

  -- The snapshot is read again.
  unfoldable pub reread : Machine pf → Machine pf
  reread m =
      let (state, w) = read_once m.world in
      let (t, w') = now w in
      let m' = record m { world = w'; read_at = some t } in
      elim state [ ok snapshot ↦ record m' { snapshot = snapshot } | err _ ↦ m' ]

  -- Again once a period: `self.read_at.is_none_or(|t| t.elapsed() >= IDLE_READ_PERIOD)`
  unfoldable pub reread_since : Option ℕ → Machine pf → Machine pf
  reread_since none m = reread m
  reread_since (some at) m =
      let (t, w) = now m.world in
      let m' = record m { world = w } in if leb idle_read_period (t - at) then reread m' else m'

  -- A tick without a session
  unfoldable pub tick_idle : Machine pf → Machine pf
  tick_idle m = reread_since m.read_at m

  abbrev pub tick_in : Phase → Machine pf → Machine pf
  tick_in active m = tick_active m
  tick_in homing m = tick_homing m
  tick_in _ m = tick_idle m

  -- The gripper's state, every `state_hz / 20`th tick.
  unfoldable pub tick_gripper : Machine pf → Machine pf
  tick_gripper m =
      let ticks = m.gripper_ticks + 1 in
      if leb (max (m.config.state_hz / gripper_state_hz) 1) ticks
      then elim m.gripper [
        | none ↦ record m { gripper_ticks = 0 }
        | some _ ↦ emit (published_gripper m.holder) (record m { gripper_ticks = 0 })
      ]
      else record m { gripper_ticks = ticks }

  -- `tick`
  unfoldable pub tick : Machine pf → Machine pf
  tick m = tick_gripper (publish_params_if_due (publish_state (tick_in m.phase m)))

  -- `handle`
  unfoldable pub handle : Event pf → Machine pf → Machine pf
  handle (target_event msg received_ns) m = target msg received_ns m
  handle (cmd verb request reply) m = command verb request reply m
  handle (params_event verb payload reply) m = params_query verb payload reply m
  handle (gripper_event msg) m = gripper_target msg m
  handle (lease_alive client) m = record m { alive = insert client m.alive }
  handle (lease_gone client) m = lease_lost client m
  handle shutdown m = m
