-- ===== src/Arm/Publish.antt =====
-- What the arm thread publishes (crates/franka-node/src/arm/machine.rs): the state, the episodes,
-- and the change of phase.
use Prim.Native.String.{String}
use franka_rs.Common.{ℕ, ◌+◌, ◌-◌, Bool, false, Option, none, some, if◌then◌else◌}
use franka_rs.Float.{Arr7}
use franka_rs.Guard.{Guard, kind}
use franka_rs.Msg.{joints, same_kind, Phase, phase_code, TargetMsg}
use franka_rs.Arm.Platform.{Platform}
use franka_rs.Arm.Pose.{pose_target}
use franka_rs.Arm.Machine.{
  Machine, Why, EpisodeMsg, start, end, StateMsg, published_state, published_episode,
  recorded_refused, emit,
}

-- `FLAG_HOLDING` and `FLAG_JOINTS`
abbrev pub flag_holding : ℕ
flag_holding = 1

abbrev pub flag_joints : ℕ
flag_joints = 2

abbrev pub or_else {ℓ} : {A : Type ℓ} → Option A → Option A → Option A
or_else none o = o
or_else (some a) o = some a

abbrev pub unwrap_or {ℓ} : {A : Type ℓ} → Option A → A → A
unwrap_or none d = d
unwrap_or (some a) d = a

abbrev pub is_joints : {F : Type 0} → Option (Guard F) → Bool
is_joints none = false
is_joints (some g) = same_kind (kind g) joints

module _ {pf : Platform} where
  open pf use {now, monotonic_ns, dropped_targets, pose, float}

  -- `transition`; the log line is left out.
  abbrev pub transition : Phase → Machine pf → Machine pf
  transition to m = record m { phase = to }

  -- `joints_session`
  unfoldable pub joints_session : Machine pf → Bool
  joints_session m = is_joints m.guard

  -- The published target: the gate's last one, or the snapshot's pose without a session.
  unfoldable pub shown_target : Machine pf → Arr7 float.F
  shown_target m = elim m.guard [ some g ↦ g.previous | none ↦ pose_target float (pose m.snapshot) ]

  -- `encode`, at the time `t`. The two flags are different bits, so `|=` is a sum.
  unfoldable pub encode : ℕ → Machine pf → StateMsg pf
  unfolding shown_target joints_session phase_code
  encode t m = record {
    phase_byte = phase_code m.phase;
    flags = (if m.holding then flag_holding else 0) + (if joints_session m then flag_joints else 0);
    client_id = m.holder;
    seq_accepted = m.accepted_seq;
    t_send_ns_accepted = m.accepted_t_send;
    t_node_ns = t;
    snapshot = m.snapshot;
    target = shown_target m;
    accepted = m.counts.accepted;
    refused = m.counts.refused;
    dropped = m.counts.dropped + (dropped_targets m.world - m.channel_dropped_base);
  }

  -- `publish_state`
  unfoldable pub publish_state : Machine pf → Machine pf
  publish_state m =
      let (t, w) = monotonic_ns m.world in
      emit (published_state (encode t m)) (record m { world = w })

  -- `begin_episode`
  unfoldable pub begin_episode : Option String → Machine pf → Machine pf
  begin_episode token m =
      let (t, w) = monotonic_ns m.world in
      let msg : EpisodeMsg = record {
        recording_id = unwrap_or (or_else (pf.recording_id m.world) token) (pf.session_id m.world);
        file = pf.recording_file m.world;
        t_node_ns = t;
        when = start;
      } in
      emit (published_episode msg) (record m { world = w; episode = some msg })

  -- `end_episode`
  unfoldable pub end_episode : Machine pf → Machine pf
  end_episode m = elim m.episode [
    | none ↦ m
    | some msg ↦
        let (t, w) = monotonic_ns m.world in
        emit (published_episode (record msg { t_node_ns = t; when = end }))
          (record m { world = w; episode = none })
  ]

  -- `refuse`
  unfoldable pub refuse_target : TargetMsg float.F → Why pf → Machine pf → Machine pf
  refuse_target msg why m =
      emit (recorded_refused msg why)
        (record m { counts = record m.counts { refused = m.counts.refused + 1 } })
