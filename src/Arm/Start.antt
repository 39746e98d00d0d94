-- ===== src/Arm/Start.antt =====
-- How a control session starts (crates/franka-node/src/arm/commands.rs).
use Prim.Native.String.{String}
use franka_rs.Common.{ℕ, false, Option, none, some, List, [], ◌∷◌, Result, ok, err}
use franka_rs.Float.{Float, Arr7, elements, zip7}
use franka_rs.Guard.{Guard, new, new_joints, set_holder}
use franka_rs.Guard.Rules.{Reason}
use franka_rs.Arm.Platform.{Platform}
use franka_rs.Arm.Machine.{
  Machine, Why, failed, initial_target, recording_begun, recording_discarded, no_counts, emit,
}
use franka_rs.Arm.Params.{params_reseeded}
use franka_rs.Arm.Publish.{begin_episode, unwrap_or}
use franka_rs.Arm.Session.{Session, cartesian_session, joints_loop, session_kind}

-- `fold(acc, f64::max)`
unfoldable pub largest : (fl : Float) → fl.F → List fl.F → fl.F
largest fl acc [] = acc
largest fl acc (v ∷ vs) = largest fl (fl.fmax acc v) vs

module _ {pf : Platform} where
  open pf use {
    float,
    float.{F, sub, add, abs, fmax, decimal},
    World,
    Handle,
    Fault,
    now,
    monotonic_ns,
    read_once,
    set_collision_behavior,
    stop_handle,
    target_of,
    joint_q,
    joint_position_limits,
    scaled_options,
    max_deviation,
    with_max_deviation,
    dropped_targets,
    LoopOptions,
  }

  -- `joint_options`; HOME_DEVIATION_MARGIN is 0.5.
  unfoldable pub joint_options : Machine pf → F → Option (Arr7 F) → LoopOptions
  unfolding largest
  joint_options m fraction none = scaled_options fraction
  joint_options m fraction (some target) =
      let options = scaled_options fraction in
      let travel =
        largest float (decimal 0 0)
          (elements (zip7 (λ a b. abs (sub a b)) (joint_q m.snapshot) target)) in
      with_max_deviation options (fmax (max_deviation options) (add travel (decimal 5 1)))

  -- The call of `start` or `start_joints`.
  unfoldable pub launch : Session F → Machine pf → Result Fault Handle × World
  unfolding joint_options
  launch cartesian_session m = pf.start m.world
  launch (joints_loop fraction target) m = pf.start_joints (joint_options m fraction target) m.world

  -- The gate over the loop just started, seeded from its target.
  unfoldable pub seed_guard : Session F → Handle → Machine pf → Result (Reason F) (Guard F)
  seed_guard cartesian_session control m =
      new float m.config.guard_options (target_of control m.world)
  seed_guard (joints_loop _ target) control m =
      new_joints float m.config.guard_options joint_position_limits
        (unwrap_or target (target_of control m.world))

  -- `start_loop`: a loop whose initial target is bad is stopped again.
  unfoldable pub start_loop :
      Session F → Machine pf → Result (Why pf) (Handle × Guard F) × Machine pf
  unfolding launch seed_guard
  start_loop session m =
      let (launched, w) = launch session m in
      let m' = record m { world = w } in
      elim launched [
        | err e ↦ (err (failed e), m')
        | ok control ↦ elim (seed_guard session control m') [
          | ok guard ↦ (ok (control, guard), m')
          | err reason ↦
              (err (initial_target reason), record m' { world = (stop_handle control w).1 })
        ]
      ]

  -- `if started.is_err() { self.recording.discard(..) }`
  abbrev pub discard_unless_ok {ℓ} : {A : Type ℓ} → Result (Why pf) A → Machine pf → Machine pf
  discard_unless_ok (ok _) m = m
  discard_unless_ok (err _) m = emit recording_discarded m

  -- The recording opened, the loop started.
  unfoldable pub record_and_start :
      Session F → Option String → Machine pf → Result (Why pf) (Handle × Guard F) × Machine pf
  unfolding start_loop session_kind
  record_and_start session episode m =
      let (started, m') =
        start_loop session (emit (recording_begun (session_kind session) episode) m) in
      (started, discard_unless_ok started m')

  -- `start_session`
  unfoldable pub start_session :
      Session F → Option String → Machine pf → Result (Why pf) (Handle × Guard F) × Machine pf
  unfolding record_and_start
  start_session session episode m =
      let (state, w) = read_once m.world in
      elim state [
        | err e ↦ (err (failed e), record m { world = w })
        | ok snapshot ↦
            let (t, w1) = now w in
            let (set, w2) = set_collision_behavior w1 in
            let m' = record m { world = w2; snapshot = snapshot; read_at = some t } in
            elim set [ err e ↦ (err (failed e), m') | ok _ ↦ record_and_start session episode m' ]
      ]

  -- `begin`
  unfoldable pub begin : Handle → Guard F → ℕ → Option String → Machine pf → Machine pf
  unfolding params_reseeded begin_episode
  begin control guard client episode m =
      let (t, w) = monotonic_ns m.world in
      let m1 = record m {
        world = w;
        guard = some (set_holder float client t guard);
        control = some control;
      } in
      let m2 = begin_episode episode (params_reseeded m1) in
      let (u, w') = now m2.world in
      record m2 {
        world = w';
        counts = no_counts;
        channel_dropped_base = dropped_targets m2.world;
        accepted_seq = 0;
        accepted_t_send = 0;
        last_accept = u;
        last_target = u;
        holding = false;
      }
