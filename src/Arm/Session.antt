-- ===== src/Arm/Session.antt =====
-- How a control session ends and starts (crates/franka-node/src/arm/commands.rs).
use franka_rs.Common.{false, Option, none, some, ok, err, if◌then◌else◌}
use franka_rs.Float.{Float, Arr7}
use franka_rs.Guard.{Guard, inside_joint_limits}
use franka_rs.Msg.{
  Kind, cartesian, joints, Phase, idle, acquired, active, stopping, faulted, homing,
}
use franka_rs.Arm.Platform.{Platform}
use franka_rs.Arm.Machine.{Machine, Why, text, failed, Outcome, replied, recording_finished, emit}
use franka_rs.Arm.Params.{params_reseeded}
use franka_rs.Arm.Publish.{transition, joints_session, publish_state, end_episode}

-- `Session`: with the Cartesian loop, or a joints loop at a fraction of the limits and its target
pub data Session (F : Type 0) : Type 0 where
  cartesian_session : Session F
  joints_loop : F → Option (Arr7 F) → Session F

unfoldable pub session_kind : {F : Type 0} → Session F → Kind
session_kind cartesian_session = cartesian
session_kind (joints_loop _ _) = joints

-- The reply of a query that a session's end answers: the stop's error first, then the outcome.
abbrev pub home_answer : {pf : Platform} → Outcome pf → Outcome pf → Outcome pf
home_answer (ok _) outcome = outcome
home_answer (err e) outcome = err e

-- `guard.map_or(q, |guard| guard.inside_joint_limits(q))`
abbrev pub clamped_by : (fl : Float) → Option (Guard fl.F) → Arr7 fl.F → Arr7 fl.F
clamped_by fl none q = q
clamped_by fl (some g) q = inside_joint_limits fl g q

module _ {pf : Platform} where
  open pf use {float.{F}, float, stop_handle, set_target, state_of, joint_q}

  -- A home query that still waits is answered with `why`.
  unfoldable pub answer_home : Outcome pf → Machine pf → Machine pf
  answer_home answer m = elim m.homing [
    | none ↦ m
    | some h ↦ emit (replied h.reply answer) (record m { homing = none })
  ]

  -- `after_loop`
  unfoldable pub after_loop : Phase → Why pf → Machine pf → Machine pf
  unfolding end_episode params_reseeded answer_home
  after_loop to why m =
      let m1 = end_episode (emit recording_finished m) in
      let m2 = transition to (record m1 { read_at = none; holding = false; guard = none }) in
      answer_home (err why) (params_reseeded m2)

  -- `stop_to`
  unfoldable pub stop_to : Phase → Machine pf → Outcome pf × Machine pf
  stop_to landing m = elim m.control [
    | none ↦ (ok tt, m)
    | some control ↦
        let m1 = publish_state (transition stopping (record m { control = none })) in
        let (stopped, w) = stop_handle control m1.world in
        let m2 = record m1 { world = w } in
        elim stopped [
          | ok _ ↦ (ok tt, after_loop landing (text "stopped") m2)
          | err e ↦ (err (failed e), after_loop faulted (failed e) m2)
        ]
  ]

  -- `fault`
  unfoldable pub fault : Why pf → Machine pf → Machine pf
  fault why m = elim m.control [
    | none ↦ after_loop faulted why m
    | some control ↦
        let (stopped, w) = stop_handle control m.world in
        let m' = record m { control = none; world = w } in
        elim stopped [ ok _ ↦ after_loop faulted why m' | err e ↦ after_loop faulted (failed e) m' ]
  ]

  -- `hold_in_place`; a refused target is only logged.
  unfoldable pub hold_in_place : Machine pf → Machine pf
  hold_in_place m = elim m.control [
    | none ↦ m
    | some control ↦
        let q = clamped_by float m.guard (joint_q (state_of control m.world)) in
        record m { world = (set_target control q m.world).1 }
  ]

  -- `if outcome.is_err() { self.hold_in_place() }`
  abbrev pub hold_unless_ok : Outcome pf → Machine pf → Machine pf
  hold_unless_ok (ok _) m = m
  hold_unless_ok (err _) m = hold_in_place m

  -- `finish_home`
  unfoldable pub finish_home : Outcome pf → Machine pf → Outcome pf × Machine pf
  finish_home outcome m =
      let m1 = hold_unless_ok outcome (record m { homing = none }) in
      let (stopped, m2) = stop_to acquired m1 in
      elim m.homing [
        | none ↦ (stopped, m2)
        | some h ↦ (stopped, emit (replied h.reply (home_answer stopped outcome)) m2)
      ]

  -- `stop`
  unfoldable pub stop : Machine pf → Outcome pf × Machine pf
  stop m = stop_to idle (if joints_session m then hold_in_place m else m)

  abbrev pub end_by : Phase → Outcome pf → Machine pf → Outcome pf × Machine pf
  end_by active outcome m = stop m
  end_by homing outcome m = finish_home outcome m
  end_by _ outcome m = (ok tt, m)

  -- `end_session`
  unfoldable pub end_session : Outcome pf → Machine pf → Outcome pf × Machine pf
  end_session outcome m = end_by m.phase outcome m
