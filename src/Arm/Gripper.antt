-- ===== src/Arm/Gripper.antt =====
-- The gripper of an arm (crates/franka-node/src/arm/gripper.rs) as the arm thread drives it.
use franka_rs.Common.{
  ℕ, ◌+◌, true, false, not, ◌&&◌, ◌||◌, Option, none, some, Result, ok, err, ◌>>=◌, ◌>>◌, refuse_if,
  leb, ◌==◌, if◌then◌else◌,
}
use franka_rs.Guard.Rules.{not_holder, old_seq}
use franka_rs.Arm.Platform.{Platform}
use franka_rs.Arm.Machine.{
  Machine, Why, text, reason, width_beyond, unknown_gripper_kind, Outcome, GripperMsg, GripperSide,
  replied, gripper_width, gripper_grasp, gripper_home_started, gripper_home_lost, Output, emit,
}

-- `GripperKind` and `GripperKind::from_u8`
pub data GripperKind : Type 0 where
  width_kind grasp_kind : GripperKind

unfoldable pub gripper_kind : ℕ → Option GripperKind
gripper_kind v = if v == 1 then some width_kind else if v == 2 then some grasp_kind else none

-- The sequence check against the last accepted (client, seq).
unfoldable pub judge_last : {pf : Platform} → Option (ℕ × ℕ) → ℕ → ℕ → Outcome pf
judge_last none client seq = ok tt
judge_last (some (last_client, last)) client seq =
    refuse_if (last_client == client && leb seq last) (reason (old_seq last seq))

module _ {pf : Platform} where
  open pf use {float, float.{F, flt, fle, is_finite, decimal}, max_width, can_spawn}

  -- `x.is_finite() && x >= 0.0`
  unfoldable pub judge_width : Machine pf → F → Outcome pf
  judge_width m width = do
    refuse_if (not (is_finite width && fle (decimal 0 0) width))
        (text "width must be finite and non-negative")
    let limit = max_width m.world
    refuse_if (flt (decimal 0 0) limit && flt limit width) (width_beyond width limit)

  -- What the driver is asked for, by the message's kind.
  unfoldable pub drive : GripperMsg pf → Result (Why pf) (Output pf)
  unfolding gripper_kind
  drive msg = elim (gripper_kind msg.kind_byte) [
    | none ↦ err (unknown_gripper_kind msg.kind_byte)
    | some width_kind ↦ ok (gripper_width msg.width)
    | some grasp_kind ↦
        refuse_if (not (is_finite msg.force && fle (decimal 0 0) msg.force))
          (text "force must be finite and non-negative")
        >>= λ _. ok (gripper_grasp msg.width msg.force)
  ]

  -- `GripperSide::target`, up to the call of the driver
  unfoldable pub judge_gripper :
      GripperSide → GripperMsg pf → Machine pf → Result (Why pf) (Output pf)
  unfolding judge_last judge_width drive
  judge_gripper g msg m =
      refuse_if (msg.client_id == 0 || not (msg.client_id == m.holder))
        (reason (not_holder msg.client_id))
      >> judge_last g.last msg.client_id msg.seq
      >> judge_width m msg.width
      >> drive msg

  -- `self.counts.refused += 1`
  unfoldable pub count_refused : Machine pf → Machine pf
  count_refused m = record m { counts = record m.counts { refused = m.counts.refused + 1 } }

  unfoldable pub on_judged :
      Result (Why pf) (Output pf) → GripperSide → GripperMsg pf → Machine pf → Machine pf
  unfolding count_refused
  on_judged (err _) g msg m = count_refused m
  on_judged (ok call) g msg m =
      emit call (record m { gripper = some (record g { last = some (msg.client_id, msg.seq) }) })

  unfoldable pub gripper_with : Option GripperSide → GripperMsg pf → Machine pf → Machine pf
  unfolding count_refused
  gripper_with none msg m = count_refused m
  gripper_with (some g) msg m = on_judged (judge_gripper g msg m) g msg m

  -- `Machine::gripper_target`: a refusal, or a missing gripper, counts as refused.
  unfoldable pub gripper_target : GripperMsg pf → Machine pf → Machine pf
  unfolding gripper_with on_judged
  gripper_target msg m = gripper_with m.gripper msg m

  -- `GripperSide::home`: one at a time; its thread answers the query, if it can be spawned.
  unfoldable pub gripper_home : GripperSide → ℕ → Machine pf → Machine pf
  gripper_home g reply m =
      if g.home_running
      then emit (replied reply (err (text "gripper homing"))) m
      else if can_spawn m.world
      then emit (gripper_home_started reply)
          (record m { gripper = some (record g { home_running = true }) })
      else emit (gripper_home_lost reply)
          (record m { gripper = some (record g { home_running = false }) })

  -- The end of the home thread, at any time between two events of the arm thread.
  unfoldable pub gripper_homed : Outcome pf → ℕ → Machine pf → Machine pf
  gripper_homed outcome reply m = elim m.gripper [
    | none ↦ m
    | some g ↦
        emit (replied reply outcome)
          (record m { gripper = some (record g { home_running = false }) })
  ]
