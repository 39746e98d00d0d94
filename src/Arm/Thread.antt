-- ===== src/Arm/Thread.antt =====
-- The thread of an arm (crates/franka-node/src/arm/machine.rs): `batch` and `run`.
use franka_rs.Common.{
  ℕ, ◌+◌, Bool, true, false, Option, none, some, List, [], ◌∷◌, err, ltb, leb, if◌then◌else◌, min,
  is_some,
}
use franka_rs.Msg.{TargetMsg}
use franka_rs.Arm.Platform.{Platform}
use franka_rs.Arm.Machine.{Machine, text, GripperMsg, replied, emit}
use franka_rs.Arm.Params.{params_query}
use franka_rs.Arm.Publish.{publish_state}
use franka_rs.Arm.Session.{end_session}
use franka_rs.Arm.Gripper.{gripper_target, gripper_kind, GripperKind, width_kind}
use franka_rs.Arm.Loop.{
  Event, target_event, cmd, params_event, gripper_event, shutdown, Flow, continue, halt, handle,
  target, tick, watchdog, watchdog_deadline,
}

-- A batch in progress: the newest target and gripper width, and the machine.
pub record Batch (pf : Platform) : Type 0 where
  pub newest : Option (TargetMsg pf.float.F × ℕ)
  pub newest_width : Option (GripperMsg pf)
  pub machine : Machine pf

-- What `recv_timeout` returns: an event with those queued behind it, or nothing.
pub data Received (pf : Platform) : Type 0 where
  received : Event pf → List (Event pf) → Received pf
  timed_out : Received pf
  disconnected : Received pf

-- The loop's variables, and what is left in the channel when it halts.
pub record Running (pf : Platform) : Type 0 where
  pub flow : Flow
  pub next_tick : ℕ
  pub left : List (Event pf)
  pub machine : Machine pf

abbrev pub is_width : Option GripperKind → Bool
is_width (some width_kind) = true
is_width _ = false

-- `map_or(next_tick, |deadline| deadline.min(next_tick))`
abbrev pub wake_at : Option ℕ → ℕ → ℕ
wake_at none next_tick = next_tick
wake_at (some deadline) next_tick = min deadline next_tick

module _ {pf : Platform} where
  open pf use {now, release_slot}

  -- `self.counts.dropped += 1` where something was replaced
  unfoldable pub count_dropped : Bool → Machine pf → Machine pf
  count_dropped false m = m
  count_dropped true m = record m { counts = record m.counts { dropped = m.counts.dropped + 1 } }

  -- `if let Some(width) = newest_width { self.gripper_target(&width) }`
  unfoldable pub flush_width : Option (GripperMsg pf) → Machine pf → Machine pf
  flush_width none m = m
  flush_width (some width) m = gripper_target width m

  -- One event of a batch, `Shutdown` apart.
  unfoldable pub collect_one : Event pf → Batch pf → Batch pf
  collect_one (target_event msg received_ns) b =
      let m = record b.machine { world = release_slot b.machine.world } in
      record b { newest = some (msg, received_ns); machine = count_dropped (is_some b.newest) m }
  collect_one (gripper_event msg) b =
      if is_width (gripper_kind msg.kind_byte)
      then record b {
        newest_width = some msg;
        machine = count_dropped (is_some b.newest_width) b.machine;
      }
      else record b {
        newest_width = none;
        machine = gripper_target msg (flush_width b.newest_width b.machine);
      }
  collect_one other b = record b { machine = handle other b.machine }

  -- The loop of `batch`, up to the end of the queue or a `Shutdown`, with what stays queued.
  unfoldable pub collect : List (Event pf) → Batch pf → Flow × List (Event pf) × Batch pf
  collect [] b = (continue, [], b)
  collect (shutdown ∷ rest) b = (halt, rest, b)
  collect (event ∷ rest) b = collect rest (collect_one event b)

  unfoldable pub judge_newest : Option (TargetMsg pf.float.F × ℕ) → Machine pf → Machine pf
  judge_newest none m = m
  judge_newest (some (msg, received_ns)) m = target msg received_ns m

  -- Behind the loop: the width, then the target.
  unfoldable pub settle : Batch pf → Machine pf
  settle b = judge_newest b.newest (flush_width b.newest_width b.machine)

  -- A `Shutdown` leaves the width and the target unjudged.
  unfoldable pub by_flow : Flow → Batch pf → Machine pf
  by_flow halt b = b.machine
  by_flow continue b = settle b

  -- `batch`
  unfoldable pub batch :
      Event pf → List (Event pf) → Machine pf → Flow × List (Event pf) × Machine pf
  batch first queued m =
      let (flow, left, b) =
        collect (first ∷ queued) (record { newest = none; newest_width = none; machine = m }) in
      (flow, left, by_flow flow b)

  unfoldable pub receive : Received pf → ℕ → Machine pf → Running pf
  receive (received first queued) next_tick m =
      let (flow, left, m') = batch first queued m in
      record { flow = flow; next_tick = next_tick; left = left; machine = m' }
  receive timed_out next_tick m = record {
    flow = continue;
    next_tick = next_tick;
    left = [];
    machine = m;
  }
  receive disconnected next_tick m = record {
    flow = halt;
    next_tick = next_tick;
    left = [];
    machine = m;
  }

  -- One round of the loop of `run`; `input` is read only where the round waits on the channel.
  unfoldable pub round : Received pf → ℕ → Machine pf → Running pf
  round input next_tick m =
      let (t, w) = now m.world in
      let m' = record m { world = w } in
      let period = m.config.period in
      if leb next_tick t
      then record {
        flow = continue;
        next_tick = if ltb t (next_tick + period) then next_tick + period else t + period;
        left = [];
        machine = tick m';
      }
      else if leb (wake_at (watchdog_deadline m') next_tick) t
      then record { flow = continue; next_tick = next_tick; left = []; machine = watchdog m' }
      else receive input next_tick m'

  -- The rounds, over what the channel gives in each, until one halts.
  unfoldable pub rounds : List (Received pf) → Running pf → Running pf
  rounds [] r = r
  rounds (input ∷ inputs) r =
      let next = rounds inputs (round input r.next_tick r.machine) in
      elim r.flow [ halt ↦ r | continue ↦ next ]

  -- An event that is still queued when the thread ends.
  unfoldable pub drain_one : Event pf → Machine pf → Machine pf
  drain_one (target_event _ _) m = record m { world = release_slot m.world }
  drain_one (cmd _ _ reply) m = emit (replied reply (err (text "shutting down"))) m
  drain_one (params_event verb payload reply) m = params_query verb payload reply m
  drain_one _ m = m

  unfoldable pub drain : List (Event pf) → Machine pf → Machine pf
  drain [] m = m
  drain (event ∷ rest) m = drain rest (drain_one event m)

  -- The end of `run`.
  unfoldable pub finish_run : Running pf → Machine pf
  finish_run r = publish_state (drain r.left (end_session (err (text "shutting down")) r.machine).1)

  -- `run`, from the first tick's time on
  unfoldable pub run : List (Received pf) → Machine pf → Machine pf
  run inputs m =
      let (next_tick, w) = now m.world in
      finish_run (
        rounds inputs (record {
          flow = continue;
          next_tick = next_tick;
          left = [];
          machine = record m { world = w };
        }))
