-- ===== src/Arm/Backlog/Bound.antt =====
-- The bound on the targets of an arm's channel (crates/franka-node/src/arm/mod.rs).
use franka_rs.Common.{◌+◌, ◌≤◌, ◌≡◌, arith, ltb→lt}
use franka_rs.Arm.Backlog.{
  channel_depth, Channel, Step, reserves, overshoots, undoes, counts, queues, takes, releases,
  Reachable, initial, next, reserve_add, reserve_undo, reserve_count, release,
}

-- `inflight` counts every slot that is taken or about to be given back, and of the slots that
-- are rightly taken there are at most `channel_depth`.
abbrev pub Counted : Channel → Type 0
Counted c =
    (c.backlog.inflight ≡ c.undoing + (c.holding_slot + (c.queued + c.taken)))
    × (c.holding_slot + (c.queued + c.taken) ≤ channel_depth)

Step-Counted : {c d : Channel} → Step c d → Counted c → Counted d
unfolding reserve_add reserve_undo reserve_count release
Step-Counted (reserves c h) v = ground (arith, ltb→lt c.backlog.inflight channel_depth h)
Step-Counted (overshoots c h) v = ground arith
Step-Counted (undoes c n h) v = ground arith
Step-Counted (counts c n h) v = ground arith
Step-Counted (queues c n h) v = ground arith
Step-Counted (takes c n h) v = ground arith
Step-Counted (releases c n h) v = ground arith

-- However the senders and the arm thread interleave, the channel never holds more targets than its
-- depth, and `inflight` is the number of the slots that are taken and of those about to be given
-- back.
pub Reachable-Counted : {c : Channel} → Reachable c → Counted c
Reachable-Counted initial = ground arith
Reachable-Counted (next r s) = Step-Counted s (Reachable-Counted r)
