-- ===== src/Arm/Backlog.antt =====
-- The backlog of an arm's channel (crates/franka-node/src/arm/mod.rs, `Backlog` and
-- `ArmSender::send`), as atomic steps of any number of senders and of the arm thread.
pub mod Bound
use franka_rs.Common.{ℕ, suc, ◌+◌, ◌-◌, Bool, true, false, ◌≡◌, ltb}

-- `CHANNEL_DEPTH`
abbrev pub channel_depth : ℕ
channel_depth = 64

-- `Backlog`
pub record Backlog : Type 0 where
  pub inflight : ℕ
  pub dropped : ℕ

-- The first atomic operation of `reserve`, with whether the slot is taken.
unfoldable pub reserve_add : Backlog → Bool × Backlog
reserve_add b = (ltb b.inflight channel_depth, record b { inflight = b.inflight + 1 })

-- Those of a sender that found no slot.
unfoldable pub reserve_undo : Backlog → Backlog
reserve_undo b = record b { inflight = b.inflight - 1 }

unfoldable pub reserve_count : Backlog → Backlog
reserve_count b = record b { dropped = b.dropped + 1 }

-- `release`
unfoldable pub release : Backlog → Backlog
release b = record b { inflight = b.inflight - 1 }

-- The backlog, the targets in the channel, and how many senders or targets are between two steps:
-- senders with a slot that have not queued yet, senders without one that have not given it back or
-- not counted yet, and targets taken out of the channel that are not released yet.
pub record Channel : Type 0 where
  pub backlog : Backlog
  pub queued : ℕ
  pub holding_slot : ℕ
  pub undoing : ℕ
  pub counting : ℕ
  pub taken : ℕ

abbrev pub empty_channel : Channel
empty_channel = record {
  backlog = record { inflight = 0; dropped = 0 };
  queued = 0;
  holding_slot = 0;
  undoing = 0;
  counting = 0;
  taken = 0;
}

-- One atomic step of one of the threads.
pub data Step : Channel → Channel → Type 0 where
  reserves :
      (c : Channel)
      → (reserve_add c.backlog).0 ≡ true
      → Step c (record c { backlog = (reserve_add c.backlog).1; holding_slot = suc c.holding_slot })
  overshoots :
      (c : Channel)
      → (reserve_add c.backlog).0 ≡ false
      → Step c (record c { backlog = (reserve_add c.backlog).1; undoing = suc c.undoing })
  undoes :
      (c : Channel) (n : ℕ)
      → c.undoing ≡ suc n
      → Step c
          (record c { backlog = reserve_undo c.backlog; undoing = n; counting = suc c.counting })
  counts :
      (c : Channel) (n : ℕ)
      → c.counting ≡ suc n
      → Step c (record c { backlog = reserve_count c.backlog; counting = n })
  queues :
      (c : Channel) (n : ℕ)
      → c.holding_slot ≡ suc n
      → Step c (record c { holding_slot = n; queued = suc c.queued })
  takes :
      (c : Channel) (n : ℕ)
      → c.queued ≡ suc n
      → Step c (record c { queued = n; taken = suc c.taken })
  releases :
      (c : Channel) (n : ℕ)
      → c.taken ≡ suc n
      → Step c (record c { backlog = release c.backlog; taken = n })

-- What the threads reach from an empty channel, in any interleaving.
pub data Reachable : Channel → Type 0 where
  initial : Reachable empty_channel
  next : {c d : Channel} → Reachable c → Step c d → Reachable d
