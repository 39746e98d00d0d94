-- ===== src/Arm/Safety/Reachable.antt =====
-- Every run of an arm's thread keeps the invariant (crates/franka-node/src/arm/machine.rs).
use franka_rs.Common.{
  ℕ, ◌≡◌, ◌≢◌, Bool, true, false, if_intro, none, some, List, [], ◌∷◌, is_some, arith, leb, All,
}
use franka_rs.Msg.{active}
use franka_rs.Arm.Platform.{Platform}
use franka_rs.Arm.Machine.{Machine, insert}
use franka_rs.Arm.Gripper.{gripper_kind}
use franka_rs.Arm.Loop.{
  Event, target_event, cmd, params_event, gripper_event, lease_alive, lease_gone, shutdown, Flow,
  continue, halt, handle, watchdog_deadline,
}
use franka_rs.Arm.Thread.{
  Batch, Received, received, timed_out, disconnected, Running, is_width, wake_at, collect_one,
  collect, judge_newest, flush_width, count_dropped, settle, by_flow, batch, receive, round,
}
use franka_rs.Arm.Safety.Invariant.{IsWell}
use franka_rs.Arm.Safety.Starting.{params_query-Quiet}
use franka_rs.Arm.Safety.Keeping.{Quiet-IsWell, command-IsWell, lease_lost-IsWell, contains-insert}
use franka_rs.Arm.Safety.Running.{
  target-IsWell, gripper_target-IsWell, watchdog-IsWell, tick-IsWell,
}

-- What the transport sends: no lease is for client 0.
abbrev pub Lawful : {pf : Platform} → Event pf → Type 0
Lawful (lease_alive client) = client ≢ 0
Lawful _ = Unit {0}

abbrev pub LawfulInput : {pf : Platform} → Received pf → Type 0
LawfulInput (received first queued) = Lawful first × All Lawful queued
LawfulInput timed_out = Unit {0}
LawfulInput disconnected = Unit {0}

module _ {pf : Platform} where
  lease_alive-IsWell :
      (c : ℕ) (m : Machine pf) → c ≢ 0 → IsWell m → IsWell (record m { alive = insert c m.alive })
  lease_alive-IsWell c m n v = ground (arith, contains-insert 0 c m.alive)

  -- Every event, but for a lease of client 0, keeps the invariant.
  pub handle-IsWell : (e : Event pf) (m : Machine pf) → Lawful e → IsWell m → IsWell (handle e m)
  unfolding handle
  handle-IsWell (target_event msg t) m l v = target-IsWell msg t m v
  handle-IsWell (cmd verb r reply) m l v = command-IsWell verb r reply m v
  handle-IsWell (params_event verb p reply) m l v =
      Quiet-IsWell (params_query-Quiet verb p reply m) v
  handle-IsWell (gripper_event msg) m l v = gripper_target-IsWell msg m v
  handle-IsWell (lease_alive c) m l v = lease_alive-IsWell c m l v
  handle-IsWell (lease_gone c) m l v = lease_lost-IsWell c m v
  handle-IsWell shutdown m l v = v

  count_dropped-IsWell : (b : Bool) (m : Machine pf) → IsWell m → IsWell (count_dropped b m)
  unfolding count_dropped
  count_dropped-IsWell true m v = ground arith
  count_dropped-IsWell false m v = v

  pub world-IsWell : (w : pf.World) (m : Machine pf) → IsWell m → IsWell (record m { world = w })
  world-IsWell w m v = ground arith

  flush_width-IsWell : (g : _) (m : Machine pf) → IsWell m → IsWell (flush_width g m)
  unfolding flush_width
  flush_width-IsWell none m v = v
  flush_width-IsWell (some g) m v = gripper_target-IsWell g m v

  abbrev WellBatch : Batch pf → Type 0
  WellBatch b = IsWell b.machine

  collect_one-IsWell :
      (e : Event pf) (b : Batch pf) → Lawful e → WellBatch b → WellBatch (collect_one e b)
  unfolding collect_one
  collect_one-IsWell (target_event msg t) b l v =
      count_dropped-IsWell (is_some b.newest) _ (world-IsWell _ b.machine v)
  collect_one-IsWell (gripper_event msg) b l v =
      if_intro WellBatch (is_width (gripper_kind msg.kind_byte))
        (λ _. count_dropped-IsWell (is_some b.newest_width) b.machine v)
        (λ _. gripper_target-IsWell msg _ (flush_width-IsWell b.newest_width b.machine v))
  collect_one-IsWell (cmd verb r reply) b l v = handle-IsWell (cmd verb r reply) b.machine l v
  collect_one-IsWell (params_event verb p reply) b l v =
      handle-IsWell (params_event verb p reply) b.machine l v
  collect_one-IsWell (lease_alive c) b l v = handle-IsWell (lease_alive c) b.machine l v
  collect_one-IsWell (lease_gone c) b l v = handle-IsWell (lease_gone c) b.machine l v
  collect_one-IsWell shutdown b l v = handle-IsWell shutdown b.machine l v

  collect-IsWell :
      (es : List (Event pf)) (b : Batch pf)
      → All Lawful es
      → WellBatch b
      → WellBatch (collect es b).2 × All Lawful (collect es b).1
  unfolding collect
  collect-IsWell [] b l v = (v, tt)
  collect-IsWell (shutdown ∷ es) b l v = (v, l.1)
  collect-IsWell (target_event x y ∷ es) b l v =
      collect-IsWell es _ l.1 (collect_one-IsWell (target_event x y) b l.0 v)
  collect-IsWell (cmd x y z ∷ es) b l v =
      collect-IsWell es _ l.1 (collect_one-IsWell (cmd x y z) b l.0 v)
  collect-IsWell (params_event x y z ∷ es) b l v =
      collect-IsWell es _ l.1 (collect_one-IsWell (params_event x y z) b l.0 v)
  collect-IsWell (gripper_event x ∷ es) b l v =
      collect-IsWell es _ l.1 (collect_one-IsWell (gripper_event x) b l.0 v)
  collect-IsWell (lease_alive x ∷ es) b l v =
      collect-IsWell es _ l.1 (collect_one-IsWell (lease_alive x) b l.0 v)
  collect-IsWell (lease_gone x ∷ es) b l v =
      collect-IsWell es _ l.1 (collect_one-IsWell (lease_gone x) b l.0 v)

  judge_newest-IsWell : (n : _) (m : Machine pf) → IsWell m → IsWell (judge_newest n m)
  unfolding judge_newest
  judge_newest-IsWell none m v = v
  judge_newest-IsWell (some (msg, t)) m v = target-IsWell msg t m v

  by_flow-IsWell : (f : Flow) (b : Batch pf) → WellBatch b → IsWell (by_flow f b)
  unfolding by_flow settle
  by_flow-IsWell halt b v = v
  by_flow-IsWell continue b v =
      judge_newest-IsWell b.newest _ (flush_width-IsWell b.newest_width b.machine v)

  abbrev pub WellRunning : Running pf → Type 0
  WellRunning r = IsWell r.machine × All Lawful r.left

  receive-IsWell :
      (input : Received pf) (next : ℕ) (m : Machine pf)
      → LawfulInput input
      → IsWell m
      → WellRunning (receive input next m)
  unfolding receive batch
  receive-IsWell (received first queued) next m l v =
      let (w, left) =
        collect-IsWell (first ∷ queued) (record { newest = none; newest_width = none; machine = m })
          l v in
      (by_flow-IsWell _ _ w, left)
  receive-IsWell timed_out next m l v = (v, tt)
  receive-IsWell disconnected next m l v = (v, tt)

  deadline-active :
      (m : Machine pf) (next t : ℕ)
      → leb next t ≡ false
      → leb (wake_at (watchdog_deadline m) next) t ≡ true
      → m.phase ≡ active
  unfolding watchdog_deadline
  deadline-active m next t h k = ground arith

  -- A round of the loop, whether it ticks, calls the watchdog or handles what it receives, keeps
  -- the invariant, and leaves no lease of client 0 in the channel, where the input had none.
  pub round-IsWell :
      (input : Received pf) (next : ℕ) (m : Machine pf)
      → LawfulInput input
      → IsWell m
      → WellRunning (round input next m)
  unfolding round
  round-IsWell input next m l v =
      let (t, w) = pf.now m.world in
      let m' = record m { world = w } in
      let v' = world-IsWell w m v in
      if_intro WellRunning (leb next t) (λ _. (tick-IsWell m' v', tt))
        λ h.
          if_intro WellRunning (leb (wake_at (watchdog_deadline m') next) t)
            (λ k. (watchdog-IsWell m' (deadline-active m' next t h k) v', tt))
            (λ _. receive-IsWell input next m' l v')
