-- ===== src/Arm/Safety/Batches.antt =====
-- Batches of queued targets (crates/franka-node/src/arm/machine.rs, `batch`).
use franka_rs.Common.{ℕ, ◌+◌, ◌≡◌, refl, Option, none, some, List, [], ◌∷◌, arith, ap, length}
use franka_rs.Msg.{TargetMsg}
use franka_rs.Arm.Platform.{Platform}
use franka_rs.Arm.Machine.{Machine, GripperMsg}
use franka_rs.Arm.Loop.{Event, target_event, Flow, continue, halt, target}
use franka_rs.Arm.Thread.{
  Batch, collect, collect_one, count_dropped, batch, by_flow, settle, judge_newest, flush_width,
}

-- The last item of `x ∷ l`.
abbrev pub last_of : {A : Type 0} → A → List A → A
last_of x [] = x
last_of x (y ∷ l) = last_of y l

module _ {pf : Platform} where
  -- A queue of nothing but targets.
  abbrev pub all_targets : List (TargetMsg pf.float.F × ℕ) → List (Event pf)
  all_targets [] = []
  all_targets ((msg, t) ∷ l) = target_event msg t ∷ all_targets l

  collect-targets :
      (x : TargetMsg pf.float.F × ℕ) (l : List (TargetMsg pf.float.F × ℕ)) (b : Batch pf)
      → b.newest ≡ some x
      → let r = collect (all_targets l) b in
        (r.0 ≡ continue)
        × (r.2.newest ≡ some (last_of x l))
        × (r.2.newest_width ≡ b.newest_width)
        × (r.2.machine.counts.dropped ≡ b.machine.counts.dropped + length l)
        × (r.2.machine.counts.accepted ≡ b.machine.counts.accepted)
        × (r.2.machine.counts.refused ≡ b.machine.counts.refused)
  unfolding collect collect_one count_dropped
  collect-targets x [] b e = ground arith
  collect-targets x (y ∷ l) b e =
      let h = collect-targets y l (collect_one (target_event y.0 y.1) b) refl in ground (arith, h)

  batch_start :
      (x : TargetMsg pf.float.F × ℕ) (l : List (TargetMsg pf.float.F × ℕ)) (m : Machine pf)
      → let r =
          collect
            (target_event x.0 x.1 ∷ all_targets l)
            (record { newest = none; newest_width = none; machine = m }) in
        (r.0 ≡ continue)
        × (r.2.newest ≡ some (last_of x l))
        × (r.2.newest_width ≡ none)
        × (r.2.machine.counts.dropped ≡ m.counts.dropped + length l)
        × (r.2.machine.counts.accepted ≡ m.counts.accepted)
        × (r.2.machine.counts.refused ≡ m.counts.refused)
  unfolding collect collect_one count_dropped
  batch_start x l m =
      collect-targets x l
        (collect_one (target_event x.0 x.1)
          (record { newest = none; newest_width = none; machine = m }))
        refl

  settled_with :
      (o : Option (TargetMsg pf.float.F × ℕ)) (w : Option (GripperMsg pf))
      (x : TargetMsg pf.float.F × ℕ) (m : Machine pf)
      → o ≡ some x
      → w ≡ none
      → judge_newest o (flush_width w m) ≡ target x.0 x.1 m
  unfolding judge_newest flush_width
  settled_with none w x m p q = absurd (ground arith)
  settled_with (some y) (some w) x m p q = absurd (ground arith)
  settled_with (some y) none x m p q =
      ap (λ (z : TargetMsg pf.float.F × ℕ). target z.0 z.1 m) (ground arith)

  by_flow-continue :
      (f : Flow) (b : Batch pf) (x : TargetMsg pf.float.F × ℕ)
      → f ≡ continue
      → b.newest ≡ some x
      → b.newest_width ≡ none
      → by_flow f b ≡ target x.0 x.1 b.machine
  unfolding by_flow settle
  by_flow-continue continue b x e p q = settled_with b.newest b.newest_width x b.machine p q
  by_flow-continue halt b x e p q = absurd (ground arith)

  -- Of a queue of nothing but targets the newest alone is judged: the machine that judges it has
  -- counted each of the others as dropped, and the counts of accepted and refused targets are as
  -- they were.
  pub batch-newest :
      (x : TargetMsg pf.float.F × ℕ) (l : List (TargetMsg pf.float.F × ℕ)) (m : Machine pf)
      → (n : Machine pf) × ((batch (target_event x.0 x.1) (all_targets l) m).2
          ≡ target (last_of x l).0 (last_of x l).1 n)
        × (n.counts.dropped ≡ m.counts.dropped + length l)
        × (n.counts.accepted ≡ m.counts.accepted)
        × (n.counts.refused ≡ m.counts.refused)
  unfolding batch
  batch-newest x l m =
      let h = batch_start x l m in
      (_, by_flow-continue _ _ (last_of x l) h.0 h.1 h.2, h.3, h.4, h.5)
