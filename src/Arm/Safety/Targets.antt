-- ===== src/Arm/Safety/Targets.antt =====
-- What becomes of a target (crates/franka-node/src/arm/machine.rs).
use franka_rs.Common.{
  ℕ, suc, ◌≡◌, ◌⊎◌, inl, inr, refl, Bool, true, false, Option, none, some, arith, ok, err,
}
use franka_rs.Guard.{Guard, Verdict, accept, refuse, check}
use franka_rs.Guard.Admission.{Admissible, check-accept_iff}
use franka_rs.Msg.{Phase, idle, acquired, active, stopping, faulted, homing, TargetMsg}
use franka_rs.Arm.Platform.{Platform}
use franka_rs.Arm.Machine.{Machine, failed}
use franka_rs.Arm.Publish.{refuse_target}
use franka_rs.Arm.Loop.{
  note_accepted, note_alive, on_taken, on_verdict, judge_target, target_with, target_active,
  target_in, target, reference_of,
}
use franka_rs.Arm.Session.{fault, after_loop}
use franka_rs.Arm.Safety.Invariant.{IsWell, GateOf}
use franka_rs.Arm.Safety.Ending.{fault-Ended}

module _ {pf : Platform} where
  -- A target that the control took: the arm was Active, and the gate of the running session found
  -- the message admissible, so it came from the holder, in order.
  abbrev pub Taken : TargetMsg pf.float.F → ℕ → Machine pf → Machine pf → Type 0
  Taken msg t m n =
      (g : Guard pf.float.F) × (m.guard ≡ some g)
      × (m.phase ≡ active)
      × Admissible pf.float g msg t (reference_of g m)
      × (msg.client_id ≡ m.holder)
      × (n.counts.accepted ≡ suc m.counts.accepted)
      × (n.counts.refused ≡ m.counts.refused)
      × (n.accepted_seq ≡ msg.seq)

  abbrev pub Refused : Machine pf → Machine pf → Type 0
  Refused m n =
      (n.counts.refused ≡ suc m.counts.refused)
      × (n.counts.accepted ≡ m.counts.accepted)
      × (n.phase ≡ m.phase)
      × (n.control ≡ m.control)

  after_loop-counts : (p : Phase) (w : _) (m : Machine pf) → (after_loop p w m).counts ≡ m.counts
  unfolding after_loop
  after_loop-counts p w m = ground arith

  fault-counts : (w : _) (m : Machine pf) → (fault w m).counts ≡ m.counts
  unfolding fault
  fault-counts w m = grind (arith, after_loop-counts)

  -- The target ended its session by a fault; no target was counted.
  abbrev pub Faulted : Machine pf → Machine pf → Type 0
  Faulted m n = (n.phase ≡ faulted) × (n.counts ≡ m.counts)

  refuse_target-Refused :
      (msg : TargetMsg pf.float.F) (w : _) (m : Machine pf) → Refused m (refuse_target msg w m)
  unfolding refuse_target
  refuse_target-Refused msg w m = ground arith

  note_alive-Refused :
      (msg : TargetMsg pf.float.F) (w : _) (b : Bool) (m : Machine pf)
      → Refused m (refuse_target msg w (note_alive b m))
  unfolding refuse_target note_alive
  note_alive-Refused msg w false m = ground arith
  note_alive-Refused msg w true m = ground arith

  -- What a verdict of the gate leads to.
  abbrev Judged : Verdict pf.float.F → TargetMsg pf.float.F → Machine pf → Machine pf → Type 0
  Judged accept msg m n =
      ((n.counts.accepted ≡ suc m.counts.accepted)
        × (n.counts.refused ≡ m.counts.refused)
        × (n.accepted_seq ≡ msg.seq))
      ⊎ Faulted m n
  Judged (refuse why) msg m n = Refused m n

  on_taken-Judged :
      (r : _) (msg : TargetMsg pf.float.F) (m : Machine pf) → Judged accept msg m (on_taken r msg m)
  unfolding on_taken note_accepted
  on_taken-Judged (ok _) msg m = inl (ground arith)
  on_taken-Judged (err e) msg m = inr ((fault-Ended (failed e) m).1, fault-counts (failed e) m)

  on_verdict-Judged :
      (v : Verdict pf.float.F) (msg : TargetMsg pf.float.F) (h : _) (m : Machine pf)
      → Judged v msg m (on_verdict v msg h m)
  unfolding on_verdict
  on_verdict-Judged accept msg h m = on_taken-Judged _ msg _
  on_verdict-Judged (refuse why) msg h m = note_alive-Refused msg _ _ m

  abbrev pub Outcomes : TargetMsg pf.float.F → ℕ → Machine pf → Machine pf → Type 0
  Outcomes msg t m n = Taken msg t m n ⊎ (Refused m n ⊎ Faulted m n)

  judged :
      (msg : TargetMsg pf.float.F) (t : ℕ) (g : Guard pf.float.F) (m m' n : Machine pf)
      → m.guard ≡ some g
      → m.phase ≡ active
      → (g.holder ≡ m.holder)
      → (m'.counts ≡ m.counts) × (m'.phase ≡ m.phase) × (m'.control ≡ m.control)
      → (v : Verdict pf.float.F) → (check pf.float g msg t (reference_of g m)).1 ≡ v
      → Judged v msg m' n
      → Outcomes msg t m n
  judged msg t g m m' n e p h s accept c (inr j) = inr (inr (ground arith))
  judged msg t g m m' n e p h s accept c (inl j) =
      let a = (check-accept_iff pf.float g msg t (reference_of g m)).0 c in
      inl (g, e, p, a, ground arith, ground arith, ground arith, ground arith)
  judged msg t g m m' n e p h s (refuse why) c j = inr (inl (ground arith))

  judge_target-outcome :
      (msg : TargetMsg pf.float.F) (t : ℕ) (g : Guard pf.float.F) (h : _) (m : Machine pf)
      → m.guard ≡ some g
      → m.phase ≡ active
      → g.holder ≡ m.holder
      → Outcomes msg t m (judge_target msg t g h m)
  unfolding judge_target
  judge_target-outcome msg t g h m e p s =
      judged msg t g m (record m { guard = some (check pf.float g msg t (reference_of g m)).0 }) _ e
        p s (refl, refl, refl) _ refl
        (on_verdict-Judged (check pf.float g msg t (reference_of g m)).1 msg h
          (record m { guard = some (check pf.float g msg t (reference_of g m)).0 }))

  fault-outcome :
      (msg : TargetMsg pf.float.F) (t : ℕ) (w : _) (m : Machine pf) → Outcomes msg t m (fault w m)
  fault-outcome msg t w m = inr (inr ((fault-Ended w m).1, fault-counts w m))

  target_with-outcome :
      (msg : TargetMsg pf.float.F) (t : ℕ) (o : Option (Guard pf.float.F)) (c : _) (m : Machine pf)
      → m.guard ≡ o
      → m.phase ≡ active
      → GateOf o m.holder
      → Outcomes msg t m (target_with o c msg t m)
  unfolding target_with
  target_with-outcome msg t (some g) (some h) m e p s = judge_target-outcome msg t g h m e p s
  target_with-outcome msg t (some g) none m e p s = fault-outcome msg t _ m
  target_with-outcome msg t none c m e p s = fault-outcome msg t _ m

  target_in-outcome :
      (msg : TargetMsg pf.float.F) (t : ℕ) (p : Phase) (m : Machine pf)
      → IsWell m
      → m.phase ≡ p
      → Outcomes msg t m (target_in p msg t m)
  unfolding target_active
  target_in-outcome msg t active m v e = target_with-outcome msg t m.guard m.control m refl e v.gate
  target_in-outcome msg t idle m v e = inr (inl (refuse_target-Refused msg _ m))
  target_in-outcome msg t acquired m v e = inr (inl (refuse_target-Refused msg _ m))
  target_in-outcome msg t stopping m v e = inr (inl (refuse_target-Refused msg _ m))
  target_in-outcome msg t faulted m v e = inr (inl (refuse_target-Refused msg _ m))
  target_in-outcome msg t homing m v e = inr (inl (refuse_target-Refused msg _ m))

  -- Under the invariant, a target is taken, refused or ends the session in a fault. It is taken
  -- only while the arm is Active, where the gate of the session finds it admissible and it comes
  -- from the holder; then it alone is counted as accepted and its sequence number is the accepted
  -- one. A refusal counts one refusal and leaves the phase and the loop alone; a fault counts
  -- neither.
  pub target_outcome :
      (msg : TargetMsg pf.float.F) (t : ℕ) (m : Machine pf)
      → IsWell m
      → Taken msg t m (target msg t m) ⊎ (Refused m (target msg t m) ⊎ Faulted m (target msg t m))
  unfolding target
  target_outcome msg t m v = target_in-outcome msg t m.phase m v refl
