-- ===== src/Arm/Safety/Grip.antt =====
-- What becomes of a gripper command (crates/franka-node/src/arm/gripper.rs).
use franka_rs.Common.{
  ℕ, ◌+◌, ◌<◌, ◌≡◌, ◌≢◌, ◌⊎◌, inl, inr, refl, Option, none, some, arith, Result, ok, err,
}
use franka_rs.Arm.Platform.{Platform}
use franka_rs.Arm.Machine.{Machine, GripperSide, GripperMsg, Output, emit}
use franka_rs.Arm.Gripper.{judge_last, judge_gripper, gripper_target, gripper_with, on_judged}

-- Beyond what the same client sent before.
abbrev pub Fresh : Option (ℕ × ℕ) → ℕ → ℕ → Type 0
Fresh none client seq = Unit {0}
Fresh (some (last_client, last)) client seq = last_client ≡ client → last < seq

judge_last-Fresh :
    {pf : Platform} (last : Option (ℕ × ℕ)) (client seq : ℕ)
    → judge_last {pf = pf} last client seq ≡ ok tt
    → Fresh last client seq
unfolding judge_last
judge_last-Fresh none client seq h = tt
judge_last-Fresh (some (c, l)) client seq h = ground arith

module _ {pf : Platform} where
  -- The command is from the holder, fresh, and it is the last one now; nothing is counted.
  abbrev pub Driven : GripperMsg pf → Machine pf → Machine pf → Type 0
  Driven msg m n =
      (g : GripperSide) × (call : Output pf) × (m.gripper ≡ some g)
      × (msg.client_id ≢ 0)
      × (msg.client_id ≡ m.holder)
      × Fresh g.last msg.client_id msg.seq
      × (n
          ≡ emit call
              (record m { gripper = some (record g { last = some (msg.client_id, msg.seq) }) }))

  abbrev pub RefusedOnly : Machine pf → Machine pf → Type 0
  RefusedOnly m n = n ≡ record m { counts = record m.counts { refused = m.counts.refused + 1 } }

  judge_gripper-ok :
      (g : GripperSide) (msg : GripperMsg pf) (m : Machine pf) (call : Output pf)
      → judge_gripper g msg m ≡ ok call
      → (msg.client_id ≢ 0)
        × (msg.client_id ≡ m.holder)
        × (judge_last {pf = pf} g.last msg.client_id msg.seq ≡ ok tt)
  unfolding judge_gripper
  judge_gripper-ok g msg m call h = ground arith

  on_judged-outcome :
      (r : Result _ (Output pf)) (g : GripperSide) (msg : GripperMsg pf) (m : Machine pf)
      → judge_gripper g msg m ≡ r
      → m.gripper ≡ some g
      → Driven msg m (on_judged r g msg m) ⊎ RefusedOnly m (on_judged r g msg m)
  unfolding on_judged
  on_judged-outcome (err e) g msg m h q = inr refl
  on_judged-outcome (ok call) g msg m h q =
      let j = judge_gripper-ok g msg m call h in
      inl (g, call, q, j.0, j.1, judge_last-Fresh {pf = pf} g.last msg.client_id msg.seq j.2, refl)

  gripper_with-outcome :
      (o : Option GripperSide) (msg : GripperMsg pf) (m : Machine pf)
      → m.gripper ≡ o
      → Driven msg m (gripper_with o msg m) ⊎ RefusedOnly m (gripper_with o msg m)
  unfolding gripper_with
  gripper_with-outcome none msg m q = inr refl
  gripper_with-outcome (some g) msg m q = on_judged-outcome (judge_gripper g msg m) g msg m refl q

  -- A gripper command either only counts one refusal, or it comes from the holder (never client 0),
  -- beyond the last command of the same client, is remembered as the last one, and makes one call.
  pub gripper_target-outcome :
      (msg : GripperMsg pf) (m : Machine pf)
      → Driven msg m (gripper_target msg m) ⊎ RefusedOnly m (gripper_target msg m)
  unfolding gripper_target
  gripper_target-outcome msg m = gripper_with-outcome m.gripper msg m refl
