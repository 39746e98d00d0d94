-- ===== src/Arm/Safety/Runs.antt =====
-- Whole runs of an arm's thread (crates/franka-node/src/arm/machine.rs).
use franka_rs.Common.{ℕ, ◌≡◌, false, Option, none, List, [], ◌∷◌, arith, err, All}
use franka_rs.Arm.Platform.{Platform, ArmConfig}
use franka_rs.Arm.Machine.{Machine, GripperSide, text, new}
use franka_rs.Arm.Session.{end_session}
use franka_rs.Arm.Commands.{runs_session}
use franka_rs.Arm.Loop.{
  Event, target_event, cmd, params_event, gripper_event, lease_alive, lease_gone, shutdown,
  continue, halt,
}
use franka_rs.Arm.Thread.{Received, Running, round, rounds, drain_one, drain, finish_run, run}
use franka_rs.Arm.Safety.Invariant.{IsWell, new-IsWell}
use franka_rs.Arm.Safety.Starting.{Quiet, params_query-Quiet, publish_state-Quiet}
use franka_rs.Arm.Safety.Keeping.{Quiet-IsWell, end_session-IsWell, end_session-quiet}
use franka_rs.Arm.Safety.Reachable.{LawfulInput, round-IsWell, WellRunning, world-IsWell}

module _ {pf : Platform} where
  rounds-IsWell :
      (inputs : List (Received pf)) (r : Running pf)
      → All LawfulInput inputs
      → WellRunning r
      → WellRunning (rounds inputs r)
  unfolding rounds
  rounds-IsWell [] r l v = v
  rounds-IsWell (input ∷ inputs) r l v =
      let r' = round input r.next_tick r.machine in
      elim r.flow as (λ f. WellRunning (elim f [ halt ↦ r | continue ↦ rounds inputs r' ])) [
        | halt ↦ v
        | continue ↦ rounds-IsWell inputs r' l.1 (round-IsWell input r.next_tick r.machine l.0 v.0)
      ]

  drain_one-Quiet : (e : Event pf) (m : Machine pf) → Quiet m (drain_one e m)
  unfolding drain_one
  drain_one-Quiet (target_event x y) m = ground arith
  drain_one-Quiet (cmd x y z) m = ground arith
  drain_one-Quiet (params_event x y z) m = params_query-Quiet x y z m
  drain_one-Quiet (gripper_event x) m = ground arith
  drain_one-Quiet (lease_alive x) m = ground arith
  drain_one-Quiet (lease_gone x) m = ground arith
  drain_one-Quiet shutdown m = ground arith

  Quiet-trans : {a b c : Machine pf} → Quiet a b → Quiet b c → Quiet a c
  Quiet-trans p q = ground arith

  Quiet-refl : (a : Machine pf) → Quiet a a
  Quiet-refl a = ground arith

  drain-Quiet : (es : List (Event pf)) (m : Machine pf) → Quiet m (drain es m)
  unfolding drain
  drain-Quiet [] m = Quiet-refl m
  drain-Quiet (e ∷ es) m = Quiet-trans (drain_one-Quiet e m) (drain-Quiet es (drain_one e m))

  -- The end of a run leaves a machine with no session and no loop, whatever is still queued.
  pub finish_run-IsWell :
      (r : Running pf)
      → IsWell r.machine
      → IsWell (finish_run r)
        × (runs_session (finish_run r).phase ≡ false)
        × ((finish_run r).control ≡ none)
  unfolding finish_run
  finish_run-IsWell r v =
      let ended = (end_session (err (text "shutting down")) r.machine).1 in
      let q : Quiet ended _ = Quiet-trans (drain-Quiet r.left ended) (publish_state-Quiet _) in
      let w : IsWell ended = end_session-IsWell _ r.machine v in
      let s = end_session-quiet (err (text "shutting down")) r.machine v in
      (Quiet-IsWell q w, ground arith, ground arith)

  -- A run from a new machine, over any input in which no lease is of client 0, ends with no
  -- session and no loop, in a state that satisfies the invariant.
  pub run_ends :
      (c : ArmConfig pf) (g : Option GripperSide) (t u : ℕ) (w : pf.World)
      (inputs : List (Received pf))
      → All LawfulInput inputs
      → IsWell (run inputs (new c g t u w))
        × (runs_session (run inputs (new c g t u w)).phase ≡ false)
        × ((run inputs (new c g t u w)).control ≡ none)
  unfolding run
  run_ends c g t u w inputs l =
      finish_run-IsWell _ (rounds-IsWell inputs _ l (world-IsWell _ _ (new-IsWell c g t u w), tt)).0
