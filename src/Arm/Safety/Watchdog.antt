-- ===== src/Arm/Safety/Watchdog.antt =====
-- The target watchdog (crates/franka-node/src/arm/machine.rs).
use franka_rs.Common.{ℕ, ◌-◌, ◌≤◌, ◌<◌, ◌≡◌, ◌⊎◌, true, false, none, some, arith}
use franka_rs.Msg.{idle, active, faulted}
use franka_rs.Arm.Platform.{Platform}
use franka_rs.Arm.Machine.{Machine}
use franka_rs.Arm.Commands.{runs_session}
use franka_rs.Arm.Loop.{watchdog, watchdog_deadline}
use franka_rs.Arm.Safety.Invariant.{IsWell}
use franka_rs.Arm.Safety.Ending.{stop-Ended}

module _ {pf : Platform} where
  -- Under the invariant, when no target has arrived at an Active arm for `stop_after`, the
  -- watchdog ends the session: no loop is left, and the arm is Idle or Faulted with its holder
  -- kept.
  pub watchdog_stops :
      (m : Machine pf)
      → IsWell m
      → m.phase ≡ active
      → m.config.stop_after ≤ (pf.now m.world).0 - m.last_target
      → ((watchdog m).control ≡ none)
        × ((watchdog m).holder ≡ m.holder)
        × (((watchdog m).phase ≡ idle) ⊎ ((watchdog m).phase ≡ faulted))
  unfolding watchdog
  watchdog_stops m v e h =
      let m' = record m { world = (pf.now m.world).1 } in ground (arith, stop-Ended m')

  -- Short of `stop_after` the watchdog changes only the clock and `holding`, which becomes true when
  -- no target was accepted for `hold_after`, by the clock's second reading.
  pub watchdog_holds :
      (m : Machine pf)
      → (pf.now m.world).0 - m.last_target < m.config.stop_after
      → let u = (pf.now (pf.now m.world).1).0 in
        (watchdog m ≡ record m { world = (watchdog m).world; holding = (watchdog m).holding })
        × (((watchdog m).holding ≡ true)
            → (m.holding ≡ true) ⊎ (m.config.hold_after ≤ u - m.last_accept))
        × ((m.config.hold_after ≤ u - m.last_accept) ⊎ (m.holding ≡ true)
            → (watchdog m).holding ≡ true)
  unfolding watchdog
  watchdog_holds m h = (ground arith, ground arith, ground arith)

  -- Under the invariant, once the clock has reached `watchdog_deadline`, the watchdog ends the
  -- session, or starts to hold where it did not, so the loop does not spin on the deadline. The
  -- clock must not run backwards between the two readings.
  pub watchdog_progress :
      (m : Machine pf) {d : ℕ}
      → IsWell m
      → watchdog_deadline m ≡ some d
      → d ≤ (pf.now m.world).0
      → (pf.now m.world).0 ≤ (pf.now (pf.now m.world).1).0
      → (runs_session (watchdog m).phase ≡ false)
        ⊎ ((m.holding ≡ false) × ((watchdog m).holding ≡ true))
  unfolding watchdog watchdog_deadline
  watchdog_progress m v e h k =
      let m' = record m { world = (pf.now m.world).1 } in ground (arith, stop-Ended m')
