-- ===== src/Arm/Safety/Invariant.antt =====
-- The invariant of an arm's machine (crates/franka-node/src/arm) between two events.
use franka_rs.Common.{ℕ, ◌≡◌, ◌≢◌, Bool, true, false, Option, none, some, is_some, arith}
use franka_rs.Guard.{Guard}
use franka_rs.Msg.{Phase, acquired, active, stopping, homing}
use franka_rs.Arm.Platform.{Platform, ArmConfig}
use franka_rs.Arm.Machine.{Machine, GripperSide, contains, new}
use franka_rs.Arm.Commands.{runs_session}

abbrev pub is_homing : Phase → Bool
is_homing homing = true
is_homing _ = false

-- The gate of a session answers to `holder`.
abbrev pub GateOf : {F : Type 0} → Option (Guard F) → ℕ → Type 0
GateOf none holder = Unit {0}
GateOf (some g) holder = g.holder ≡ holder

-- A session runs exactly in Active and Homing: there the loop's handle, the gate and the episode
-- are there, and the holder is a client; a home query waits exactly in Homing. `Stopping` is never
-- seen between two events, only Active holds, and client 0 has no lease.
pub record IsWell {pf : Platform} (m : Machine pf) : Type 0 where
  pub controlled : is_some m.control ≡ runs_session m.phase
  pub gated : is_some m.guard ≡ runs_session m.phase
  pub recorded : is_some m.episode ≡ runs_session m.phase
  pub queried : is_some m.homing ≡ is_homing m.phase
  pub gate : GateOf m.guard m.holder
  pub held : runs_session m.phase ≡ true → m.holder ≢ 0
  pub acquired_held : m.phase ≡ acquired → m.holder ≢ 0
  pub settled : m.phase ≢ stopping
  pub only_active : m.holding ≡ true → m.phase ≡ active
  pub leased : contains 0 m.alive ≡ false

-- A new machine satisfies the invariant.
pub new-IsWell :
    {pf : Platform} (c : ArmConfig pf) (g : Option GripperSide) (t u : ℕ) (w : pf.World)
    → IsWell (new c g t u w)
unfolding new contains
new-IsWell c g t u w = ground arith
