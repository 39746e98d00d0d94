-- ===== src/Arm/Safety/Starting.antt =====
-- How a session starts (crates/franka-node/src/arm/commands.rs): what each step leaves alone.
use Prim.Native.String.{String}
use franka_rs.Common.{ℕ, ◌≡◌, true, false, Option, is_some, arith}
use franka_rs.Guard.{Guard, set_holder}
use franka_rs.Arm.Platform.{Platform}
use franka_rs.Arm.Machine.{Machine}
use franka_rs.Arm.Params.{
  ParamsVerb, schema_verb, get_verb, set_verb, publish_params_if_due, params_query,
}
use franka_rs.Arm.Publish.{publish_state}
use franka_rs.Arm.Session.{Session}
use franka_rs.Arm.Start.{start_loop, start_session, begin}
use franka_rs.Arm.Safety.Invariant.{GateOf}

-- `n` has the state of `m`: at most the world, the outputs, the snapshot and the bookkeeping of
-- counters, times and parameters differ.
pub record Quiet {pf : Platform} (m n : Machine pf) : Type 0 where
  pub phase : n.phase ≡ m.phase
  pub control : n.control ≡ m.control
  pub guard : n.guard ≡ m.guard
  pub homing_kept : n.homing ≡ m.homing
  pub episode : n.episode ≡ m.episode
  pub holding : n.holding ≡ m.holding
  pub holder : n.holder ≡ m.holder
  pub alive : n.alive ≡ m.alive
  pub config : n.config ≡ m.config

-- `n` is `m` with a session behind `client`'s gate, its phase and query not yet set.
pub record Begun {pf : Platform} (client : ℕ) (m n : Machine pf) : Type 0 where
  pub phase : n.phase ≡ m.phase
  pub control : is_some n.control ≡ true
  pub guard : is_some n.guard ≡ true
  pub gate : GateOf n.guard client
  pub homing_kept : n.homing ≡ m.homing
  pub episode : is_some n.episode ≡ true
  pub holding : n.holding ≡ false
  pub holder : n.holder ≡ m.holder
  pub alive : n.alive ≡ m.alive

module _ {pf : Platform} where
  pub start_loop-Quiet : (s : Session pf.float.F) (m : Machine pf) → Quiet m (start_loop s m).1
  unfolding start_loop
  start_loop-Quiet s m = ground arith

  pub start_session-Quiet :
      (s : Session pf.float.F) (e : Option String) (m : Machine pf)
      → Quiet m (start_session s e m).1
  unfolding start_session
  start_session-Quiet s e m = grind (arith, start_loop-Quiet)

  pub begin-Begun :
      (control : pf.Handle) (g : Guard pf.float.F) (client : ℕ) (e : Option String) (m : Machine pf)
      → Begun client m (begin control g client e m)
  unfolding begin set_holder
  begin-Begun control g client e m = ground arith

  pub params_query-Quiet :
      (v : ParamsVerb) (p : _) (reply : ℕ) (m : Machine pf) → Quiet m (params_query v p reply m)
  unfolding params_query
  params_query-Quiet schema_verb p reply m = ground arith
  params_query-Quiet get_verb p reply m = ground arith
  params_query-Quiet set_verb p reply m = ground arith

  pub publish_params_if_due-Quiet : (m : Machine pf) → Quiet m (publish_params_if_due m)
  unfolding publish_params_if_due
  publish_params_if_due-Quiet m = ground arith

  pub publish_state-Quiet : (m : Machine pf) → Quiet m (publish_state m)
  unfolding publish_state
  publish_state-Quiet m = ground arith
