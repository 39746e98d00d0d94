-- ===== src/Arm/Safety/Ending.antt =====
-- How a session ends (crates/franka-node/src/arm/commands.rs): what each way out leaves behind.
use franka_rs.Common.{◌≡◌, ◌⊎◌, true, false, none, is_some, arith}
use franka_rs.Msg.{Phase, idle, acquired, faulted}
use franka_rs.Arm.Platform.{Platform}
use franka_rs.Arm.Machine.{Machine, Why, Outcome}
use franka_rs.Arm.Publish.{publish_state, end_episode}
use franka_rs.Arm.Session.{after_loop, stop_to, fault, hold_in_place, finish_home, stop}

-- `n` is `m` with its session gone: no loop, no gate, no query, no episode; holder and leases kept.
pub record Ended {pf : Platform} (m n : Machine pf) : Type 0 where
  pub control : n.control ≡ none
  pub guard : n.guard ≡ none
  pub homing_done : n.homing ≡ none
  pub episode : n.episode ≡ none
  pub holding : n.holding ≡ false
  pub holder : n.holder ≡ m.holder
  pub alive : n.alive ≡ m.alive
  pub config : n.config ≡ m.config

-- The same but for the phase, the world and the outputs.
pub record After {pf : Platform} (m n : Machine pf) : Type 0 where
  pub control : n.control ≡ m.control
  pub guard : n.guard ≡ none
  pub homing_done : n.homing ≡ none
  pub episode : n.episode ≡ none
  pub holding : n.holding ≡ false
  pub holder : n.holder ≡ m.holder
  pub alive : n.alive ≡ m.alive
  pub config : n.config ≡ m.config

module _ {pf : Platform} where
  end_episode-none : (m : Machine pf) → (end_episode m).episode ≡ none
  unfolding end_episode
  end_episode-none m = ground arith

  pub after_loop-After :
      (to : Phase) (why : Why pf) (m : Machine pf)
      → After m (after_loop to why m) × ((after_loop to why m).phase ≡ to)
  unfolding after_loop
  after_loop-After to why m = ground arith

  pub stop_to-Ended :
      (landing : Phase) (m : Machine pf)
      → is_some m.control ≡ true
      → Ended m (stop_to landing m).1
        × (((stop_to landing m).1.phase ≡ landing) ⊎ ((stop_to landing m).1.phase ≡ faulted))
  unfolding stop_to publish_state
  stop_to-Ended landing m h = grind (arith, after_loop-After)

  -- A fault ends the session in Faulted, whatever ran.
  pub fault-Ended :
      (why : Why pf) (m : Machine pf) → Ended m (fault why m) × ((fault why m).phase ≡ faulted)
  unfolding fault
  fault-Ended why m = grind (arith, after_loop-After)

  -- `hold_in_place` changes nothing but the robot's target.
  pub hold_in_place-world :
      (m : Machine pf) → hold_in_place m ≡ record m { world = (hold_in_place m).world }
  unfolding hold_in_place
  hold_in_place-world m = ground arith

  -- Where a loop runs, the end of a home leaves no loop, no gate, no waiting query and no episode,
  -- keeps the holder and the leases, and lands in Acquired, or in Faulted.
  pub finish_home-Ended :
      (outcome : Outcome pf) (m : Machine pf)
      → is_some m.control ≡ true
      → Ended m (finish_home outcome m).1
        × (((finish_home outcome m).1.phase ≡ acquired)
            ⊎ ((finish_home outcome m).1.phase ≡ faulted))
  unfolding finish_home hold_in_place
  finish_home-Ended outcome m h = grind (arith, stop_to-Ended)

  -- Where a loop runs, a stop leaves no loop, no gate, no waiting query and no episode, keeps the
  -- holder and the leases, and lands in Idle, or in Faulted.
  pub stop-Ended :
      (m : Machine pf)
      → is_some m.control ≡ true
      → Ended m (stop m).1 × (((stop m).1.phase ≡ idle) ⊎ ((stop m).1.phase ≡ faulted))
  unfolding stop hold_in_place
  stop-Ended m h = grind (arith, stop_to-Ended)
