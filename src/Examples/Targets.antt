-- ===== src/Examples/Targets.antt =====
-- Target control at concrete inputs (crates/franka-rs/src/robot/target_control).
use franka_rs.Common.{
  ℕ, ◌+◌, ◌*◌, ◌≤◌, ◌<◌, ◌==◌, ltb, ◌≡◌, Bool, true, false, Option, none, some, ok, err, refl,
  arith, if◌then◌else◌,
}
use franka_rs.Robot.TargetControl.Slot.{
  TargetSlot, Array, Bits, returned, update, empty_slot, begin_write, write_step, read_step,
  read_steps, begin_read, next_try, bump, store, load, publish,
}
use franka_rs.Robot.TargetControl.Slot.Threads.{
  System, Reach, start_system, publishing, written, loading, read, publish_step, store_step,
  load_step, read_one_step, start, later,
}
use franka_rs.Robot.TargetControl.Slot.Torn.{load_untorn}
use franka_rs.Robot.TargetControl.Slot.Reads.{begin_read-returned}
use franka_rs.Robot.TargetControl.Slot.Quiet.{load-publish}
use franka_rs.Robot.TargetControl.Runner.{
  MultiOtg, Runner, Glimpse, CycleStep, Effects, identity, finish, deviation, cycle, held_cycle,
  moving_cycle, aim_cycle, poll, adopt, plan, follow, anchor_cycle, settle_cycle, stopping_step,
  begin_hold, moving_step, same_array, axes_landed, stop_timeout_cycles, all_below, zeros,
  rest_velocity, rest_acceleration,
}
use franka_rs.Robot.TargetControl.Runner.Runs.{Cycled, run_cycles}
use franka_rs.Robot.TargetControl.Runner.Stops.{Settled, stop-Settled}
use franka_rs.Robot.TargetControl.Runner.Deviates.{finish-deviation}
use franka_rs.Robot.TargetControl.Runner.Freezes.{cycle-frozen_target}
use franka_rs.Examples.{whole}

-- Whole numbers, which are their own bits
abbrev plain : Bits ℕ
plain = record { to_bits = λ v. v; from_bits = λ v. v }

-- Two values
abbrev pair : ℕ → ℕ → Array ℕ
pair x y i = if i == 0 then x else if i == 1 then y else 0

-- ## The slot

abbrev System2 : Type 0
System2 = System plain 2

-- A target published, another one begun and half written, and the load of the first one before it
abbrev first_written : System2
first_written = written plain 2 (
    written plain 2
      (written plain 2 (publishing plain 2 (start_system plain 2 (λ k. pair 0 0)) (pair 11 22))))

abbrev first_read : System2
first_read =
    read plain 2 (read plain 2 (read plain 2 (read plain 2 (loading plain 2 first_written))))

abbrev second_begun : System2
second_begun = written plain 2 (publishing plain 2 first_read (pair 33 44))

second_begun-Reach : Reach plain 2 second_begun
unfolding bump store begin_write write_step read_step begin_read empty_slot
second_begun-Reach =
    later
      (later
        (later
          (later
            (later
              (later
                (later
                  (later
                    (later
                      (later (later (start (λ k. pair 0 0)) (publish_step (pair 11 22) refl))
                        store_step)
                      store_step)
                    store_step)
                  load_step)
                read_one_step)
              read_one_step)
            read_one_step)
          read_one_step)
        (publish_step (pair 33 44) refl))
      store_step

-- What the reader has copied
abbrev copied : Array ℕ
copied j = if j == 1 then 22 else if j == 0 then 11 else 0

load_untorn_example :
    (k : ℕ) × (1 ≤ k) × (0 < k) × (k ≤ 2) × ((j : ℕ) → j < 2 → copied j ≡ second_begun.history k j)
unfolding bump store begin_write write_step read_step begin_read empty_slot update next_try
load_untorn_example =
    load_untorn plain 2 second_begun copied second_begun-Reach (omega arith) (λ v. refl) refl

-- The slot as a reader finds it at its accesses: written again after its first three
abbrev changing : ℕ → TargetSlot
changing k = if ltb k 3 then first_written.slot else second_begun.slot

begin_read-returned_example :
    (result : Option (Array ℕ)) × (read_steps plain 2 (3 * (2 + 2)) changing (begin_read plain 2)
      ≡ returned result)
begin_read-returned_example = begin_read-returned plain 2 changing

abbrev slot_of_first : TargetSlot
slot_of_first = record { sequence = 2; values = pair 11 22 }

load-publish_example :
    (candidate : Array ℕ) × (load plain 2 (λ j. publish plain 2 slot_of_first (pair 33 44))
      ≡ some candidate)
    × ((j : ℕ) → j < 2 → candidate j ≡ pair 33 44 j)
load-publish_example =
    load-publish plain 2 slot_of_first (pair 33 44) refl (omega arith) (λ v. refl)

-- ## The runner

-- A generator that is at its target after a step
abbrev jumper : MultiOtg whole
jumper = record {
  Otg = Array ℕ;
  reset = λ g p. p;
  set_position = λ g p. g;
  set_target = λ g t. t;
  set_state = λ g p v a. g;
  step = λ g. (g, g);
  position = λ g. g;
  target = λ g. g;
  velocity = λ g i. 0;
  acceleration = λ g i. 0;
}

abbrev following : Bool → Runner whole jumper
following fired = record {
  started = false;
  otg = pair 1 2;
  settle = record { tolerance = 1; cycles = 1 };
  chart = identity whole;
  aim = pair 5 6;
  anchored = true;
  deviated = fired;
  stop_cycles = 0;
  hold = none;
}

-- A cycle whose echo is at the target, at which the arm is held back
abbrev at_target : Bool → Bool → Glimpse whole ℕ
at_target stop strayed = record {
  state = 9;
  commanded = pair 5 6;
  strayed = strayed;
  blocked = true;
  unlocked = true;
  stop = stop;
  loads = λ i. some (pair 7 8);
}

stop-Settled_example :
    (k : ℕ) × (k < stop_timeout_cycles)
    × Settled whole jumper ℕ 2 2 0 k 1 (λ i. at_target true false) (following false)
stop-Settled_example =
    stop-Settled whole jumper ℕ 2 2 0 (λ i. at_target true false) (following false) (λ i. pair 7 8)
      refl (omega arith) (λ i. refl) (λ i. refl)

-- The first cycle strays and holds, the second one finishes.
abbrev strays : ℕ → Glimpse whole ℕ
strays i = at_target false true

abbrev stray_hold : ℕ → Runner whole jumper
stray_hold sent = record (following true) {
  otg = pair 5 6;
  stop_cycles = 1;
  hold = some (record { held = pair 5 6; sent = sent });
}

abbrev last_step : CycleStep whole
last_step = record {
  sent_position = pair 5 6;
  sent_velocity = λ i. 0;
  sent_acceleration = λ i. 0;
  planned = pair 5 6;
  is_hold = true;
  finished = true;
}

abbrev seen : Effects whole ℕ
seen = record { stored = some 9; published = none; signalled = false }

strays-Cycled : Cycled whole jumper ℕ 2 2 1 1 strays (following false) last_step (stray_hold 2)
unfolding run_cycles cycle held_cycle moving_cycle aim_cycle poll adopt plan follow anchor_cycle
    settle_cycle stopping_step begin_hold moving_step same_array axes_landed stop_timeout_cycles
    all_below zeros identity rest_velocity rest_acceleration
strays-Cycled = (stray_hold 1, seen, refl, refl)

finish-deviation_example : finish whole {E = ℕ} (stray_hold 2) (ok tt) ≡ err deviation
finish-deviation_example =
    finish-deviation whole jumper ℕ 2 2 1 1 strays (following false) (stray_hold 2) last_step refl
      (λ i. refl) strays-Cycled refl

fired-Cycled :
    Cycled whole jumper ℕ 2 2 1 0 strays
      (following true)
      (record last_step { finished = false })
      (stray_hold 1)
unfolding run_cycles cycle held_cycle moving_cycle aim_cycle poll adopt plan follow anchor_cycle
    settle_cycle stopping_step begin_hold moving_step same_array axes_landed stop_timeout_cycles
    all_below zeros identity rest_velocity rest_acceleration
fired-Cycled = (following true, seen, refl, refl)

cycle-frozen_target_example : (pair 5 6 ≡ pair 5 6) × (pair 5 6 ≡ pair 5 6) × (true ≡ true)
cycle-frozen_target_example =
    cycle-frozen_target whole jumper ℕ 2 2 1 0 strays (following true) (stray_hold 1)
      (record last_step { finished = false }) refl refl fired-Cycled
