-- ===== src/Examples/Witnesses.antt =====
-- The theorems about the arm and its gate, at the test data.
use franka_rs.Common.{
  ℕ, ◌+◌, ◌≡◌, ◌≢◌, ◌↔◌, ◌⊎◌, refl, true, false, none, some, List, [], ◌∷◌, arith, ok, err, All,
}
use franka_rs.Msg.{TargetMsg, anchor, msg_kind, kind_from_u8, active, idle, acquired, faulted}
use franka_rs.Guard.{accept, refuse, check, kind, judge, judge_sender}
use franka_rs.Guard.Rules.{old_seq, lead_bounded}
use franka_rs.Guard.Admission.{Admissible, check-accept_iff}
use franka_rs.Guard.Stream.{Arrival, feed, feed_ordered, Ascending, Sent}
use franka_rs.Arm.Machine.{Machine, Rejection, set_refused, new, contains}
use franka_rs.Arm.Commands.{runs_session, lease_lost, acquire}
use franka_rs.Arm.Loop.{target, watchdog, watchdog_deadline, target_event}
use franka_rs.Arm.Thread.{run, round, received, batch}
use franka_rs.Arm.Safety.{IsWell, round-IsWell, WellRunning}
use franka_rs.Arm.Safety.Runs.{run_ends}
use franka_rs.Arm.Safety.Leases.{lease_lost-holder, acquire_lem}
use franka_rs.Arm.Safety.Watchdog.{watchdog_stops, watchdog_progress}
use franka_rs.Arm.Safety.Targets.{Outcomes, target_outcome}
use franka_rs.Arm.Safety.Batches.{all_targets, batch-newest}
use franka_rs.Arm.Params.{SetRequest, screen_set, params_set}
use franka_rs.Arm.Backlog.{Channel, empty_channel, initial, next, reserves, queues, reserve_add}
use franka_rs.Arm.Backlog.Bound.{Counted, Reachable-Counted}
use franka_rs.Arm.Safety.Tuning.{Screened, Failed, Moved, params_set-outcome}
use franka_rs.Examples.{
  whole, bench, config, gate, pose_gate, good, anchored, flying, silent, waiting, busy,
  flying-IsWell, silent-IsWell, waiting-IsWell,
}

run_ends_example :
    IsWell (run busy (new {pf = bench} config none 0 1 2))
    × (runs_session (run busy (new {pf = bench} config none 0 1 2)).phase ≡ false)
    × ((run busy (new {pf = bench} config none 0 1 2)).control ≡ none)
run_ends_example = run_ends config none 0 1 2 busy (ground arith)

check-accept_iff_example :
    ((check whole gate good 100 none).1 ≡ accept) ↔ Admissible whole gate good 100 none
check-accept_iff_example = check-accept_iff whole gate good 100 none

target_outcome_example : Outcomes good 100 flying (target good 100 flying)
target_outcome_example = target_outcome good 100 flying flying-IsWell

abbrev arrivals : List (Arrival ℕ)
arrivals =
    record { msg = good; now = 100; reference = none }
    ∷ record { msg = good; now = 110; reference = none }
    ∷ record { msg = record good { client_id = 8; seq = 9 }; now = 120; reference = none }
    ∷ []

feed_ordered_example :
    Ascending whole 3 (feed whole gate arrivals).1
    × All (Sent whole (kind gate) 7) (feed whole gate arrivals).1
feed_ordered_example = feed_ordered whole gate arrivals

round-IsWell_example : WellRunning (round (received (target_event good 100) []) 200 flying)
round-IsWell_example =
    round-IsWell (received (target_event good 100) []) 200 flying (tt, tt) flying-IsWell

lease_lost-holder_example :
    let n = lease_lost {pf = bench} 7 flying in
    (runs_session n.phase ≡ false)
    × (n.control ≡ none)
    × (n.holder ≡ 0)
    × (n.phase ≢ acquired)
    × (contains 7 n.alive ≡ false)
lease_lost-holder_example = lease_lost-holder flying flying-IsWell

acquire_lem_example :
    (((acquire 8 flying).0 ≡ ok tt) ↔ (
      (contains 8 (7 ∷ 8 ∷ []) ≡ true)
      × ((flying.holder ≡ 0) ⊎ (flying.holder ≡ 8))
      × ((active ≡ idle) ⊎ (active ≡ acquired))))
    × ((acquire 8 flying).0 ≡ ok tt
        → (acquire 8 flying).1 ≡ record flying { holder = 8; phase = acquired })
    × ((acquire 8 flying).0 ≢ ok tt → (acquire 8 flying).1 ≡ flying)
acquire_lem_example = acquire_lem 8 flying flying-IsWell

watchdog_stops_example :
    ((watchdog silent).control ≡ none)
    × ((watchdog silent).holder ≡ 7)
    × (((watchdog silent).phase ≡ idle) ⊎ ((watchdog silent).phase ≡ faulted))
watchdog_stops_example = watchdog_stops silent silent-IsWell refl (omega arith)

deadline_reached : watchdog_deadline waiting ≡ some 110
unfolding watchdog_deadline
deadline_reached = refl

watchdog_progress_example :
    (runs_session (watchdog waiting).phase ≡ false)
    ⊎ ((false ≡ false) × ((watchdog waiting).holding ≡ true))
watchdog_progress_example =
    watchdog_progress waiting waiting-IsWell deadline_reached (omega arith) (omega arith)

late_seq : (check whole gate (record good { seq = 3 }) 100 none).1 ≡ refuse (old_seq 3 3)
unfolding check judge judge_sender kind msg_kind kind_from_u8
late_seq = refl

leads_on : lead_bounded whole pose_gate.options ≡ true
unfolding lead_bounded
leads_on = refl

leads_off : lead_bounded whole gate.options ≡ false
unfolding lead_bounded
leads_off = refl

anchor_set : anchor anchored ≡ true
unfolding anchor
anchor_set = refl

abbrev queued : List (TargetMsg ℕ × ℕ)
queued = (record good { seq = 5 }, 101) ∷ (record good { seq = 6 }, 102) ∷ []

batch-newest_example :
    (n : Machine bench) × ((batch
        (target_event good 100)
        (all_targets {pf = bench} queued)
        flying).2
      ≡ target (record good { seq = 6 }) 102 n)
    × (n.counts.dropped ≡ 0 + 2)
    × (n.counts.accepted ≡ 0)
    × (n.counts.refused ≡ 0)
batch-newest_example = batch-newest (good, 100) queued flying

abbrev asked : SetRequest bench
asked = record { client = 7; base_version = some 0; confirm = []; update = ok 5 }

params_set-outcome_example :
    ((why : Rejection bench) × (screen_set flying (ok asked) ≡ err why)
      × (params_set flying (ok asked) ≡ (flying, set_refused why flying.params.version)))
    ⊎ ((request : SetRequest bench) × (control : ℕ) × (in_force : ℕ) × (update : ℕ) × Screened
          flying
          (ok asked)
          request
          control
          in_force
          update
        × (Failed flying control update (params_set flying (ok asked))
            ⊎ Moved flying request control in_force update (params_set flying (ok asked))))
params_set-outcome_example = params_set-outcome flying (ok asked)

first_slot : (reserve_add empty_channel.backlog).0 ≡ true
unfolding reserve_add
first_slot = refl

abbrev one_reserved : Channel
one_reserved = record empty_channel {
  backlog = (reserve_add empty_channel.backlog).1;
  holding_slot = 1;
}

Reachable-Counted_example : Counted (record one_reserved { holding_slot = 0; queued = 1 })
Reachable-Counted_example =
    Reachable-Counted
      (next (next initial (reserves empty_channel first_slot)) (queues one_reserved 0 refl))
