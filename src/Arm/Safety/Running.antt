-- ===== src/Arm/Safety/Running.antt =====
-- Targets, ticks, batches and the thread's run keep the invariant
-- (crates/franka-node/src/arm/machine.rs).
use franka_rs.Common.{
  ℕ, ◌≡◌, inl, inr, refl, Bool, true, false, not, if_intro, Option, none, some, arith, ok, err, leb,
  ◌+◌, ◌-◌, ◌∙◌, ◌&&◌, ◌||◌, if◌then◌else◌, Option-cases, Result-cases,
}
use franka_rs.Guard.{Guard, Verdict, accept, refuse}
use franka_rs.Guard.Stream.{check-Keeps}
use franka_rs.Guard.Rules.{from_the_commander}
use franka_rs.Msg.{Phase, idle, acquired, active, stopping, faulted, homing}
use franka_rs.Arm.Platform.{Platform}
use franka_rs.Arm.Machine.{Machine, Homing, text}
use franka_rs.Arm.Publish.{refuse_target}
use franka_rs.Arm.Session.{fault, finish_home}
use franka_rs.Arm.Gripper.{gripper_target, judge_gripper}
use franka_rs.Arm.Loop.{
  note_accepted, note_alive, on_taken, on_verdict, judge_target, target_with, target_active,
  target_in, target, refresh_with, check_query, refresh_from_control, watchdog, tick_active,
  check_arrival, tick_homing, reread, tick_idle, tick_in, tick_gripper, tick, near_ready, at_rest,
  home_timeout, idle_read_period, reread_since,
}
use franka_rs.Arm.Safety.Invariant.{IsWell}
use franka_rs.Arm.Safety.Ending.{fault-Ended, stop-Ended, finish_home-Ended}
use franka_rs.Arm.Safety.Starting.{publish_params_if_due-Quiet, publish_state-Quiet}
use franka_rs.Arm.Safety.Keeping.{Quiet-IsWell, Ended-IsWell, Ended-acquired_IsWell}

abbrev Refreshed : {pf : Platform} → Bool × Machine pf → Type 0
Refreshed x = IsWell x.1

module _ {pf : Platform} where
  fault-IsWell : (w : _) (m : Machine pf) → IsWell m → IsWell (fault w m)
  fault-IsWell w m v = Ended-IsWell (fault-Ended w m).0 v (inr (fault-Ended w m).1)

  note_accepted-IsWell : (msg : _) (m : Machine pf) → IsWell m → IsWell (note_accepted msg m)
  unfolding note_accepted
  note_accepted-IsWell msg m v = ground arith

  refuse_target-IsWell :
      (msg : _) (w : _) (m : Machine pf) → IsWell m → IsWell (refuse_target msg w m)
  unfolding refuse_target
  refuse_target-IsWell msg w m v = ground arith

  note_alive-IsWell : (b : Bool) (m : Machine pf) → IsWell m → IsWell (note_alive b m)
  unfolding note_alive
  note_alive-IsWell true m v = ground arith
  note_alive-IsWell false m v = v

  on_taken-IsWell : (x : _) (msg : _) (m : Machine pf) → IsWell m → IsWell (on_taken x msg m)
  unfolding on_taken
  on_taken-IsWell (ok _) msg m v = note_accepted-IsWell msg m v
  on_taken-IsWell (err e) msg m v = fault-IsWell _ m v

  on_verdict-IsWell :
      (x : Verdict pf.float.F) (msg : _) (c : pf.Handle) (m : Machine pf)
      → IsWell m
      → IsWell (on_verdict x msg c m)
  unfolding on_verdict
  on_verdict-IsWell accept msg c m v = on_taken-IsWell _ msg _ (ground arith)
  on_verdict-IsWell (refuse why) msg c m v =
      refuse_target-IsWell msg _ _ (note_alive-IsWell (from_the_commander why) m v)

  gate-IsWell :
      (g h : Guard pf.float.F) (m : Machine pf)
      → m.guard ≡ some g
      → h.holder ≡ g.holder
      → IsWell m
      → IsWell (record m { guard = some h })
  gate-IsWell g h m e k v = ground arith

  target_with-IsWell :
      (g : _) (c : _) (msg : _) (t : ℕ) (m : Machine pf)
      → m.guard ≡ g
      → IsWell m
      → IsWell (target_with g c msg t m)
  unfolding target_with judge_target
  target_with-IsWell (some g) (some c) msg t m e v =
      on_verdict-IsWell _ msg c _ (gate-IsWell g _ m e (check-Keeps pf.float g msg t _).holder v)
  target_with-IsWell (some g) none msg t m e v = fault-IsWell _ m v
  target_with-IsWell none c msg t m e v = fault-IsWell _ m v

  target_in-IsWell :
      (p : Phase) (msg : _) (t : ℕ) (m : Machine pf) → IsWell m → IsWell (target_in p msg t m)
  unfolding target_active
  target_in-IsWell active msg t m v = target_with-IsWell m.guard m.control msg t m refl v
  target_in-IsWell homing msg t m v = refuse_target-IsWell msg _ m v
  target_in-IsWell idle msg t m v = refuse_target-IsWell msg _ m v
  target_in-IsWell acquired msg t m v = refuse_target-IsWell msg _ m v
  target_in-IsWell stopping msg t m v = refuse_target-IsWell msg _ m v
  target_in-IsWell faulted msg t m v = refuse_target-IsWell msg _ m v

  -- A target, in any phase, keeps the invariant.
  pub target-IsWell : (msg : _) (t : ℕ) (m : Machine pf) → IsWell m → IsWell (target msg t m)
  unfolding target
  target-IsWell msg t m v = target_in-IsWell m.phase msg t m v

  clock-IsWell : (w : pf.World) (m : Machine pf) → IsWell m → IsWell (record m { world = w })
  clock-IsWell w m v = ground arith

  hold-IsWell :
      (m : Machine pf) → m.phase ≡ active → IsWell m → IsWell (record m { holding = true })
  hold-IsWell m e v = ground arith

  -- The watchdog of an Active arm keeps the invariant.
  pub watchdog-IsWell : (m : Machine pf) → m.phase ≡ active → IsWell m → IsWell (watchdog m)
  unfolding watchdog
  watchdog-IsWell m e v =
      if_intro IsWell (leb m.config.stop_after _)
        (λ _.
          Ended-IsWell (stop-Ended _ (ground arith)).0 (clock-IsWell _ m v)
            (stop-Ended _ (ground arith)).1)
        λ _.
          if_intro IsWell m.holding (λ _. clock-IsWell _ m v)
            λ _.
              if_intro IsWell (leb m.config.hold_after _)
                (λ _. hold-IsWell _ e (clock-IsWell _ m v)) (λ _. clock-IsWell _ m v)

  tick_gripper-IsWell : (m : Machine pf) → IsWell m → IsWell (tick_gripper m)
  unfolding tick_gripper
  tick_gripper-IsWell m v = ground arith

  reread-IsWell : (m : Machine pf) → IsWell m → IsWell (reread m)
  unfolding reread
  reread-IsWell m v = ground arith

  since-IsWell : (at : Option ℕ) (m : Machine pf) → IsWell m → IsWell (reread_since at m)
  unfolding reread_since
  since-IsWell none m v = reread-IsWell m v
  since-IsWell (some at) m v =
      if_intro IsWell (leb idle_read_period ((pf.now m.world).0 - at))
        (λ _. reread-IsWell _ (clock-IsWell _ m v)) (λ _. clock-IsWell _ m v)

  tick_idle-IsWell : (m : Machine pf) → IsWell m → IsWell (tick_idle m)
  unfolding tick_idle
  tick_idle-IsWell m v = since-IsWell m.read_at m v

  refresh_with-phase :
      (c : _) (m : Machine pf) → (refresh_with c m).0 ≡ true → (refresh_with c m).1.phase ≡ m.phase
  unfolding refresh_with
  refresh_with-phase c m h = ground arith

  refresh_with-IsWell : (c : _) (m : Machine pf) → IsWell m → IsWell (refresh_with c m).1
  unfolding refresh_with
  refresh_with-IsWell none m v = fault-IsWell _ m v
  refresh_with-IsWell (some c) m v =
      if_intro Refreshed (pf.is_running c m.world) (λ _. ground arith) (λ _. fault-IsWell _ m v)

  tick_active-IsWell : (m : Machine pf) → m.phase ≡ active → IsWell m → IsWell (tick_active m)
  unfolding tick_active refresh_from_control
  tick_active-IsWell m e v =
      if_intro IsWell (refresh_with m.control m).0
        (λ h.
          watchdog-IsWell _ (refresh_with-phase m.control m h ∙ e)
            (refresh_with-IsWell m.control m v))
        (λ _. refresh_with-IsWell m.control m v)

  home_end-IsWell :
      (o : _) (m : Machine pf) → m.phase ≡ homing → IsWell m → IsWell (finish_home o m).1
  home_end-IsWell o m e v =
      Ended-acquired_IsWell (finish_home-Ended o m (ground arith)).0 v (ground arith)
        (finish_home-Ended o m (ground arith)).1

  query-IsWell :
      (h : Homing) (w : pf.World) (m : Machine pf)
      → m.phase ≡ homing
      → IsWell m
      → IsWell (record m { world = w; homing = some h })
  query-IsWell h w m e v = ground arith

  check_query-IsWell :
      (q : _) (m : Machine pf) → m.phase ≡ homing → IsWell m → IsWell (check_query q m)
  unfolding check_query check_arrival
  check_query-IsWell none m e v = home_end-IsWell _ m e v
  check_query-IsWell (some h) m e v =
      let h' = record h { within = if near_ready m then h.within + 1 else 0 } in
      let v' = query-IsWell h' (pf.now m.world).1 m e v in
      if_intro IsWell (near_ready m && (at_rest m || _)) (λ _. home_end-IsWell _ _ e v')
        λ _.
          if_intro IsWell (leb home_timeout ((pf.now m.world).0 - h.started))
            (λ _. home_end-IsWell (err (text "home timed out")) _ e v') (λ _. v')

  tick_homing-IsWell : (m : Machine pf) → m.phase ≡ homing → IsWell m → IsWell (tick_homing m)
  unfolding tick_homing refresh_from_control
  tick_homing-IsWell m e v =
      if_intro IsWell (not (refresh_with m.control m).0) (λ _. refresh_with-IsWell m.control m v)
        (λ h.
          check_query-IsWell _ _ (refresh_with-phase m.control m (ground arith) ∙ e)
            (refresh_with-IsWell m.control m v))

  tick_in-IsWell : (p : Phase) (m : Machine pf) → m.phase ≡ p → IsWell m → IsWell (tick_in p m)
  tick_in-IsWell active m e v = tick_active-IsWell m e v
  tick_in-IsWell homing m e v = tick_homing-IsWell m e v
  tick_in-IsWell idle m e v = tick_idle-IsWell m v
  tick_in-IsWell acquired m e v = tick_idle-IsWell m v
  tick_in-IsWell stopping m e v = tick_idle-IsWell m v
  tick_in-IsWell faulted m e v = tick_idle-IsWell m v

  -- A tick, in any phase, keeps the invariant.
  pub tick-IsWell : (m : Machine pf) → IsWell m → IsWell (tick m)
  unfolding tick
  tick-IsWell m v = tick_gripper-IsWell _ (
      Quiet-IsWell (publish_params_if_due-Quiet _)
        (Quiet-IsWell (publish_state-Quiet _) (tick_in-IsWell m.phase m refl v)))

  pub gripper_target-IsWell : (msg : _) (m : Machine pf) → IsWell m → IsWell (gripper_target msg m)
  unfolding gripper_target
  gripper_target-IsWell msg m v = elim (Option-cases m.gripper) [
    | inl e ↦ ground arith
    | inr (g, e) ↦ ground (arith, Result-cases (judge_gripper g msg m))
  ]
