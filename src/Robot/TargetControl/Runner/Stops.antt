-- ===== src/Robot/TargetControl/Runner/Stops.antt =====
-- A stop comes to its end (crates/franka-rs/src/robot/target_control/runner.rs).
use franka_rs.Common.{
  ℕ, zero, suc, ◌+◌, ◌^◌, ◌≤◌, ◌<◌, ltb, true, false, Option, none, some, ◌≡◌, ◌↔◌, inl, inr, refl,
  sym, ap, subst, arith,
}
use franka_rs.Float.{Float}
use franka_rs.Robot.TargetControl.Slot.{Array}
use franka_rs.Robot.TargetControl.Runner.{
  MultiOtg, Runner, Hold, Settle, Glimpse, CycleStep, Effects, Cycle, cycle, stop_timeout_cycles,
}
use franka_rs.Robot.TargetControl.Runner.Runs.{
  run_cycles, Cycled, Cycled-suc, holding, held_step, holding-Cycled,
}
use franka_rs.Robot.TargetControl.Runner.Onward.{Onward, Moved, cycle-Moved}

module _ (fl : Float) (o : MultiOtg fl) (S : Type 0) (n s fuel : ℕ) where
  -- In the cycle `i` the command of the hold is sent, and the motion finished if it is the last.
  abbrev pub Resent : ℕ → ℕ → (ℕ → Glimpse fl S) → Runner fl o → Array fl.F → Type 0
  Resent i last g r held =
      (step : CycleStep fl) × (r' : Runner fl o) × Cycled fl o S n s (suc fuel) i g r step r'
      × (step.sent_position ≡ held)
      × (step.is_hold ≡ true)
      × ((step.finished ≡ true) ↔ (i ≡ last))

  -- From the cycle `k` on the same command is sent for `cycles` cycles more.
  abbrev pub Settled : ℕ → ℕ → (ℕ → Glimpse fl S) → Runner fl o → Type 0
  Settled k cycles g r =
      (first : CycleStep fl) × (at : Runner fl o) × Cycled fl o S n s (suc fuel) k g r first at
      × (first.finished ≡ false)
      × ((i : ℕ) → k < i → i ≤ k + cycles → Resent i (k + cycles) g r first.sent_position)

  Resent-suc :
      (i last : ℕ) (g : ℕ → Glimpse fl S) (r r1 : Runner fl o) (step : CycleStep fl)
      (e : Effects fl S) (held : Array fl.F)
      → cycle fl o S n s (suc fuel) r (g 0) ≡ some (step, r1, e)
      → Resent i last (λ j. g (suc j)) r1 held
      → Resent (suc i) (suc last) g r held
  Resent-suc i last g r r1 step e held c (step', r', d, same, hold, (to, from)) = (
    step',
    r',
    Cycled-suc fl o S n s (suc fuel) i g r r1 r' step step' e c d,
    same,
    hold,
    (λ f. ap suc (to f), λ q. from (omega (arith, q))),
  )

  abbrev with_hold : Runner fl o → Option (Hold fl) → Runner fl o
  with_hold r x = record r { hold = x }

  -- At the last cycle the command has been sent more than `cycles` times, and not before.
  last_cycle : (i cycles : ℕ) → i ≤ 0 + cycles → (ltb cycles (1 + i) ≡ true) ↔ (i ≡ 0 + cycles)
  last_cycle i cycles l = ground arith

  holding-Resent :
      (i : ℕ) (g : ℕ → Glimpse fl S) (r r1 : Runner fl o) (step : CycleStep fl) (e : Effects fl S)
      → cycle fl o S n s (suc fuel) r (g 0) ≡ some (step, r1, e)
      → r1.hold ≡ some (record { held = step.sent_position; sent = 1 })
      → 1 + r1.settle.cycles < 2 ^ 32
      → 0 < i
      → i ≤ 0 + r1.settle.cycles
      → Resent i (0 + r1.settle.cycles) g r step.sent_position
  holding-Resent zero g r r1 step e c h l p q = absurd (omega (arith, p))
  holding-Resent (suc j) g r r1 step e c h l p q =
      let first : Hold fl = record { held = step.sent_position; sent = 1 } in
      let last : CycleStep fl =
        held_step fl o S n s (suc fuel) r1 first (ltb r1.settle.cycles (1 + suc j)) in
      let end : Runner fl o = holding fl o S n s (suc fuel) r1 first (suc j) in
      let held =
        holding-Cycled fl o S n s (suc fuel) j 0 (suc j) (λ i. g (suc i)) r1 first (omega arith)
          (omega (arith, l, q)) in
      (
        last,
        end,
        Cycled-suc fl o S n s (suc fuel) j g r r1 end step last e c (
            subst (λ x. Cycled fl o S n s (suc fuel) j (λ i. g (suc i)) x last end)
              (sym (ap (with_hold r1) h)) held),
        refl,
        refl,
        last_cycle (suc j) r1.settle.cycles q,
      )

  hold-Settled :
      (g : ℕ → Glimpse fl S) (r r1 : Runner fl o) (step : CycleStep fl) (e : Effects fl S)
      → cycle fl o S n s (suc fuel) r (g 0) ≡ some (step, r1, e)
      → step.finished ≡ false
      → r1.hold ≡ some (record { held = step.sent_position; sent = 1 })
      → 1 + r1.settle.cycles < 2 ^ 32
      → Settled 0 r1.settle.cycles g r
  unfolding run_cycles
  hold-Settled g r r1 step e c f h l =
      (step, r1, (r, e, refl, c), f, λ i p q. holding-Resent i g r r1 step e c h l p q)

  later-Resent :
      (i k cycles : ℕ) (g : ℕ → Glimpse fl S) (r r1 : Runner fl o) (step : CycleStep fl)
      (e : Effects fl S) (held : Array fl.F)
      → cycle fl o S n s (suc fuel) r (g 0) ≡ some (step, r1, e)
      → ((j : ℕ) → k < j → j ≤ k + cycles → Resent j (k + cycles) (λ j. g (suc j)) r1 held)
      → suc k < i
      → i ≤ suc k + cycles
      → Resent i (suc k + cycles) g r held
  later-Resent zero k cycles g r r1 step e held c more p q = absurd (omega (arith, p))
  later-Resent (suc i) k cycles g r r1 step e held c more p q =
      let up : suc (k + cycles) ≡ suc k + cycles = omega arith in
      subst (λ last. Resent (suc i) last g r held) up
        (Resent-suc i (k + cycles) g r r1 step e held c
          (more i (omega (arith, p)) (omega (arith, q))))

  later-Settled :
      (k cycles : ℕ) (g : ℕ → Glimpse fl S) (r r1 : Runner fl o) (step : CycleStep fl)
      (e : Effects fl S)
      → cycle fl o S n s (suc fuel) r (g 0) ≡ some (step, r1, e)
      → Settled k cycles (λ i. g (suc i)) r1
      → Settled (suc k) cycles g r
  later-Settled k cycles g r r1 step e c (first, at, f, unfinished, more) = (
    first,
    at,
    Cycled-suc fl o S n s (suc fuel) k g r r1 at step first e c f,
    unfinished,
    λ i p q. later-Resent i k cycles g r r1 step e first.sent_position c more p q,
  )

  -- A hold that begins within `d` cycles
  abbrev Soon : ℕ → ℕ → (ℕ → Glimpse fl S) → Runner fl o → Type 0
  Soon d cycles g r = (k : ℕ) × (k ≤ d) × Settled k cycles g r

  Soon-suc :
      (d cycles : ℕ) (g : ℕ → Glimpse fl S) (r r1 : Runner fl o) (step : CycleStep fl)
      (e : Effects fl S)
      → cycle fl o S n s (suc fuel) r (g 0) ≡ some (step, r1, e)
      → Soon d cycles (λ i. g (suc i)) r1
      → Soon (suc d) cycles g r
  Soon-suc d cycles g r r1 step e c (k, l, settled) =
      (suc k, omega (arith, l), later-Settled k cycles g r r1 step e c settled)

  -- The cycle as `Moved` tells it
  abbrev Stepped : Runner fl o → Glimpse fl S → Type 0
  Stepped r g =
      (step : CycleStep fl) × (r1 : Runner fl o) × (e : Effects fl S) × (cycle fl o S n s (suc fuel)
          r g
        ≡ some (step, r1, e))
      × Onward fl o S n s fuel r.stop_cycles r.settle (step, r1)

  Moved-Stepped :
      (r : Runner fl o) (g : Glimpse fl S) (x : Option (Cycle fl o S n s))
      → cycle fl o S n s (suc fuel) r g ≡ x
      → Moved fl o S n s fuel r x
      → Stepped r g
  Moved-Stepped r g none q m = absurd m
  Moved-Stepped r g (some (step, r1, e)) q m = (step, r1, e, q, m)

  held-Soon :
      (d : ℕ) (g : ℕ → Glimpse fl S) (r r1 : Runner fl o) (step : CycleStep fl) (e : Effects fl S)
      → cycle fl o S n s (suc fuel) r (g 0) ≡ some (step, r1, e)
      → step.finished ≡ false
      → r1.hold ≡ some (record { held = step.sent_position; sent = 1 })
      → r1.settle ≡ r.settle
      → 1 + r.settle.cycles < 2 ^ 32
      → Soon d r.settle.cycles g r
  held-Soon d g r r1 step e c f h same l =
      let few = subst (λ (x : Settle fl). 1 + x.cycles < 2 ^ 32) (sym same) l in
      (
        0,
        omega arith,
        subst (λ (x : Settle fl). Settled 0 x.cycles g r) same
            (hold-Settled g r r1 step e c f h few),
      )

  stop-Soon :
      (d : ℕ) (g : ℕ → Glimpse fl S) (r : Runner fl o) (target : ℕ → Array fl.F)
      → r.hold ≡ none
      → 5000 ≤ r.stop_cycles + suc d
      → 1 + r.settle.cycles < 2 ^ 32
      → ((i : ℕ) → (g i).stop ≡ true)
      → ((i : ℕ) → (g i).loads 0 ≡ some (target i))
      → Soon d r.settle.cycles g r
  stop-Soon zero g r target h late l st ld =
      let (step, r1, e, c, (way, unfinished, same)) =
        Moved-Stepped r (g 0) _ refl
          (cycle-Moved fl o S n s fuel r (g 0) (target 0) h (st 0) (ld 0)) in
      elim way [
        | inl held ↦ held-Soon 0 g r r1 step e c unfinished held same l
        | inr (free, count, early) ↦ absurd (omega (arith, early, late))
      ]
  stop-Soon (suc d) g r target h late l st ld =
      let (step, r1, e, c, (way, unfinished, same)) =
        Moved-Stepped r (g 0) _ refl
          (cycle-Moved fl o S n s fuel r (g 0) (target 0) h (st 0) (ld 0)) in
      elim way [
        | inl held ↦ held-Soon (suc d) g r r1 step e c unfinished held same l
        | inr (free, count, early) ↦ Soon-suc d r.settle.cycles g r r1 step e c (
            subst (λ (x : Settle fl). Soon d x.cycles (λ i. g (suc i)) r1) same
              (stop-Soon d (λ i. g (suc i)) r1 (λ i. target (suc i)) free
                (omega (arith, late, count))
                (subst (λ (x : Settle fl). 1 + x.cycles < 2 ^ 32) (sym same) l) (λ i. st (suc i))
                (λ i. ld (suc i))))
      ]

  -- A stop comes to its end. From a runner that holds nothing yet, when the stop flag is set in
  -- every cycle, the first `load` of every cycle succeeds and `settle.cycles + 1` fits in a `u32`,
  -- a command is first held in one of the next 5000 cycles (`STOP_TIMEOUT_CYCLES`), with the motion
  -- not finished; in each of the `settle.cycles` cycles after that one the very same position is
  -- sent as a hold, and the motion is finished in the last of them and in none before. No cycle of
  -- these waits in its loop over `load`, whatever the generator, the robot's state, the deviation
  -- guard and the joint limits do.
  pub stop-Settled :
      (g : ℕ → Glimpse fl S) (r : Runner fl o) (target : ℕ → Array fl.F)
      → r.hold ≡ none
      → 1 + r.settle.cycles < 2 ^ 32
      → ((i : ℕ) → (g i).stop ≡ true)
      → ((i : ℕ) → (g i).loads 0 ≡ some (target i))
      → (k : ℕ) × (k < stop_timeout_cycles) × Settled k r.settle.cycles g r
  unfolding stop_timeout_cycles
  stop-Settled g r target h l st ld =
      let (k, le, settled) = stop-Soon 4999 g r target h (omega arith) l st ld in
      (k, omega (arith, le), settled)
