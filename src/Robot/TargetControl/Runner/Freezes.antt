-- ===== src/Robot/TargetControl/Runner/Freezes.antt =====
-- The target after the deviation guard has fired
-- (crates/franka-rs/src/robot/target_control/runner.rs).
use franka_rs.Common.{
  ℕ, Bool, true, not, ◌&&◌, ◌||◌, Option, none, some, ◌≡◌, inl, inr, refl, sym, subst, arith,
  if_intro, Option-cases,
}
use franka_rs.Float.{Float}
use franka_rs.Robot.TargetControl.Slot.{Array}
use franka_rs.Robot.TargetControl.Runner.{
  MultiOtg, Runner, Hold, Glimpse, CycleStep, Effects, Cycle, cycle, held_cycle, moving_cycle,
  aim_cycle, plan, follow, settle_cycle, stopping_step, begin_hold, moving_step,
}
use franka_rs.Robot.TargetControl.Runner.Runs.{Cycled, cycle-free, cycle-held, run_cycles-keeps}

module _ (fl : Float) (o : MultiOtg fl) (S : Type 0) (n s fuel : ℕ) where
  abbrev Frozen : Array fl.F → Runner fl o → Type 0
  Frozen a r = (r.anchored ≡ true) × (r.deviated ≡ true) × (r.aim ≡ a)

  abbrev FrozenAim : Array fl.F → Option (Runner fl o × Effects fl S) → Type 0
  FrozenAim a none = Unit {0}
  FrozenAim a (some (r, e)) = Frozen a r

  abbrev FrozenCycle : Array fl.F → Option (Cycle fl o S n s) → Type 0
  FrozenCycle a none = Unit {0}
  FrozenCycle a (some (step, r, e)) = Frozen a r × (step.planned ≡ a)

  aim_cycle-Frozen :
      (stopping : Bool) (a : Array fl.F) (r : Runner fl o) (g : Glimpse fl S)
      → Frozen a r
      → FrozenAim a (aim_cycle fl o S n s fuel stopping r g)
  unfolding aim_cycle
  aim_cycle-Frozen stopping a r g (an, d, q) =
      if_intro (FrozenAim a) (not r.anchored) (λ x. absurd (ground arith))
        (λ x.
          if_intro (FrozenAim a) (not r.deviated && g.strayed) (λ y. absurd (ground arith))
            (λ y.
              if_intro (FrozenAim a) (not r.deviated) (λ z. absurd (ground arith))
                (λ z. (an, d, q))))

  abbrev FrozenStep : Array fl.F → CycleStep fl × Runner fl o → Type 0
  FrozenStep a (step, r) = Frozen a r × (step.planned ≡ a)

  settle_cycle-Frozen :
      (stopping : Bool) (a previous p : Array fl.F) (g : Glimpse fl S) (r : Runner fl o)
      → Frozen a r
      → FrozenStep a (settle_cycle fl o S n s stopping previous g (p, r))
  unfolding settle_cycle stopping_step begin_hold moving_step
  settle_cycle-Frozen stopping a previous p g r (an, d, q) =
      if_intro (FrozenStep a) (stopping || r.deviated)
        (λ x. if_intro (FrozenStep a) _ (λ y. ((an, d, q), q)) (λ y. ((an, d, q), q)))
        (λ x. ((an, d, q), q))

  follow-Frozen :
      (stopping : Bool) (a previous : Array fl.F) (g : Glimpse fl S)
      (x : Option (Runner fl o × Effects fl S))
      → FrozenAim a x
      → FrozenCycle a (follow fl o S n s stopping previous g x)
  unfolding follow plan
  follow-Frozen stopping a previous g none f = tt
  follow-Frozen stopping a previous g (some (r, e)) f =
      let (anchor, goal) = r.chart r.aim g.commanded in
      let (p, otg') = o.step (o.set_target (o.set_position r.otg anchor) goal) in
      settle_cycle-Frozen stopping a previous p g (record r { otg = otg' }) f

  held_cycle-Frozen :
      (a : Array fl.F) (r : Runner fl o) (g : Glimpse fl S) (h : Hold fl)
      → Frozen a r
      → FrozenCycle a (some (held_cycle fl o S n s r g h))
  unfolding held_cycle
  held_cycle-Frozen a r g h (an, d, q) = ((an, d, q), q)

  cycle-Frozen :
      (a : Array fl.F) (r : Runner fl o) (g : Glimpse fl S)
      → Frozen a r
      → FrozenCycle a (cycle fl o S n s fuel r g)
  unfolding moving_cycle
  cycle-Frozen a r g f = elim (Option-cases r.hold) [
    | inl h ↦ subst (FrozenCycle a) (sym (cycle-free fl o S n s fuel r g h)) (
        follow-Frozen (r.deviated || g.stop) a r.aim g
          (aim_cycle fl o S n s fuel (r.deviated || g.stop) r g)
          (aim_cycle-Frozen (r.deviated || g.stop) a r g f))
    | inr (hold, h) ↦
        subst (FrozenCycle a) (sym (cycle-held fl o S n s fuel r g hold h))
          (held_cycle-Frozen a r g hold f)
  ]

  -- Once the deviation guard has fired, the target is frozen: every later cycle plans towards the
  -- target of that moment and the guard stays fired, whatever the commander publishes and whatever
  -- the robot measures.
  pub cycle-frozen_target :
      (k : ℕ) (g : ℕ → Glimpse fl S) (r r' : Runner fl o) (step : CycleStep fl)
      → r.anchored ≡ true
      → r.deviated ≡ true
      → Cycled fl o S n s fuel k g r step r'
      → (step.planned ≡ r.aim) × (r'.aim ≡ r.aim) × (r'.deviated ≡ true)
  cycle-frozen_target k g r r' step an d (before, e, run, c) =
      let f =
        run_cycles-keeps fl o S n s fuel (Frozen r.aim) k g r before
          (λ i r1 r2 step' e' c' u'.
            (subst (FrozenCycle r.aim) c' (cycle-Frozen r.aim r1 (g i) u')).0)
          run (an, d, refl) in
      let ((an', d', q), p) = subst (FrozenCycle r.aim) c (cycle-Frozen r.aim before (g k) f) in
      (p, q, d')
