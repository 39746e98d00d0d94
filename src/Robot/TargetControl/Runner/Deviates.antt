-- ===== src/Robot/TargetControl/Runner/Deviates.antt =====
-- What ends a motion that nobody asked to stop
-- (crates/franka-rs/src/robot/target_control/runner.rs).
use franka_rs.Common.{
  ℕ, Bool, true, false, not, ◌&&◌, ◌||◌, Option, none, some, ok, err, ◌≡◌, ◌⊎◌, inl, inr, refl, sym,
  subst, ◌∙◌, arith, if_intro, Option-cases, Bool-cases,
}
use franka_rs.Float.{Float}
use franka_rs.Robot.TargetControl.Slot.{Array}
use franka_rs.Robot.TargetControl.Runner.{
  MultiOtg, Runner, Hold, Glimpse, CycleStep, Effects, Cycle, deviation, cycle, held_cycle,
  moving_cycle, aim_cycle, poll, adopt, plan, follow, anchor_cycle, settle_cycle, stopping_step,
  begin_hold, moving_step, finish,
}
use franka_rs.Robot.TargetControl.Runner.Runs.{Cycled, cycle-free, cycle-held, run_cycles-keeps}

module _ (fl : Float) (o : MultiOtg fl) (S : Type 0) (n s fuel : ℕ) where
  -- A hold is the guard's doing.
  abbrev Unasked : Runner fl o → Type 0
  Unasked r = (r.hold ≡ none) ⊎ (r.deviated ≡ true)

  -- A new target keeps the hold, and the guard once it has fired.
  abbrev Aimed : Runner fl o → Option (Runner fl o × Effects fl S) → Type 0
  Aimed r none = Unit {0}
  Aimed r (some (r', e)) = (r'.hold ≡ r.hold) × (r.deviated ≡ true → r'.deviated ≡ true)

  adopt-Aimed :
      (r : Runner fl o) (g : Glimpse fl S) (t : Option (Array fl.F))
      → Aimed r (adopt fl o S n s r g t)
  unfolding adopt
  adopt-Aimed r g none = tt
  adopt-Aimed r g (some t) = (refl, λ d. d)

  aim_cycle-Aimed :
      (stopping : Bool) (r : Runner fl o) (g : Glimpse fl S)
      → Aimed r (aim_cycle fl o S n s fuel stopping r g)
  unfolding aim_cycle anchor_cycle
  aim_cycle-Aimed stopping r g =
      if_intro (Aimed r) (not r.anchored) (λ a. (refl, λ d. d))
        (λ a.
          if_intro (Aimed r) (not r.deviated && g.strayed) (λ b. (refl, λ d. refl))
            (λ b.
              if_intro (Aimed r) (not r.deviated)
                (λ c. adopt-Aimed r g (poll fl fuel stopping g.loads r.aim)) (λ c. (refl, λ d. d))))

  -- What a cycle leaves: a finished motion is the guard's doing.
  abbrev Left : CycleStep fl × Runner fl o → Type 0
  Left (step, r) = Unasked r × (step.finished ≡ true → r.deviated ≡ true)

  settle_cycle-Left :
      (stopping : Bool) (previous p : Array fl.F) (g : Glimpse fl S) (r : Runner fl o)
      → r.hold ≡ none
      → (stopping ≡ true → r.deviated ≡ true)
      → Left (settle_cycle fl o S n s stopping previous g (p, r))
  unfolding settle_cycle stopping_step begin_hold moving_step
  settle_cycle-Left stopping previous p g r h asked =
      if_intro Left (stopping || r.deviated)
        (λ a.
          let d : r.deviated ≡ true = elim (Bool-cases stopping) [
            | inl t ↦ asked t
            | inr f ↦ ground arith
          ] in
          if_intro Left _ (λ b. (inr d, λ f. d)) (λ b. (inl h, λ f. d)))
        (λ a. (inl h, λ f. absurd (ground arith)))

  abbrev Ended : Option (Cycle fl o S n s) → Type 0
  Ended none = Unit {0}
  Ended (some (step, r, e)) = Left (step, r)

  follow-Ended :
      (stopping : Bool) (r : Runner fl o) (g : Glimpse fl S)
      (x : Option (Runner fl o × Effects fl S))
      → r.hold ≡ none
      → (stopping ≡ true → r.deviated ≡ true)
      → Aimed r x
      → Ended (follow fl o S n s stopping r.aim g x)
  unfolding follow plan
  follow-Ended stopping r g none h asked a = tt
  follow-Ended stopping r g (some (r', e)) h asked (kept, still) =
      let (anchor, goal) = r'.chart r'.aim g.commanded in
      let (p, otg') = o.step (o.set_target (o.set_position r'.otg anchor) goal) in
      settle_cycle-Left stopping r.aim p g (record r' { otg = otg' }) (kept ∙ h)
        (λ t. still (asked t))

  held_cycle-Left :
      (r : Runner fl o) (g : Glimpse fl S) (h : Hold fl)
      → r.hold ≡ some h
      → Unasked r
      → Ended (some (held_cycle fl o S n s r g h))
  unfolding held_cycle
  held_cycle-Left r g h e (inl free) = absurd (ground arith)
  held_cycle-Left r g h e (inr d) = (inr d, λ f. d)

  cycle-Ended :
      (r : Runner fl o) (g : Glimpse fl S)
      → g.stop ≡ false
      → Unasked r
      → Ended (cycle fl o S n s fuel r g)
  unfolding moving_cycle
  cycle-Ended r g st u = elim (Option-cases r.hold) [
    | inl h ↦ subst Ended (sym (cycle-free fl o S n s fuel r g h)) (
        follow-Ended (r.deviated || g.stop) r g
          (aim_cycle fl o S n s fuel (r.deviated || g.stop) r g) h (λ t. ground arith)
          (aim_cycle-Aimed (r.deviated || g.stop) r g))
    | inr (hold, h) ↦
        subst Ended (sym (cycle-held fl o S n s fuel r g hold h)) (held_cycle-Left r g hold h u)
  ]

  cycle-Left :
      (r r' : Runner fl o) (g : Glimpse fl S) (step : CycleStep fl) (e : Effects fl S)
      → g.stop ≡ false
      → cycle fl o S n s fuel r g ≡ some (step, r', e)
      → Unasked r
      → Left (step, r')
  cycle-Left r r' g step e st c u = subst Ended c (cycle-Ended r g st u)

  -- A motion that nobody asked to stop: where the stop flag was never set and nothing was held at
  -- first, a cycle that finishes the motion is the deviation guard's doing, and the loop's regular
  -- end is turned into the guard's error.
  pub finish-deviation :
      {E : Type 0} (k : ℕ) (g : ℕ → Glimpse fl S) (r r' : Runner fl o) (step : CycleStep fl)
      → r.hold ≡ none
      → ((i : ℕ) → (g i).stop ≡ false)
      → Cycled fl o S n s fuel k g r step r'
      → step.finished ≡ true
      → finish fl {E = E} r' (ok tt) ≡ err deviation
  unfolding finish
  finish-deviation k g r r' step free st (before, e, run, c) f =
      let u =
        run_cycles-keeps fl o S n s fuel Unasked k g r before
          (λ i r1 r2 step' e' c' u'. (cycle-Left r1 r2 (g i) step' e' (st i) c' u').0) run
          (inl free) in
      let (kept, d) = cycle-Left before r' (g k) step e (st k) c u in
      let fired : r'.deviated ≡ true = d f in ground arith
