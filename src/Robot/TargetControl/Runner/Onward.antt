-- ===== src/Robot/TargetControl/Runner/Onward.antt =====
-- One cycle of the stop path (crates/franka-rs/src/robot/target_control/runner.rs).
use franka_rs.Common.{
  ℕ, suc, ◌+◌, ◌-◌, ◌^◌, ◌<◌, min, leb, Bool, true, false, not, ◌&&◌, ◌||◌, Option, none, some, ◌≡◌,
  ◌⊎◌, inl, inr, refl, sym, subst, ◌∙◌, arith, if_intro,
}
use franka_rs.Float.{Float}
use franka_rs.Robot.TargetControl.Slot.{Array}
use franka_rs.Robot.TargetControl.Runner.{
  MultiOtg, Runner, Settle, Glimpse, CycleStep, Effects, Cycle, cycle, moving_cycle, aim_cycle,
  poll, adopt, plan, follow, anchor_cycle, settle_cycle, stopping_step, begin_hold, moving_step,
  stop_timeout_cycles, same_array, axes_landed,
}
use franka_rs.Robot.TargetControl.Runner.Runs.{cycle-free}

module _ (fl : Float) (o : MultiOtg fl) (S : Type 0) (n s fuel : ℕ) where
  -- What a new target leaves alone
  abbrev pub Kept : Runner fl o → Runner fl o → Type 0
  Kept r r' = (r'.hold ≡ r.hold) × (r'.stop_cycles ≡ r.stop_cycles) × (r'.settle ≡ r.settle)

  abbrev pub Aimed : Runner fl o → Option (Runner fl o × Effects fl S) → Type 0
  Aimed r none = ⊥
  Aimed r (some (r', e)) = Kept r r'

  poll_first :
      (stopping : Bool) (loads : ℕ → Option (Array fl.F)) (target t : Array fl.F)
      → loads 0 ≡ some t
      → poll fl (suc fuel) stopping loads target ≡ some t
  unfolding poll
  poll_first stopping loads target t h = ground arith

  aim_cycle-Aimed :
      (stopping : Bool) (r : Runner fl o) (g : Glimpse fl S) (t : Array fl.F)
      → g.loads 0 ≡ some t
      → Aimed r (aim_cycle fl o S n s (suc fuel) stopping r g)
  unfolding aim_cycle anchor_cycle
  aim_cycle-Aimed stopping r g t h =
      if_intro (Aimed r) (not r.anchored) (λ a. (refl, refl, refl))
        (λ a.
          if_intro (Aimed r) (not r.deviated && g.strayed) (λ b. (refl, refl, refl))
            (λ b.
              if_intro (Aimed r) (not r.deviated)
                (λ c.
                  subst (λ m. Aimed r (adopt fl o S n s r g m))
                    (sym (poll_first stopping g.loads r.aim t h)) (refl, refl, refl))
                (λ c. (refl, refl, refl))))

  -- What a cycle of the stop path comes to, after `c` of them: the first cycle of the hold, or one
  -- more on the way
  abbrev pub Onward : ℕ → Settle fl → CycleStep fl × Runner fl o → Type 0
  Onward c settle (step, r') =
      ((r'.hold ≡ some (record { held = step.sent_position; sent = 1 }))
        ⊎ (r'.hold ≡ none) × (r'.stop_cycles ≡ c + 1) × (c + 1 < 5000))
      × (step.finished ≡ false)
      × (r'.settle ≡ settle)

  settle_cycle-Onward :
      (previous p : Array fl.F) (g : Glimpse fl S) (r : Runner fl o)
      → r.hold ≡ none
      → Onward r.stop_cycles r.settle (settle_cycle fl o S n s true previous g (p, r))
  unfolding settle_cycle stopping_step begin_hold moving_step stop_timeout_cycles
  settle_cycle-Onward previous p g r h =
      let c : ℕ = min (2 ^ 32 - 1) (r.stop_cycles + 1) in
      let r1 : Runner fl o = record r { stop_cycles = c } in
      if_intro (Onward r.stop_cycles r.settle)
        (((g.blocked && same_array fl s r.aim previous) || axes_landed fl o S n s r.settle r.otg)
          || leb 5000 c)
        (λ a. (inl refl, refl, refl))
        (λ a.
          let late : leb 5000 c ≡ false = ground arith in
          let l : c < 5000 = ground arith in
          (inr (h, omega (arith, l), omega (arith, l)), refl, refl))

  -- The same of a whole cycle
  abbrev pub Moved : Runner fl o → Option (Cycle fl o S n s) → Type 0
  Moved r none = ⊥
  Moved r (some (step, r', e)) = Onward r.stop_cycles r.settle (step, r')

  follow-Moved :
      (r : Runner fl o) (g : Glimpse fl S) (x : Option (Runner fl o × Effects fl S))
      → r.hold ≡ none
      → Aimed r x
      → Moved r (follow fl o S n s true r.aim g x)
  unfolding follow plan
  follow-Moved r g none h a = a
  follow-Moved r g (some (r', e)) h (kh, kc, ks) =
      let (anchor, goal) = r'.chart r'.aim g.commanded in
      let (p, otg') = o.step (o.set_target (o.set_position r'.otg anchor) goal) in
      let r2 : Runner fl o = record r' { otg = otg' } in
      let done : CycleStep fl × Runner fl o = settle_cycle fl o S n s true r.aim g (p, r2) in
      subst (λ c. Onward c r.settle done) kc
        (subst (λ settle. Onward r'.stop_cycles settle done) ks
          (settle_cycle-Onward r.aim p g r2 (kh ∙ h)))

  pub cycle-Moved :
      (r : Runner fl o) (g : Glimpse fl S) (t : Array fl.F)
      → r.hold ≡ none
      → g.stop ≡ true
      → g.loads 0 ≡ some t
      → Moved r (cycle fl o S n s (suc fuel) r g)
  unfolding moving_cycle
  cycle-Moved r g t h st l =
      let stopping : (r.deviated || g.stop) ≡ true = ground arith in
      subst (Moved r) (sym (cycle-free fl o S n s (suc fuel) r g h)) (
        subst (λ b. Moved r (follow fl o S n s b r.aim g (aim_cycle fl o S n s (suc fuel) b r g)))
          (sym stopping)
          (follow-Moved r g (aim_cycle fl o S n s (suc fuel) true r g) h
            (aim_cycle-Aimed true r g t l)))
