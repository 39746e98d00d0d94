-- ===== src/Robot/TargetControl/Runner/Runs.antt =====
-- Cycles in a row, and the ones that hold the last command
-- (crates/franka-rs/src/robot/target_control/runner.rs).
use franka_rs.Common.{
  ℕ, zero, suc, ◌+◌, ◌%◌, ◌^◌, ◌<◌, ltb, Bool, Option-cases, inl, inr, true, Option, none, some,
  ◌≡◌, refl, sym, ap, subst, ◌∙◌, arith,
}
use franka_rs.Float.{Float}
use franka_rs.Robot.TargetControl.Runner.{
  MultiOtg, Runner, Hold, Glimpse, CycleStep, Effects, Cycle, cycle, moving_cycle, shown,
  held_cycle, zeros,
}

module _ (fl : Float) (o : MultiOtg fl) (S : Type 0) (n s fuel : ℕ) where
  -- A cycle where nothing is held yet
  pub cycle-free :
      (r : Runner fl o) (g : Glimpse fl S)
      → r.hold ≡ none
      → cycle fl o S n s fuel r g ≡ moving_cycle fl o S n s fuel r g
  unfolding cycle
  cycle-free r g h =
      ap
        (λ (m : Option (Hold fl)). elim m [
          | some h ↦ some (held_cycle fl o S n s r g h)
          | none ↦ moving_cycle fl o S n s fuel r g
        ])
        h

  pub cycle-held :
      (r : Runner fl o) (g : Glimpse fl S) (h : Hold fl)
      → r.hold ≡ some h
      → cycle fl o S n s fuel r g ≡ some (held_cycle fl o S n s r g h)
  unfolding cycle
  cycle-held r g h e =
      ap
        (λ (m : Option (Hold fl)). elim m [
          | some h ↦ some (held_cycle fl o S n s r g h)
          | none ↦ moving_cycle fl o S n s fuel r g
        ])
        e

  -- The runner after `k` cycles
  unfoldable pub run_cycles : ℕ → (ℕ → Glimpse fl S) → Runner fl o → Option (Runner fl o)
  run_cycles zero g r = some r
  run_cycles (suc k) g r = elim (cycle fl o S n s fuel r (g 0)) [
    | none ↦ none
    | some (step, r', e) ↦ run_cycles k (λ j. g (suc j)) r'
  ]

  abbrev rest_of : ℕ → (ℕ → Glimpse fl S) → Option (Cycle fl o S n s) → Option (Runner fl o)
  rest_of k g none = none
  rest_of k g (some (step, r', e)) = run_cycles k (λ j. g (suc j)) r'

  run_cycles-rest :
      (k : ℕ) (g : ℕ → Glimpse fl S) (r : Runner fl o) (x : Option (Cycle fl o S n s))
      → cycle fl o S n s fuel r (g 0) ≡ x
      → run_cycles (suc k) g r ≡ rest_of k g x
  unfolding run_cycles
  run_cycles-rest k g r x c = ap (rest_of k g) c

  pub run_cycles-step :
      (k : ℕ) (g : ℕ → Glimpse fl S) (r r1 : Runner fl o) (step : CycleStep fl) (e : Effects fl S)
      → cycle fl o S n s fuel r (g 0) ≡ some (step, r1, e)
      → run_cycles (suc k) g r ≡ run_cycles k (λ j. g (suc j)) r1
  run_cycles-step k g r r1 step e c = run_cycles-rest k g r (some (step, r1, e)) c

  -- The cycle that follows `k` others, as `cycle` gives it
  abbrev pub Cycled : ℕ → (ℕ → Glimpse fl S) → Runner fl o → CycleStep fl → Runner fl o → Type 0
  Cycled k g r step r' =
      (before : Runner fl o) × (e : Effects fl S) × (run_cycles k g r ≡ some before)
      × (cycle fl o S n s fuel before (g k) ≡ some (step, r', e))

  pub Cycled-suc :
      (k : ℕ) (g : ℕ → Glimpse fl S) (r r1 r' : Runner fl o) (step0 step : CycleStep fl)
      (e0 : Effects fl S)
      → cycle fl o S n s fuel r (g 0) ≡ some (step0, r1, e0)
      → Cycled k (λ j. g (suc j)) r1 step r'
      → Cycled (suc k) g r step r'
  Cycled-suc k g r r1 r' step0 step e0 c (before, e, p, q) =
      (before, e, run_cycles-step k g r r1 step0 e0 c ∙ p, q)

  -- A runner that holds `h`, after `j` more cycles
  abbrev pub holding : Runner fl o → Hold fl → ℕ → Runner fl o
  holding r h j = record r { hold = some (record h { sent = h.sent + j }) }

  -- What such a cycle sends
  abbrev pub held_step : Runner fl o → Hold fl → Bool → CycleStep fl
  held_step r h done = record {
    sent_position = h.held;
    sent_velocity = zeros fl;
    sent_acceleration = zeros fl;
    planned = r.aim;
    is_hold = true;
    finished = done;
  }

  held_cycle-step :
      (r : Runner fl o) (h : Hold fl) (g : Glimpse fl S) (j : ℕ)
      → h.sent + suc j < 2 ^ 32
      → (e : Effects fl S) × (cycle fl o S n s fuel (holding r h j) g
          ≡ some (held_step r h (ltb r.settle.cycles (h.sent + suc j)), holding r h (suc j), e))
  unfolding cycle held_cycle
  held_cycle-step r h g j l =
      let w : (h.sent + j + 1) % 2 ^ 32 ≡ h.sent + suc j = omega (arith, l) in
      (
        shown fl o S n s g,
        ap
            (λ m. some (
              held_step r h (ltb r.settle.cycles m),
              record r { hold = some (record h { sent = m }) },
              shown fl o S n s g,
            ))
            w,
      )

  -- From the first cycle of a hold on, every cycle sends the same command again, and the motion
  -- is finished when it has been sent more than `settle.cycles` times.
  pub holding-Cycled :
      (k j m : ℕ) (g : ℕ → Glimpse fl S) (r : Runner fl o) (h : Hold fl)
      → m ≡ j + suc k
      → h.sent + m < 2 ^ 32
      → Cycled k g
          (holding r h j)
          (held_step r h (ltb r.settle.cycles (h.sent + m)))
          (holding r h m)
  unfolding run_cycles
  holding-Cycled zero j m g r h q l =
      let (e, c) = held_cycle-step r h (g 0) j (omega (arith, l, q)) in
      let q' : suc j ≡ m = omega (arith, q) in
      subst
        (λ x.
          Cycled zero g (holding r h j) (held_step r h (ltb r.settle.cycles (h.sent + x)))
            (holding r h x))
        q' (holding r h j, e, refl, c)
  holding-Cycled (suc k) j m g r h q l =
      let (e, c) = held_cycle-step r h (g 0) j (omega (arith, l, q)) in
      Cycled-suc k g (holding r h j) (holding r h (suc j)) (holding r h m) _ _ e c
        (holding-Cycled k (suc j) m (λ i. g (suc i)) r h (omega (arith, q)) l)

  -- What every cycle keeps, a run keeps.
  module _ (P : Runner fl o → Type 0) where
    abbrev Keeps : Glimpse fl S → Type 0
    Keeps g =
        (r r' : Runner fl o) (step : CycleStep fl) (e : Effects fl S)
        → cycle fl o S n s fuel r g ≡ some (step, r', e)
        → P r
        → P r'

    pub run_cycles-keeps :
        (k : ℕ) (g : ℕ → Glimpse fl S) (r r' : Runner fl o)
        → ((i : ℕ) → Keeps (g i))
        → run_cycles k g r ≡ some r'
        → P r
        → P r'
    unfolding run_cycles
    run_cycles-keeps zero g r r' keeps q p = let e : r ≡ r' = cc in subst P e p
    run_cycles-keeps (suc k) g r r' keeps q p =
        elim (Option-cases (cycle fl o S n s fuel r (g 0))) [
          | inl c ↦ absurd (let no = sym (run_cycles-rest k g r none c) ∙ q in ground arith)
          | inr ((step, r1, e), c) ↦
              run_cycles-keeps k (λ i. g (suc i)) r1 r' (λ i. keeps (suc i))
                (sym (run_cycles-step k g r r1 step e c) ∙ q) (keeps 0 r r1 step e c p)
        ]
