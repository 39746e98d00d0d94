-- ===== src/Robot/TargetControl/Tuning/Settling.antt =====
-- When nothing is left to be moved into force
-- (crates/franka-rs/src/robot/target_control/tuning/slew.rs, torque/tuning.rs).
use franka_rs.Common.{
  ℕ, zero, suc, ◌<◌, ◌==◌, Bool, true, false, not, ◌||◌, Option, none, some, ◌≡◌, ◌≢◌, ◌⊎◌, inl,
  inr, refl, sym, ap, subst, ◌∙◌, arith, if_intro, Option-cases,
}
use franka_rs.Float.{Float}
use franka_rs.Robot.TargetControl.Slot.{TargetSlot, Array, Bits, update}
use franka_rs.Robot.TargetControl.Tuning.{LiveTuning, to_words, words_count}
use franka_rs.Robot.TargetControl.Tuning.Slew.{
  SlewGains, LoopTuning, policy, rate_word, goal_of, slewed, slew_words, slew_toward, adopt_targets,
  take_targets, tuning_cycle,
}

module _ (fl : Float) (b : Bits fl.F) (round : (v : fl.F) → b.from_bits (b.to_bits v) ≡ v) where
  same_bits : (x y : fl.F) → (b.to_bits x == b.to_bits y) ≡ true → x ≡ y
  same_bits x y h =
      let e : b.to_bits x ≡ b.to_bits y = ground arith in
      sym (round x) ∙ (ap b.from_bits e ∙ round y)

  -- A word that does not move is at its goal.
  slewed-at_goal :
      (current target gain : fl.F) → slewed fl b current target gain ≡ current → current ≡ target
  unfolding slewed
  slewed-at_goal current target gain =
      let next : fl.F = fl.add current (fl.mul gain (fl.sub target current)) in
      if_intro (λ (x : fl.F). x ≡ current → current ≡ target) (fl.fle (fl.of_ℕ 1) gain)
        (λ h e. sym e)
        (λ h.
          if_intro (λ (x : fl.F). x ≡ current → current ≡ target)
            (b.to_bits next == b.to_bits current) (λ k e. sym e)
            (λ k e.
              absurd (let z : b.to_bits next ≡ b.to_bits current = ap b.to_bits e in ground arith)))

  lt_suc-cases : (i c : ℕ) → i < suc c → (i < c) ⊎ (i ≡ c)
  lt_suc-cases i c p = ground arith

  module _ (gains : SlewGains fl) (before target : Array fl.F) where
    abbrev AtGoal : ℕ → Type 0
    AtGoal w = before w ≡ goal_of fl gains before target (before w) w

    -- While no word has moved, all are as they were, and those gone through at their goals.
    abbrev Unmoved : ℕ → Array fl.F × Bool → Type 0
    Unmoved c (words, moved) =
        moved ≡ false → ((k : ℕ) → words k ≡ before k) × ((w : ℕ) → w < c → AtGoal w)

    Unmoved-suc :
        (c : ℕ) (words : Array fl.F) (moved : Bool) (next : fl.F)
        → next ≡ slewed fl b (words c) (goal_of fl gains before target (words c) c) (gains.gain c)
        → Unmoved c (words, moved)
        → Unmoved
            (suc c)
            (update words c next, moved || not (b.to_bits next == b.to_bits (words c)))
    unfolding update
    Unmoved-suc c words moved next e u h =
        let (same, done) = u (ground arith) in
        let still : next ≡ words c = same_bits next (words c) (ground arith) in
        let here : AtGoal c =
          subst (λ x. x ≡ goal_of fl gains before target x c) (same c)
            (slewed-at_goal (words c) (goal_of fl gains before target (words c) c) (gains.gain c)
              (sym e ∙ still)) in
        (
          λ k.
              if_intro (λ (x : fl.F). x ≡ before k) (k == c)
                (λ t.
                  let q : k ≡ c = ground arith in
                  subst (λ z. next ≡ before z) (sym q) (still ∙ same c))
                (λ t. same k),
          λ w p. elim (lt_suc-cases w c p) [ inl l ↦ done w l | inr q ↦ subst AtGoal (sym q) here ],
        )

    slew_words-Unmoved : (c : ℕ) → Unmoved c (slew_words fl b c gains before target)
    unfolding slew_words
    slew_words-Unmoved zero = λ h. (λ k. refl, λ w p. absurd (omega (arith, p)))
    slew_words-Unmoved (suc c) =
        let (words, moved) = slew_words fl b c gains before target in
        Unmoved-suc c words moved _ refl (slew_words-Unmoved c)

  slew_toward-AtGoal :
      (t target : LiveTuning fl) (gains : SlewGains fl)
      → (slew_toward fl b t target gains).1 ≡ false
      → ((slew_toward fl b t target gains).0 ≡ t)
        × ((w : ℕ) → w < 25 → AtGoal gains (to_words fl t) (to_words fl target) w)
  unfolding slew_toward words_count
  slew_toward-AtGoal t target gains h =
      let (same, at) = slew_words-Unmoved gains (to_words fl t) (to_words fl target) 25 h in
      (ground arith, at)

  adopt_targets-same :
      (q : ℕ) (t : LoopTuning fl b) (words : Option (Array fl.F))
      → ((adopt_targets fl b q t words).current ≡ t.current)
        × ((adopt_targets fl b q t words).gains ≡ t.gains)
  unfolding adopt_targets
  adopt_targets-same q t none = (refl, refl)
  adopt_targets-same q t (some words) = (refl, refl)

  -- What is taken from the slot changes neither the values in force nor the gains.
  take_targets-same :
      (seen : ℕ → TargetSlot) (t : LoopTuning fl b)
      → ((take_targets fl b seen t).current ≡ t.current)
        × ((take_targets fl b seen t).gains ≡ t.gains)
  unfolding take_targets
  take_targets-same seen t =
      if_intro (λ (x : LoopTuning fl b). (x.current ≡ t.current) × (x.gains ≡ t.gains))
        ((seen 0).sequence == t.sequence) (λ h. (refl, refl))
        (λ h. adopt_targets-same (seen 0).sequence t _)

  module _ (max_one : (x y : fl.F) → (fl.fmax x y ≡ x) ⊎ (fl.fmax x y ≡ y)) (gains : SlewGains fl)
      (words target : Array fl.F)
      (descends : (w rate : ℕ)
        → rate_word (policy w) ≡ some rate
        → fl.sub (words w) (fl.mul (words rate) gains.dt) ≢ words w) where
    abbrev goal_by : ℕ → Option ℕ → fl.F
    goal_by w o = elim o [
      | some rate ↦ fl.fmax (target w) (fl.sub (words w) (fl.mul (words rate) gains.dt))
      | none ↦ target w
    ]

    -- A word at its goal is at its target, if a gated word can go down.
    goal-target : (w : ℕ) → words w ≡ goal_of fl gains words target (words w) w → words w ≡ target w
    unfolding goal_of
    goal-target w h = elim (Option-cases (rate_word (policy w))) [
      | inl e ↦ h ∙ ap (goal_by w) e
      | inr (rate, e) ↦
          let down : fl.F = fl.sub (words w) (fl.mul (words rate) gains.dt) in
          let g : words w ≡ fl.fmax (target w) down = h ∙ ap (goal_by w) e in
          elim (max_one (target w) down) [
            | inl l ↦ g ∙ l
            | inr r ↦ absurd (descends w rate e (sym (g ∙ r)))
          ]
    ]

  -- A cycle of live tuning that reports that nothing has moved leaves the values in force as they
  -- were, and they are the last targets taken from the slot, word for word. This is of doubles that
  -- pass through their bits unchanged and whose `max` is one of its arguments, where the rate of a
  -- gated word in force is not too small to lower the word.
  pub tuning_cycle-settled :
      (seen : ℕ → TargetSlot) (t : LoopTuning fl b)
      → ((x y : fl.F) → (fl.fmax x y ≡ x) ⊎ (fl.fmax x y ≡ y))
      → ((w rate : ℕ)
          → rate_word (policy w) ≡ some rate
          → fl.sub (to_words fl t.current w) (fl.mul (to_words fl t.current rate) t.gains.dt)
            ≢ to_words fl t.current w)
      → (tuning_cycle fl b seen t).1 ≡ false
      → ((tuning_cycle fl b seen t).0.current ≡ t.current)
        × ((w : ℕ)
            → w < 25
            → to_words fl t.current w ≡ to_words fl (tuning_cycle fl b seen t).0.target w)
  unfolding tuning_cycle
  tuning_cycle-settled seen t max_one descends h =
      let t' : LoopTuning fl b = take_targets fl b seen t in
      let (c, g) = take_targets-same seen t in
      let (same, at) = slew_toward-AtGoal t'.current t'.target t'.gains h in
      (
        same ∙ c,
        λ w l.
            let at' =
              subst
                (λ (x : SlewGains fl). AtGoal x (to_words fl t.current) (to_words fl t'.target) w) g
                (subst
                  (λ (x : LiveTuning fl). AtGoal t'.gains (to_words fl x) (to_words fl t'.target) w)
                  c (at w l)) in
            goal-target max_one t.gains (to_words fl t.current) (to_words fl t'.target) descends w
              at',
      )
