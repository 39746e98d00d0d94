-- ===== src/Robot/TargetControl/Tuning/Accepts.antt =====
-- The bounds that an accepted update leaves the tuning in
-- (crates/franka-rs/src/robot/target_control/tuning).
use franka_rs.Common.{
  ℕ, ◌+◌, ◌<◌, Bool-cases, Result-cases, true, false, Option, none, some, List, ok, ◌≡◌, inl, inr,
  refl, sym, ap, subst, ◌∙◌, arith, if_intro, if_true,
}
use franka_rs.Float.{Float}
use franka_rs.Robot.TargetControl.Slot.{Array, Bits}
use franka_rs.Robot.TargetControl.Tuning.{
  LiveTuning, TuningUpdate, clamp, over_ceiling, bounds, carried, overlay, to_words, from_words,
  row_low, row_high, damping_low, damping_high, joint_damping_floor, clamp_words, check_words,
  apply_update, words_count,
}
use franka_rs.Robot.TargetControl.Tuning.Gate.{
  clamp-within, word-cases, to_words-from_words, Grouped, clamp_words-Grouped, either,
}
use franka_rs.Robot.TargetControl.Tuning.Overlay.{overlay_uncarried}
use franka_rs.Robot.TargetControl.Tuning.Finite.{Finite, Sound, check_words-Sound, words-Finite}

module _ (fl : Float) where
  module _ (b : Bits fl.F) (round : (v : fl.F) → b.from_bits (b.to_bits v) ≡ v)
      (u : TuningUpdate fl) where
    -- What an accepted update leaves: the overlaid words through the three loops
    apply_update-words :
        (t t' : LiveTuning fl) (clamped : List ℕ)
        → apply_update fl b t u ≡ ok (t', clamped)
        → from_words fl (clamp_words fl b u (to_words fl (overlay fl u t))).0 ≡ t'
    unfolding apply_update
    apply_update-words t t' clamped h =
        elim (Result-cases (check_words fl b words_count u (to_words fl (overlay fl u t)))) [
          | inl (done, e) ↦ ground arith
          | inr (r, e) ↦ absurd (ground arith)
        ]

    -- An accepted update has passed the first loop.
    apply_update-checked :
        (t t' : LiveTuning fl) (clamped : List ℕ)
        → apply_update fl b t u ≡ ok (t', clamped)
        → check_words fl b 25 u (to_words fl (overlay fl u t)) ≡ ok tt
    unfolding apply_update words_count
    apply_update-checked t t' clamped h =
        elim (Result-cases (check_words fl b 25 u (to_words fl (overlay fl u t)))) [
          | inl (tt, e) ↦ e
          | inr (r, e) ↦ absurd (ground arith)
        ]

    -- The word of an accepted update, as the loops leave it
    pub apply_update-word :
        (t t' : LiveTuning fl) (clamped : List ℕ) (w : ℕ)
        → apply_update fl b t u ≡ ok (t', clamped)
        → (clamp_words fl b u (to_words fl (overlay fl u t))).0 w ≡ to_words fl t' w
    apply_update-word t t' clamped w h =
        sym (to_words-from_words fl (clamp_words fl b u (to_words fl (overlay fl u t))).0 w)
        ∙ ap (λ x. to_words fl x w) (apply_update-words t t' clamped h)

    -- The comparisons of doubles that the gate relies on
    module _ (irr : (v : fl.F) → fl.flt v v ≡ false)
        (max_left : (v x y : fl.F) → fl.flt v x ≡ true → fl.flt v (fl.fmax x y) ≡ true)
        (max_right : (v x y : fl.F) → fl.flt v y ≡ true → fl.flt v (fl.fmax x y) ≡ true)
        (rows : (w : ℕ) → w < 25 → fl.flt (bounds fl w).max (bounds fl w).min ≡ false)
        (floors : (words : Array fl.F) (j : ℕ)
          → j < 7
          → fl.flt (bounds fl (7 + j)).max (damping_low fl words j) ≡ false) where
      -- Within the row of the word `w`
      abbrev pub InRow : ℕ → fl.F → Type 0
      InRow w x = (fl.flt x (bounds fl w).min ≡ false) × (fl.flt (bounds fl w).max x ≡ false)

      row-InRow :
          (w : ℕ) (x y : fl.F)
          → w < 25
          → y ≡ clamp fl (bounds fl w).min (some (bounds fl w).max) x
          → InRow w y
      unfolding over_ceiling
      row-InRow w x y l e =
          subst (InRow w) (sym e)
            (clamp-within fl (bounds fl w).min x (some (bounds fl w).max) irr (rows w l))

      -- Not under the larger of two floors: under neither
      over_both :
          (v x y : fl.F)
          → fl.flt v (fl.fmax x y) ≡ false
          → (fl.flt v x ≡ false) × (fl.flt v y ≡ false)
      over_both v x y h = (
        elim (Bool-cases (fl.flt v x)) [
          | inl t ↦ absurd (let bad = max_left v x y t in ground arith)
          | inr f ↦ f
        ],
        elim (Bool-cases (fl.flt v y)) [
          | inl t ↦ absurd (let bad = max_right v x y t in ground arith)
          | inr f ↦ f
        ],
      )

      -- The floor that the spring of a joint puts under its damping
      abbrev pub spring_floor : ℕ → fl.F → fl.F
      spring_floor j stiffness =
          joint_damping_floor fl (clamp fl (bounds fl j).min (some (bounds fl j).max) stiffness)

      -- The damping of a joint whose pair the update touches
      abbrev DampedIn : Array fl.F → ℕ → Type 0
      DampedIn words' j =
          (fl.flt (words' (7 + j)) (spring_floor j (words' j)) ≡ false)
          × (fl.flt (words' (7 + j)) (bounds fl (7 + j)).min ≡ false)
          × (carried fl u (7 + j) ≡ true → fl.flt (bounds fl (7 + j)).max (words' (7 + j)) ≡ false)

      ceiling :
          (words : Array fl.F) (j : ℕ)
          → j < 7
          → over_ceiling fl (damping_high fl u j) (damping_low fl words j) ≡ false
      unfolding over_ceiling damping_high
      ceiling words j l =
          if_intro (λ (h : Option fl.F). over_ceiling fl h (damping_low fl words j) ≡ false)
            (carried fl u (7 + j)) (λ c. floors words j l) (λ c. refl)

      carried_ceiling :
          (j : ℕ) (x : fl.F)
          → over_ceiling fl (damping_high fl u j) x ≡ false
          → carried fl u (7 + j) ≡ true
          → fl.flt (bounds fl (7 + j)).max x ≡ false
      unfolding over_ceiling damping_high
      carried_ceiling j x h c =
          sym (
            ap (λ z. over_ceiling fl z x)
              (if_true (carried fl u (7 + j)) (some (bounds fl (7 + j)).max) none c))
          ∙ h

      damped-DampedIn :
          (words words' : Array fl.F) (j : ℕ)
          → Grouped fl b round u words words'
          → j < 7
          → either fl b round u j ≡ true
          → DampedIn words' j
      unfolding damping_low
      damped-DampedIn words words' j (one, two, three) l h =
          let x : fl.F = words (7 + j) in
          let low : fl.F = damping_low fl words' j in
          let high : Option fl.F = damping_high fl u j in
          let e : words' (7 + j) ≡ clamp fl low high x =
            two j l ∙ if_true (either fl b round u j) (clamp fl low high x) x h in
          let (a, c) = clamp-within fl low x high irr (ceiling words' j l) in
          let (f, m) = over_both (clamp fl low high x) _ _ a in
          (
            subst (λ v. fl.flt v (spring_floor j (words' j)) ≡ false) (sym e) f,
            subst (λ v. fl.flt v (bounds fl (7 + j)).min ≡ false) (sym e) m,
            λ k.
                subst (λ v. fl.flt (bounds fl (7 + j)).max v ≡ false) (sym e)
                  (carried_ceiling j _ c k),
          )

      words-InRow :
          (words words' : Array fl.F) (w : ℕ)
          → Grouped fl b round u words words'
          → w < 25
          → carried fl u w ≡ true
          → InRow w (words' w)
      unfolding row_low row_high
      words-InRow words words' w groups l c =
          let (one, two, three) = groups in
          elim (word-cases fl w l) [
            | inl p ↦
                let z : 0 + w ≡ w = omega arith in
                subst (λ k. InRow k (words' k)) z
                  (row-InRow (0 + w) (words (0 + w)) (words' (0 + w)) (omega (arith, l))
                    (one w p ∙ if_true (carried fl u w) _ _ c))
            | inr (inl (j, p, e)) ↦
                let k = subst (λ x. carried fl u x ≡ true) e c in
                let (f, m, h) = damped-DampedIn words words' j groups p (ground arith) in
                subst (λ x. InRow x (words' x)) (sym e) (m, h k)
            | inr (inr (i, p, e)) ↦
                let k = subst (λ x. carried fl u x ≡ true) e c in
                subst (λ x. InRow x (words' x)) (sym e)
                  (row-InRow (14 + i) (words (14 + i)) (words' (14 + i)) (omega (arith, p))
                    (three i p ∙ if_true (carried fl u (14 + i)) _ _ k))
          ]

      -- An accepted update carries finite values only, and positive ones where the table asks for
      -- that. It leaves every word that it carries finite and within the row of the table that the
      -- gate publishes, every other word finite that was, and the damping of every joint whose
      -- stiffness or damping it carries not under the floor that the joint's stiffness puts under it.
      -- This is of doubles that pass through their bits unchanged, with no double less than itself,
      -- `max` not under its arguments, and the table's limits and floors finite and in order.
      pub apply_update-bounded :
          (limits : (w : ℕ) → w < 25 → Finite fl (bounds fl w).min × Finite fl (bounds fl w).max)
          (finite_floors : (words : Array fl.F) (j : ℕ)
            → j < 7
            → Finite fl (damping_low fl words j))
          (t t' : LiveTuning fl) (clamped : List ℕ)
          → apply_update fl b t u ≡ ok (t', clamped)
          → ((w : ℕ)
              → w < 25
              → carried fl u w ≡ true
              → Sound fl w (to_words fl (overlay fl u t) w)
                × Finite fl (to_words fl t' w)
                × InRow w (to_words fl t' w))
            × ((w : ℕ) → w < 25 → Finite fl (to_words fl t w) → Finite fl (to_words fl t' w))
            × ((j : ℕ)
                → j < 7
                → either fl b round u j ≡ true
                → fl.flt (to_words fl t' (7 + j)) (spring_floor j (to_words fl t' j)) ≡ false)
      apply_update-bounded limits finite_floors t t' clamped h =
          let words : Array fl.F = to_words fl (overlay fl u t) in
          let words' : Array fl.F = (clamp_words fl b u words).0 in
          let same : (w : ℕ) → words' w ≡ to_words fl t' w =
            λ w. apply_update-word t t' clamped w h in
          let groups : Grouped fl b round u words words' = clamp_words-Grouped fl b round u words in
          let sound : (w : ℕ) → w < 25 → carried fl u w ≡ true → Sound fl w (words w) =
            check_words-Sound fl b 25 u words (apply_update-checked t t' clamped h) in
          let finite : (w : ℕ) → w < 25 → Finite fl (words w) → Finite fl (to_words fl t' w) =
            λ w l f.
              subst (Finite fl) (same w)
                (words-Finite fl b round u words words' limits finite_floors groups w l f) in
          (
            λ w l c. (
              sound w l c,
              finite w l (sound w l c).0,
              subst (InRow w) (same w) (words-InRow words words' w groups l c),
            ),
            λ w l f. elim (Bool-cases (carried fl u w)) [
              | inl c ↦ finite w l (sound w l c).0
              | inr c ↦ finite w l (subst (Finite fl) (sym (overlay_uncarried fl u t w c)) f)
            ],
            λ j l c.
                let (f, m, r) = damped-DampedIn words words' j groups l c in
                subst (λ v. fl.flt v (spring_floor j (to_words fl t' j)) ≡ false) (same (7 + j))
                  (subst (λ v. fl.flt (words' (7 + j)) (spring_floor j v) ≡ false) (same j) f),
          )
