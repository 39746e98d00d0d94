-- ===== src/Robot/TargetControl/Tuning/Gate.antt =====
-- What the loops of an update leave of each word
-- (crates/franka-rs/src/robot/target_control/tuning).
use franka_rs.Common.{
  ℕ, ◌+◌, ◌-◌, ◌<◌, Bool-cases, ltb, Bool, false, ◌||◌, Option, none, some, [], ◌≡◌, ◌⊎◌, inl, inr,
  refl, sym, ap, ◌∙◌, arith, if_intro, if◌then◌else◌,
}
use franka_rs.Float.{Float}
use franka_rs.Robot.TargetControl.Slot.{Array, Bits}
use franka_rs.Robot.TargetControl.Tuning.{
  TuningUpdate, Scratch, clamp, over_ceiling, ceiling_or, bounds, carried, to_words, from_words,
  snap_all, row_low, row_high, damping_low, damping_high, joint_damping_floor, clamp_words,
  words_count,
}
use franka_rs.Robot.TargetControl.Tuning.Passes.{Passed, passed_word, Steady, snap_all-Passed}

module _ (fl : Float) where
  ap2 : {A B C : Type 0} (f : A → B → C) {x x' : A} {y y' : B} → x ≡ x' → y ≡ y' → f x y ≡ f x' y'
  ap2 f p q = cc

  -- A clamped value is not under the floor and not over the ceiling, if these are ordered.
  pub clamp-within :
      (low x : fl.F) (high : Option fl.F)
      → ((v : fl.F) → fl.flt v v ≡ false)
      → over_ceiling fl high low ≡ false
      → (fl.flt (clamp fl low high x) low ≡ false)
        × (over_ceiling fl high (clamp fl low high x) ≡ false)
  unfolding clamp over_ceiling ceiling_or
  clamp-within low x none irr ordered =
      if_intro (λ (y : fl.F). (fl.flt y low ≡ false) × (false ≡ false)) (fl.flt x low)
        (λ h. (irr low, refl)) (λ h. (h, refl))
  clamp-within low x (some high) irr ordered =
      let Within : fl.F → Type 0 = λ y. (fl.flt y low ≡ false) × (fl.flt high y ≡ false) in
      if_intro Within (fl.flt x low) (λ h. (irr low, ordered))
        (λ h. if_intro Within (fl.flt high x) (λ k. (ordered, irr high)) (λ k. (h, k)))

  -- The three groups of words
  pub word-cases :
      (w : ℕ)
      → w < 25
      → (w < 7) ⊎ ((j : ℕ) × (j < 7) × (w ≡ 7 + j)) ⊎ ((i : ℕ) × (i < 11) × (w ≡ 14 + i))
  word-cases w l = elim (Bool-cases (ltb w 7)) [
    | inl t ↦ inl (ground arith)
    | inr f ↦ elim (Bool-cases (ltb w 14)) [
      | inl t ↦ inr (inl (w - 7, ground arith, ground arith))
      | inr g ↦ inr (inr (w - 14, ground arith, ground arith))
    ]
  ]

  -- The words of a tuning and back
  pub to_words-from_words :
      (words : Array fl.F) (w : ℕ) → to_words fl (from_words fl words) w ≡ words w
  unfolding to_words from_words
  to_words-from_words words w = ground arith

  module _ (b : Bits fl.F) (round : (v : fl.F) → b.from_bits (b.to_bits v) ≡ v)
      (u : TuningUpdate fl) where
    -- The words after each of the loops
    abbrev pub stiff : Array fl.F → Scratch fl
    stiff words = snap_all fl b 7 0 (carried fl u) (row_low fl 0) (row_high fl 0) (words, [])

    abbrev pub either : ℕ → Bool
    either j = carried fl u j || carried fl u (7 + j)

    abbrev pub damped : Array fl.F → Scratch fl
    damped words = snap_all fl b 7 7 either (damping_low fl) (damping_high fl u) (stiff words)

    rows-Steady :
        (first count : ℕ) (keep : ℕ → Bool) (high : ℕ → Option fl.F)
        → Steady fl b round first keep (row_low fl first) high count
    unfolding row_low
    rows-Steady first count keep high words words' i l h = refl

    damping-Steady : Steady fl b round 7 either (damping_low fl) (damping_high fl u) 7
    unfolding damping_low
    damping-Steady words words' i l h =
        ap
          (λ x.
            fl.fmax (joint_damping_floor fl (clamp fl (bounds fl i).min (some (bounds fl i).max) x))
              (bounds fl (7 + i)).min)
          (h i (λ j p q. omega (arith, l, q)))

    -- The words of the three groups at the end: the stiffnesses, the dampings, the others
    abbrev pub Grouped : Array fl.F → Array fl.F → Type 0
    Grouped words words' =
        ((j : ℕ)
          → j < 7
          → words' (0 + j)
            ≡ passed_word fl b round 0 (carried fl u) (row_low fl 0) (row_high fl 0) words j)
        × ((j : ℕ)
            → j < 7
            → words' (7 + j)
              ≡ passed_word fl b round 7 either (λ v. damping_low fl words') (damping_high fl u)
                  words j)
        × ((i : ℕ)
            → i < 11
            → words' (14 + i)
              ≡ passed_word fl b round 14 (λ i. carried fl u (14 + i)) (row_low fl 14)
                  (row_high fl 14) words i)

    -- The floor of a damping is one of the words before it.
    damping_low-same :
        (v w : Array fl.F) (j : ℕ) → v j ≡ w j → damping_low fl v j ≡ damping_low fl w j
    unfolding damping_low
    damping_low-same v w j e =
        ap
          (λ x.
            fl.fmax (joint_damping_floor fl (clamp fl (bounds fl j).min (some (bounds fl j).max) x))
              (bounds fl (7 + j)).min)
          e

    three-Grouped :
        (words : Array fl.F) (s1 s2 s3 : Scratch fl)
        → Passed fl b round 0 (carried fl u) (row_low fl 0) (row_high fl 0) 7 words s1
        → Passed fl b round 7 either (damping_low fl) (damping_high fl u) 7 s1.0 s2
        → Passed fl b round 14
            (λ i. carried fl u (14 + i))
            (row_low fl 14)
            (row_high fl 14)
            11
            s2.0
            s3
        → Grouped words s3.0
    unfolding row_low
    three-Grouped words s1 s2 s3 (one, off1) (two, off2) (three, off3) = (
      λ j p.
          off3 (0 + j) (λ i l q. omega (arith, p, q))
          ∙ (off2 (0 + j) (λ i l q. omega (arith, p, q)) ∙ one j p),
      λ j p.
          let here : s1.0 (7 + j) ≡ words (7 + j) = off1 (7 + j) (λ i l q. omega (arith, l, q)) in
          let low : damping_low fl s1.0 j ≡ damping_low fl s3.0 j =
            damping_low-same s1.0 s3.0 j (
              sym
                (off3 j (λ i l q. omega (arith, p, q)) ∙ off2 j (λ i l q. omega (arith, p, q)))) in
          off3 (7 + j) (λ i l q. omega (arith, p, q))
          ∙ (two j p
              ∙ ap2 (λ x y. if either j then clamp fl x (damping_high fl u j) y else y) low here),
      λ i p.
          let here : s2.0 (14 + i) ≡ words (14 + i) =
            off2 (14 + i) (λ k l q. omega (arith, l, q))
            ∙ off1 (14 + i) (λ k l q. omega (arith, l, q)) in
          three i p
          ∙ ap
              (λ y.
                if carried fl u (14 + i)
                then clamp fl (bounds fl (14 + i)).min (row_high fl 14 i) y
                else y)
              here,
    )

    pub clamp_words-Grouped : (words : Array fl.F) → Grouped words (clamp_words fl b u words).0
    unfolding clamp_words words_count
    clamp_words-Grouped words =
        let others : ℕ → Bool = λ i. carried fl u (14 + i) in
        three-Grouped words (stiff words) (damped words)
          (snap_all fl b 11 14 others (row_low fl 14) (row_high fl 14) (damped words))
          (snap_all-Passed fl b round 0 (carried fl u) (row_low fl 0) (row_high fl 0) 7 words []
            (rows-Steady 0 7 (carried fl u) (row_high fl 0)))
          (snap_all-Passed fl b round 7 either (damping_low fl) (damping_high fl u) 7
            (stiff words).0 (stiff words).1 damping-Steady)
          (snap_all-Passed fl b round 14 others (row_low fl 14) (row_high fl 14) 11 (damped words).0
            (damped words).1 (rows-Steady 14 11 others (row_high fl 14)))
