-- ===== src/Robot/TargetControl/Tuning/Finite.antt =====
-- That an accepted update lets in finite values only
-- (crates/franka-rs/src/robot/target_control/tuning).
use franka_rs.Common.{
  ℕ, zero, suc, ◌+◌, ◌<◌, ◌==◌, true, false, not, ◌&&◌, Option, none, some, Result, ok, err, ◌≡◌,
  inl, inr, refl, sym, subst, arith, if_intro, if◌then◌else◌, Bool-cases,
}
use franka_rs.Float.{Float}
use franka_rs.Robot.TargetControl.Slot.{Array, Bits}
use franka_rs.Robot.TargetControl.Tuning.{
  TuningUpdate, Rejected, not_finite, not_positive, clamp, over_ceiling, ceiling_or, bounds,
  carried, row_low, row_high, damping_low, damping_high, check_words,
}
use franka_rs.Robot.TargetControl.Tuning.Gate.{word-cases, Grouped, either}

module _ (fl : Float) where
  abbrev pub Finite : fl.F → Type 0
  Finite x = fl.is_finite x ≡ true

  abbrev FiniteTop : Option fl.F → Type 0
  FiniteTop none = Unit {0}
  FiniteTop (some x) = Finite x

  clamp-Finite :
      (low x : fl.F) (high : Option fl.F)
      → Finite low
      → FiniteTop high
      → Finite x
      → Finite (clamp fl low high x)
  unfolding clamp over_ceiling ceiling_or
  clamp-Finite low x none l h f = if_intro Finite (fl.flt x low) (λ _. l) (λ _. f)
  clamp-Finite low x (some high) l h f =
      if_intro Finite (fl.flt x low) (λ _. l)
        (λ _. if_intro Finite (fl.flt high x) (λ _. h) (λ _. f))

  -- What the gate asks of a value that it lets in
  abbrev pub Sound : ℕ → fl.F → Type 0
  Sound w x = Finite x × ((bounds fl w).reject_non_positive ≡ true → fl.fle x (fl.of_ℕ 0) ≡ false)

  -- What the first loop says of a word
  abbrev said : TuningUpdate fl → Array fl.F → ℕ → Result Rejected (Unit {0})
  said u words w =
      if not (carried fl u w)
      then ok tt
      else if not (fl.is_finite (words w))
      then err (not_finite w)
      else if (bounds fl w).reject_non_positive && fl.fle (words w) (fl.of_ℕ 0)
      then err (not_positive w)
      else ok tt

  checked_word :
      (u : TuningUpdate fl) (words : Array fl.F) (w : ℕ)
      → said u words w ≡ ok tt
      → carried fl u w ≡ true
      → Sound w (words w)
  checked_word u words w h c = (ground arith, λ r. ground arith)

  both_passed :
      (r x : Result Rejected (Unit {0}))
      → (elim r [ err e ↦ err e | ok done ↦ x ]) ≡ ok tt
      → (r ≡ ok tt) × (x ≡ ok tt)
  both_passed (ok tt) x h = (refl, h)
  both_passed (err e) x h = absurd (ground (arith, h))

  module _ (b : Bits fl.F) where
    pub check_words-Sound :
        (n : ℕ) (u : TuningUpdate fl) (words : Array fl.F)
        → check_words fl b n u words ≡ ok tt
        → (w : ℕ) → w < n
        → carried fl u w ≡ true
        → Sound w (words w)
    unfolding check_words
    check_words-Sound zero u words h w l c = absurd (omega (arith, l))
    check_words-Sound (suc n) u words h w l c =
        let (before, here) = both_passed (check_words fl b n u words) _ h in
        elim (Bool-cases (w == n)) [
          | inl e ↦
              let same : n ≡ w = ground arith in
              checked_word u words w (subst (λ v. said u words v ≡ ok tt) same here) c
          | inr e ↦ check_words-Sound n u words before w (ground arith) c
        ]

    -- A word that is finite before the loops is finite after them.
    pub words-Finite :
        (round : (v : fl.F) → b.from_bits (b.to_bits v) ≡ v)
        → (u : TuningUpdate fl) (words words' : Array fl.F)
        → ((w : ℕ) → w < 25 → Finite (bounds fl w).min × Finite (bounds fl w).max)
        → ((v : Array fl.F) (j : ℕ) → j < 7 → Finite (damping_low fl v j))
        → Grouped fl b round u words words'
        → (w : ℕ) → w < 25
        → Finite (words w)
        → Finite (words' w)
    unfolding row_low row_high damping_high
    words-Finite round u words words' limits floors (one, two, three) w l f =
        elim (word-cases fl w l) [
          | inl p ↦
              let z : 0 + w ≡ w = omega arith in
              let (low, high) = limits (0 + w) (omega (arith, l)) in
              let x : fl.F = words (0 + w) in
              subst (λ k. Finite (words' k)) z
                (subst Finite (sym (one w p)) (
                  if_intro Finite (carried fl u w)
                    (λ _.
                      clamp-Finite _ x (some _) low high (subst (λ k. Finite (words k)) (sym z) f))
                    (λ _. subst (λ k. Finite (words k)) (sym z) f)))
          | inr (inl (j, p, e)) ↦
              let at : Finite (words (7 + j)) = subst (λ k. Finite (words k)) e f in
              let (low, high) = limits (7 + j) (omega (arith, p)) in
              let top : FiniteTop (damping_high fl u j) =
                if_intro FiniteTop (carried fl u (7 + j)) (λ _. high) (λ _. tt) in
              subst (λ k. Finite (words' k)) (sym e)
                (subst Finite (sym (two j p)) (
                  if_intro Finite (either fl b round u j)
                    (λ _. clamp-Finite _ _ (damping_high fl u j) (floors words' j p) top at)
                    (λ _. at)))
          | inr (inr (i, p, e)) ↦
              let at : Finite (words (14 + i)) = subst (λ k. Finite (words k)) e f in
              let (low, high) = limits (14 + i) (omega (arith, p)) in
              subst (λ k. Finite (words' k)) (sym e)
                (subst Finite (sym (three i p)) (
                  if_intro Finite (carried fl u (14 + i))
                    (λ _. clamp-Finite _ _ (some _) low high at) (λ _. at)))
        ]
