-- ===== src/Robot/TargetControl/Tuning/Passes.antt =====
-- The loops that clamp the words of an update
-- (crates/franka-rs/src/robot/target_control/tuning/mod.rs).
use franka_rs.Common.{
  ℕ, zero, suc, ◌+◌, ◌<◌, ◌==◌, Bool, true, Option, List, ◌≡◌, ◌≢◌, ◌⊎◌, inl, inr, refl, sym, ap,
  subst, ◌∙◌, arith, if_intro, if_true, if_false, if◌then◌else◌,
}
use franka_rs.Float.{Float}
use franka_rs.Robot.TargetControl.Slot.{Array, Bits, update}
use franka_rs.Robot.TargetControl.Tuning.{Scratch, clamp, snap, snap_all}

module _ (fl : Float) (b : Bits fl.F) (round : (v : fl.F) → b.from_bits (b.to_bits v) ≡ v) where
  -- Equal bits are equal doubles.
  same_bits : (x y : fl.F) → (b.to_bits x == b.to_bits y) ≡ true → x ≡ y
  same_bits x y h =
      let e : b.to_bits x ≡ b.to_bits y = ground arith in
      sym (round x) ∙ (ap b.from_bits e ∙ round y)

  update_at : (f : Array fl.F) (i : ℕ) (v : fl.F) → update f i v i ≡ v
  unfolding update
  update_at f i v = ground arith

  update_off : (f : Array fl.F) (i j : ℕ) (v : fl.F) → j ≢ i → update f i v j ≡ f j
  unfolding update
  update_off f i j v h = ground arith

  -- One word at its clamped value and the others as they were
  abbrev Snapped : Array fl.F → ℕ → fl.F → Scratch fl → Type 0
  Snapped words w v (words', clamped) = (words' w ≡ v) × ((k : ℕ) → k ≢ w → words' k ≡ words k)

  snap-Snapped :
      (words : Array fl.F) (clamped : List ℕ) (w : ℕ) (low : fl.F) (high : Option fl.F)
      → Snapped words w (clamp fl low high (words w)) (snap fl b (words, clamped) w low high)
  unfolding snap
  snap-Snapped words clamped w low high =
      let limited : fl.F = clamp fl low high (words w) in
      if_intro (Snapped words w limited) (b.to_bits limited == b.to_bits (words w))
        (λ h. (sym (same_bits limited (words w) h), λ k n. refl))
        (λ h. (update_at words w limited, λ k n. update_off words w k limited n))

  lt_suc-cases : (i c : ℕ) → i < suc c → (i < c) ⊎ (i ≡ c)
  lt_suc-cases i c p = ground arith

  module _ (first : ℕ) (keep : ℕ → Bool) (low : Array fl.F → ℕ → fl.F)
      (high : ℕ → Option fl.F) where
    -- What the loop makes of the word `first + i`, under the floor that `words` gives
    abbrev pub passed_word : Array fl.F → ℕ → fl.F
    passed_word words i =
        if keep i then clamp fl (low words i) (high i) (words (first + i)) else words (first + i)

    abbrev pub Passed : ℕ → Array fl.F → Scratch fl → Type 0
    Passed count words (words', clamped) =
        ((i : ℕ) → i < count → words' (first + i) ≡ passed_word words i)
        × ((k : ℕ) → ((i : ℕ) → i < count → k ≢ first + i) → words' k ≡ words k)

    -- A floor that does not look at the words of this loop
    abbrev pub Steady : ℕ → Type 0
    Steady count =
        (words words' : Array fl.F) (i : ℕ)
        → i < count
        → ((k : ℕ) → ((j : ℕ) → j < i → k ≢ first + j) → words' k ≡ words k)
        → low words' i ≡ low words i

    -- One word more, its floor the one that `words` gives
    Passed-suc :
        (c : ℕ) (words words' words2 : Array fl.F) (clamped : List ℕ)
        → Passed c words (words', clamped)
        → (words2 (first + c) ≡ passed_word words c)
        → ((k : ℕ) → k ≢ first + c → words2 k ≡ words' k)
        → Passed (suc c) words (words2, clamped)
    Passed-suc c words words' words2 clamped (old, off) new rest = (
      λ i p. elim (lt_suc-cases i c p) [
        | inl l ↦ rest (first + i) (λ q. omega (arith, q, l)) ∙ old i l
        | inr e ↦ subst (λ x. words2 (first + x) ≡ passed_word words x) (sym e) new
      ],
      λ k n. rest k (n c (omega arith)) ∙ off k (λ i l. n i (omega (arith, l))),
    )

    -- The present word of the loop is still as it was, and so is its floor.
    present :
        (c : ℕ) (words words' : Array fl.F) (clamped : List ℕ)
        → Steady (suc c)
        → Passed c words (words', clamped)
        → (words' (first + c) ≡ words (first + c)) × (low words' c ≡ low words c)
    present c words words' clamped steady (old, off) =
        (off (first + c) (λ i l q. omega (arith, q, l)), steady words words' c (omega arith) off)

    snap-Passed :
        (c : ℕ) (words : Array fl.F) (st : Scratch fl)
        → Steady (suc c)
        → Passed c words st
        → Passed
            (suc c)
            words
            (if keep c then snap fl b st (first + c) (low st.0 c) (high c) else st)
    snap-Passed c words (words', clamped) steady p =
        let (here, floor) = present c words words' clamped steady p in
        if_intro (Passed (suc c) words) (keep c)
          (λ k.
            let (at, rest) = snap-Snapped words' clamped (first + c) (low words' c) (high c) in
            Passed-suc c words words' _ clamped p
              (at
                ∙ (ap (λ x. clamp fl x (high c) (words' (first + c))) floor
                    ∙ (ap (clamp fl (low words c) (high c)) here ∙ sym (if_true (keep c) _ _ k))))
              rest)
          (λ k.
            Passed-suc c words words' words' clamped p (here ∙ sym (if_false (keep c) _ _ k))
              (λ j n. refl))

    pub snap_all-Passed :
        (count : ℕ) (words : Array fl.F) (clamped : List ℕ)
        → Steady count
        → Passed count words (snap_all fl b count first keep low high (words, clamped))
    unfolding snap_all
    snap_all-Passed zero words clamped steady = (λ i p. absurd (omega (arith, p)), λ k n. refl)
    snap_all-Passed (suc c) words clamped steady =
        snap-Passed c words (snap_all fl b c first keep low high (words, clamped)) steady
          (snap_all-Passed c words clamped (λ v w i l. steady v w i (omega (arith, l))))
