-- ===== src/Robot/TargetControl/Tuning/Partial.antt =====
-- What an accepted update leaves alone
-- (crates/franka-rs/src/robot/target_control/tuning).
use franka_rs.Common.{ℕ, ◌+◌, ◌<◌, false, List, ok, ◌≡◌, inl, inr, sym, subst, ◌∙◌, arith, if_false}
use franka_rs.Float.{Float}
use franka_rs.Robot.TargetControl.Slot.{Array, Bits}
use franka_rs.Robot.TargetControl.Tuning.{
  LiveTuning, TuningUpdate, carried, overlay, to_words, clamp_words, apply_update,
}
use franka_rs.Robot.TargetControl.Tuning.Overlay.{overlay_uncarried}
use franka_rs.Robot.TargetControl.Tuning.Accepts.{apply_update-word}
use franka_rs.Robot.TargetControl.Tuning.Gate.{word-cases, Grouped, clamp_words-Grouped, either}

module _ (fl : Float) where
  module _ (b : Bits fl.F) (round : (v : fl.F) → b.from_bits (b.to_bits v) ≡ v)
      (u : TuningUpdate fl) where
    words_uncarried :
        (words words' : Array fl.F) (w : ℕ)
        → Grouped fl b round u words words'
        → w < 25
        → carried fl u w ≡ false
        → ((j : ℕ) → j < 7 → w ≡ 7 + j → carried fl u j ≡ false)
        → words' w ≡ words w
    words_uncarried words words' w (one, two, three) l c spring = elim (word-cases fl w l) [
      | inl p ↦
          let z : 0 + w ≡ w = omega arith in
          subst (λ k. words' k ≡ words k) z (one w p ∙ if_false (carried fl u w) _ _ c)
      | inr (inl (j, p, e)) ↦
          let k = subst (λ x. carried fl u x ≡ false) e c in
          let s = spring j p e in
          let o : either fl b round u j ≡ false = ground arith in
          subst (λ x. words' x ≡ words x) (sym e) (two j p ∙ if_false (either fl b round u j) _ _ o)
      | inr (inr (i, p, e)) ↦
          let k = subst (λ x. carried fl u x ≡ false) e c in
          subst (λ x. words' x ≡ words x) (sym e)
            (three i p ∙ if_false (carried fl u (14 + i)) _ _ k)
    ]

    -- A partial update is one: an accepted update leaves every word as it was that it does not
    -- carry, except the damping of a joint whose stiffness it carries. This is of doubles that pass
    -- through their bits unchanged.
    pub apply_update-partial :
        (t t' : LiveTuning fl) (clamped : List ℕ) (w : ℕ)
        → apply_update fl b t u ≡ ok (t', clamped)
        → w < 25
        → carried fl u w ≡ false
        → ((j : ℕ) → j < 7 → w ≡ 7 + j → carried fl u j ≡ false)
        → to_words fl t' w ≡ to_words fl t w
    apply_update-partial t t' clamped w h l c spring =
        let words : Array fl.F = to_words fl (overlay fl u t) in
        sym (apply_update-word fl b round u t t' clamped w h)
        ∙ (words_uncarried words (clamp_words fl b u words).0 w
              (clamp_words-Grouped fl b round u words) l c spring
            ∙ overlay_uncarried fl u t w c)
