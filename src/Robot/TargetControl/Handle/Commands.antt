-- ===== src/Robot/TargetControl/Handle/Commands.antt =====
-- What the commander's operations leave in the slots
-- (crates/franka-rs/src/robot/target_control/mod.rs).
use franka_rs.Common.{
  ℕ, ◌+◌, ◌%◌, ◌^◌, ◌<◌, true, false, not, some, List, Result, ok, err, ◌≡◌, ◌⊎◌, inl, inr, refl,
  ap, ◌∙◌, arith, if_intro,
}
use franka_rs.Float.{Float}
use franka_rs.Robot.TargetControl.Slot.{TargetSlot, Bits, Array, load, publish}
use franka_rs.Robot.TargetControl.Slot.Quiet.{load-publish}
use franka_rs.Robot.TargetControl.Runner.{all_below}
use franka_rs.Robot.TargetControl.Tuning.{
  LiveTuning, TuningUpdate, Rejected, to_words, from_words, apply_update, words_count,
}
use franka_rs.Robot.TargetControl.Tuning.Gate.{to_words-from_words}
use franka_rs.Robot.TargetControl.Handle.{
  HandleError, Shared, ended, target_not_finite, first_load, target, modify_target,
  published_tuning, publish_tuning, tune_from, tune,
}

module _ (fl : Float) (b : Bits fl.F) (n : ℕ) where
  -- The target that a commander reads while nobody writes
  abbrev pub now : TargetSlot → Array fl.F
  now slot = target fl b n (λ i k. slot)

  now-load : (slot : TargetSlot) (t : Array fl.F) → load b n (λ k. slot) ≡ some t → now slot ≡ t
  unfolding target first_load
  now-load slot t h = ground arith

  now-publish :
      (slot : TargetSlot) (t : Array fl.F)
      → slot.sequence % 2 ≡ 0
      → slot.sequence + 2 < 2 ^ 64
      → ((v : fl.F) → b.from_bits (b.to_bits v) ≡ v)
      → (j : ℕ) → j < n
      → now (publish b n slot t) j ≡ t j
  now-publish slot t even l round j p =
      let (c, found, same) = load-publish b n slot t even l round in
      ap (λ (f : Array fl.F). f j) (now-load (publish b n slot t) c found) ∙ same j p

  module _ (S : Type 0) where
    -- What `modify_target` tells and leaves, on each of its branches
    abbrev pub Modified :
        (Array fl.F → Array fl.F) → Shared S → Result HandleError (Unit {0}) × Shared S → Type 0
    Modified modify sh (ok u, sh') =
        (sh.running ≡ true)
        × (all_below fl n (λ i. fl.is_finite (modify (now sh.slot) i)) ≡ true)
        × ((j : ℕ) → j < n → now sh'.slot j ≡ modify (now sh.slot) j)
        × (sh'.tuning ≡ sh.tuning)
        × (sh'.stop ≡ sh.stop)
        × (sh'.running ≡ sh.running)
    Modified modify sh (err e, sh') =
        (sh' ≡ sh)
        × ((e ≡ ended) × (sh.running ≡ false)
            ⊎ (e ≡ target_not_finite)
              × (sh.running ≡ true)
              × (all_below fl n (λ i. fl.is_finite (modify (now sh.slot) i)) ≡ false))

    -- `modify_target` on a running loop publishes what it makes of the latest target, so that two
    -- callers one after the other both have their part in it; it refuses a target that is not finite,
    -- and any once the loop has ended, and then changes nothing. This is where no `publish` is under
    -- way (the writer's lock), fewer than 2 ^ 63 of them have been, and a double goes through its
    -- bits and back unchanged.
    pub modify_target-Modified :
        (modify : Array fl.F → Array fl.F) (sh : Shared S)
        → sh.slot.sequence % 2 ≡ 0
        → sh.slot.sequence + 2 < 2 ^ 64
        → ((v : fl.F) → b.from_bits (b.to_bits v) ≡ v)
        → Modified modify sh (modify_target fl b n modify sh)
    unfolding modify_target
    modify_target-Modified modify sh even l round =
        let t : Array fl.F = modify (now sh.slot) in
        if_intro (Modified modify sh) (not sh.running) (λ h. (refl, inl (refl, ground arith)))
          (λ h.
            if_intro (Modified modify sh) (not (all_below fl n (λ i. fl.is_finite (t i))))
              (λ k. (refl, inr (refl, ground arith, ground arith)))
              (λ k.
                (ground arith, ground arith, now-publish sh.slot t even l round, refl, refl, refl)))

    -- ## Live tuning

    -- What `tune` tells and leaves
    abbrev pub Tuned : TuningUpdate fl → Shared S → Result HandleError (List ℕ) × Shared S → Type 0
    Tuned update sh (err e, sh') = sh' ≡ sh
    Tuned update sh (ok clamped, sh') =
        (t : LiveTuning fl) × (t' : LiveTuning fl) × (seen : LiveTuning fl) × (published_tuning fl b
            n sh
          ≡ ok t)
        × (apply_update fl b t update ≡ ok (t', clamped))
        × (published_tuning fl b n sh' ≡ ok seen)
        × ((w : ℕ) → w < 25 → to_words fl seen w ≡ to_words fl t' w)
        × (sh'.slot ≡ sh.slot)
        × (sh'.stop ≡ sh.stop)
        × (sh'.running ≡ sh.running)

    published_tuning-load :
        (sh : Shared S) (words : Array fl.F)
        → load b 25 (λ k. sh.tuning) ≡ some words
        → published_tuning fl b n sh ≡ ok (from_words fl words)
    unfolding published_tuning words_count
    published_tuning-load sh words h = ground arith

    publish_tuning-Tuned :
        (update : TuningUpdate fl) (sh : Shared S) (t : LiveTuning fl)
        (r : Result Rejected (LiveTuning fl × List ℕ))
        → published_tuning fl b n sh ≡ ok t
        → apply_update fl b t update ≡ r
        → sh.tuning.sequence % 2 ≡ 0
        → sh.tuning.sequence + 2 < 2 ^ 64
        → ((v : fl.F) → b.from_bits (b.to_bits v) ≡ v)
        → Tuned update sh (publish_tuning fl b n sh r)
    unfolding publish_tuning words_count
    publish_tuning-Tuned update sh t (err e) h a even l round = refl
    publish_tuning-Tuned update sh t (ok (t', clamped)) h a even l round =
        let (words, found, same) = load-publish b 25 sh.tuning (to_words fl t') even l round in
        let sh' : Shared S = record sh { tuning = publish b 25 sh.tuning (to_words fl t') } in
        (
          t,
          t',
          from_words fl words,
          h,
          a,
          published_tuning-load sh' words found,
          λ w p. to_words-from_words fl words w ∙ same w p,
          refl,
          refl,
          refl,
        )

    tune_from-Tuned :
        (update : TuningUpdate fl) (sh : Shared S) (r : Result HandleError (LiveTuning fl))
        → published_tuning fl b n sh ≡ r
        → sh.tuning.sequence % 2 ≡ 0
        → sh.tuning.sequence + 2 < 2 ^ 64
        → ((v : fl.F) → b.from_bits (b.to_bits v) ≡ v)
        → Tuned update sh (tune_from fl b n update sh r)
    unfolding tune_from
    tune_from-Tuned update sh (err e) h even l round = refl
    tune_from-Tuned update sh (ok t) h even l round =
        publish_tuning-Tuned update sh t (apply_update fl b t update) h refl even l round

    -- `tune` publishes the tuning that `apply_update` makes of the published one, which the next
    -- reader gets word for word, and touches nothing else; where it fails, for whatever reason, it
    -- changes nothing. This is where no `publish` is under way (the writer's lock), fewer than 2 ^ 63
    -- of them have been, and a double goes through its bits and back unchanged.
    pub tune-Tuned :
        (update : TuningUpdate fl) (sh : Shared S)
        → sh.tuning.sequence % 2 ≡ 0
        → sh.tuning.sequence + 2 < 2 ^ 64
        → ((v : fl.F) → b.from_bits (b.to_bits v) ≡ v)
        → Tuned update sh (tune fl b n update sh)
    unfolding tune
    tune-Tuned update sh even l round =
        if_intro (Tuned update sh) (not sh.running) (λ h. refl)
          (λ h. tune_from-Tuned update sh (published_tuning fl b n sh) refl even l round)
