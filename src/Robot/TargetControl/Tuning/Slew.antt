-- ===== src/Robot/TargetControl/Tuning/Slew.antt =====
-- How a tuning is moved into force, a cycle at a time
-- (crates/franka-rs/src/robot/target_control/tuning/slew.rs, torque/tuning.rs).
use franka_rs.Common.{
  ℕ, zero, suc, ltb, ◌==◌, Bool, false, not, ◌&&◌, ◌||◌, Option, none, some, if◌then◌else◌,
}
use franka_rs.Float.{Float}
use franka_rs.Robot.TargetControl.Slot.{TargetSlot, Array, Bits, update, load}
use franka_rs.Robot.TargetControl.Tuning.{LiveTuning, to_words, from_words, words_count}

pub data TuningPolicy : Type 0 where
  slew : TuningPolicy  -- over SLEW_TAU
  step : TuningPolicy
  step_up_gate_down : (rate_word : ℕ) → TuningPolicy

-- `TuningPolicy::rate_word`
unfoldable pub rate_word : TuningPolicy → Option ℕ
rate_word slew = none
rate_word step = none
rate_word (step_up_gate_down w) = some w

-- The policies of the rows of `LiveTuning::BOUNDS`, by word
unfoldable pub policy : ℕ → TuningPolicy
policy w =
    if ltb w 18
    then slew
    else if w == 19
    then step_up_gate_down 20
    else if w == 20
    then step_up_gate_down 21
    else if w == 22
    then step_up_gate_down 23
    else if w == 23
    then step_up_gate_down 24
    else step

module _ (fl : Float) where
  unfoldable pub slew_tau : fl.F
  slew_tau = fl.decimal 3 1

  -- `TuningPolicy::slew_gain`, of `f64::exp`
  unfoldable pub slew_gain : (fl.F → fl.F) → fl.F → TuningPolicy → fl.F
  unfolding slew_tau
  slew_gain exp dt slew =
      if fl.flt (fl.of_ℕ 0) slew_tau && fl.flt (fl.of_ℕ 0) dt
      then fl.sub (fl.of_ℕ 1) (exp (fl.div (fl.neg dt) slew_tau))
      else fl.of_ℕ 1
  slew_gain exp dt step = fl.of_ℕ 1
  slew_gain exp dt (step_up_gate_down w) = fl.of_ℕ 1

  pub record SlewGains : Type 0 where
    pub gain : Array fl.F
    pub dt : fl.F

  unfoldable pub slew_gains : (fl.F → fl.F) → fl.F → SlewGains
  unfolding slew_gain policy
  slew_gains exp dt = record {
    gain = λ w. slew_gain exp dt (policy w);
    dt = fl.fmax dt (fl.of_ℕ 0);
  }

  -- Where a word is to go in this cycle
  unfoldable pub goal_of : SlewGains → Array fl.F → Array fl.F → fl.F → ℕ → fl.F
  unfolding rate_word policy
  goal_of gains before target word w = elim (rate_word (policy w)) [
    | some rate ↦ fl.fmax (target w) (fl.sub word (fl.mul (before rate) gains.dt))
    | none ↦ target w
  ]

  module _ (b : Bits fl.F) where
    unfoldable pub slewed : fl.F → fl.F → fl.F → fl.F
    slewed current target gain =
        let next = fl.add current (fl.mul gain (fl.sub target current)) in
        if fl.fle (fl.of_ℕ 1) gain
        then target
        else if b.to_bits next == b.to_bits current
        then target
        else next

    -- The loop of `slew_toward` over the words below `count`, with whether one has moved
    unfoldable pub slew_words : ℕ → SlewGains → Array fl.F → Array fl.F → Array fl.F × Bool
    unfolding update slewed goal_of
    slew_words zero gains before target = (before, false)
    slew_words (suc w) gains before target =
        let (words, moved) = slew_words w gains before target in
        let next = slewed (words w) (goal_of gains before target (words w) w) (gains.gain w) in
        (update words w next, moved || not (b.to_bits next == b.to_bits (words w)))

    unfoldable pub slew_toward : LiveTuning fl → LiveTuning fl → SlewGains → LiveTuning fl × Bool
    unfolding words_count
    slew_toward t target gains =
        let (words, moved) = slew_words words_count gains (to_words fl t) (to_words fl target) in
        (if moved then from_words fl words else t, moved)

    -- `Tuning` of torque/tuning.rs, less the load's landing place
    pub record LoopTuning : Type 0 where
      pub sequence : ℕ
      pub target : LiveTuning fl
      pub current : LiveTuning fl
      pub gains : SlewGains

    unfoldable pub new_tuning : LiveTuning fl → SlewGains → LoopTuning
    new_tuning seed gains = record { sequence = 0; target = seed; current = seed; gains = gains }

    unfoldable pub adopt_targets : ℕ → LoopTuning → Option (Array fl.F) → LoopTuning
    adopt_targets sequence t none = t
    adopt_targets sequence t (some words) = record t {
      sequence = sequence;
      target = from_words fl words;
    }

    -- The slot's targets, if they moved
    unfoldable pub take_targets : (ℕ → TargetSlot) → LoopTuning → LoopTuning
    unfolding adopt_targets
    take_targets seen t =
        if (seen 0).sequence == t.sequence
        then t
        else adopt_targets (seen 0).sequence t (load b words_count (λ k. seen (suc k)))

    -- `Tuning::cycle`, where the slot is `seen k` at its access `k`
    unfoldable pub tuning_cycle : (ℕ → TargetSlot) → LoopTuning → LoopTuning × Bool
    unfolding take_targets slew_toward
    tuning_cycle seen t =
        let t' = take_targets seen t in
        let (current', moved) = slew_toward t'.current t'.target t'.gains in
        (record t' { current = current' }, moved)
