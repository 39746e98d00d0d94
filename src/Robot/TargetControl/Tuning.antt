-- ===== src/Robot/TargetControl/Tuning.antt =====
-- What a running session accepts a change to, and how far
-- (crates/franka-rs/src/robot/target_control/tuning).
use franka_rs.Common.{
  ℕ, zero, suc, ◌+◌, ◌-◌, ltb, ◌==◌, Bool, true, false, ◌&&◌, ◌||◌, not, Option, none, some, List,
  [], ◌∷◌, ◌++◌, Result, ok, err, is_some, if◌then◌else◌,
}
use franka_rs.Float.{Float}
use franka_rs.Robot.TargetControl.Slot.{Array, Bits, update}
pub mod Passes
pub mod Gate
pub mod Overlay
pub mod Finite
pub mod Accepts
pub mod Partial
pub mod Slew
pub mod Settling

pub data Rejected : Type 0 where
  not_finite : (word : ℕ) → Rejected  -- "must be finite"
  not_positive : (word : ℕ) → Rejected  -- "must be positive"

-- `LiveTuning::WORDS`
unfoldable pub words_count : ℕ
words_count = 25

module _ (fl : Float) where
  pub record LiveTuning : Type 0 where
    pub joint_stiffness : Array fl.F
    pub joint_damping : Array fl.F
    pub cartesian_stiffness : fl.F
    pub ik_damping : fl.F
    pub ik_nullspace_gain : fl.F
    pub velocity_feedforward_gain : fl.F
    pub velocity_feedforward_cutoff : fl.F
    pub budget : Array fl.F
    pub rotation_budget : Array fl.F

  -- `high < x`; without a ceiling (`f64::INFINITY`) there is none above it.
  unfoldable pub over_ceiling : Option fl.F → fl.F → Bool
  over_ceiling none x = false
  over_ceiling (some high) x = fl.flt high x

  unfoldable pub ceiling_or : Option fl.F → fl.F → fl.F
  ceiling_or none x = x
  ceiling_or (some high) x = high

  -- `f64::clamp` with `low <= high`, a NaN as it is
  unfoldable pub clamp : fl.F → Option fl.F → fl.F → fl.F
  unfolding over_ceiling ceiling_or
  clamp low high x =
      if fl.flt x low then low else if over_ceiling high x then ceiling_or high x else x

  unfoldable pub to_words : LiveTuning → Array fl.F
  to_words t w =
      if ltb w 7
      then t.joint_stiffness w
      else if ltb w 14
      then t.joint_damping (w - 7)
      else if w == 14
      then t.cartesian_stiffness
      else if w == 15
      then t.ik_damping
      else if w == 16
      then t.ik_nullspace_gain
      else if w == 17
      then t.velocity_feedforward_gain
      else if w == 18
      then t.velocity_feedforward_cutoff
      else if ltb w 22
      then t.budget (w - 19)
      else t.rotation_budget (w - 22)

  unfoldable pub from_words : Array fl.F → LiveTuning
  from_words words = record {
    joint_stiffness = words;
    joint_damping = λ i. words (7 + i);
    cartesian_stiffness = words 14;
    ik_damping = words 15;
    ik_nullspace_gain = words 16;
    velocity_feedforward_gain = words 17;
    velocity_feedforward_cutoff = words 18;
    budget = λ i. words (19 + i);
    rotation_budget = λ i. words (22 + i);
  }

  -- What of `FieldBound` the gate reads
  pub record FieldBound : Type 0 where
    pub min : fl.F
    pub max : fl.F
    pub reject_non_positive : Bool

  unfoldable pub bound : fl.F → fl.F → FieldBound
  bound low high = record { min = low; max = high; reject_non_positive = false }

  -- `non_zero`
  unfoldable pub non_zero : FieldBound → FieldBound
  non_zero b = record b { reject_non_positive = true }

  -- The rows of `LiveTuning::BOUNDS`, by word
  unfoldable pub bounds : ℕ → FieldBound
  unfolding bound non_zero
  bounds w =
      if ltb w 7
      then bound (fl.of_ℕ 0) (fl.of_ℕ 1200)
      else if ltb w 11
      then bound (fl.of_ℕ 0) (fl.of_ℕ 60)
      else if ltb w 14
      then bound (fl.of_ℕ 0) (fl.of_ℕ 40)
      else if w == 14
      then non_zero (bound (fl.of_ℕ 50) (fl.of_ℕ 3000))
      else if w == 15
      then non_zero (bound (fl.decimal 1 3) (fl.of_ℕ 1))
      else if w == 16
      then bound (fl.of_ℕ 0) (fl.of_ℕ 20)
      else if w == 17
      then bound (fl.of_ℕ 0) (fl.of_ℕ 1)
      else if w == 18
      then bound (fl.of_ℕ 1) (fl.of_ℕ 1000)
      else if w == 19
      then bound (fl.decimal 5 2) (fl.decimal 12 1)
      else if w == 20
      then bound (fl.decimal 1 1) (fl.of_ℕ 20)
      else if w == 21
      then bound (fl.of_ℕ 1) (fl.of_ℕ 800)
      else if w == 22
      then bound (fl.decimal 5 2) (fl.decimal 25 1)
      else if w == 23
      then bound (fl.decimal 1 1) (fl.of_ℕ 30)
      else bound (fl.of_ℕ 1) (fl.of_ℕ 800)

  unfoldable pub joint_damping_floor : fl.F → fl.F
  joint_damping_floor stiffness = fl.mul (fl.decimal 25 2) (fl.sqrt stiffness)

  pub record TuningUpdate : Type 0 where
    pub new_joint_stiffness : Option (Array fl.F)
    pub new_joint_damping : Option (Array fl.F)
    pub new_cartesian_stiffness : Option fl.F
    pub new_ik_damping : Option fl.F
    pub new_ik_nullspace_gain : Option fl.F
    pub new_velocity_feedforward_gain : Option fl.F
    pub new_velocity_feedforward_cutoff : Option fl.F
    pub new_budget : Option (Array fl.F)
    pub new_rotation_budget : Option (Array fl.F)

  unfoldable pub carried : TuningUpdate → ℕ → Bool
  carried u w =
      if ltb w 7
      then is_some u.new_joint_stiffness
      else if ltb w 14
      then is_some u.new_joint_damping
      else if w == 14
      then is_some u.new_cartesian_stiffness
      else if w == 15
      then is_some u.new_ik_damping
      else if w == 16
      then is_some u.new_ik_nullspace_gain
      else if w == 17
      then is_some u.new_velocity_feedforward_gain
      else if w == 18
      then is_some u.new_velocity_feedforward_cutoff
      else if ltb w 22
      then is_some u.new_budget
      else is_some u.new_rotation_budget

  abbrev pub unwrap_or : {A : Type 0} → Option A → A → A
  unwrap_or none a = a
  unwrap_or (some b) a = b

  unfoldable pub overlay : TuningUpdate → LiveTuning → LiveTuning
  overlay u t = record {
    joint_stiffness = unwrap_or u.new_joint_stiffness t.joint_stiffness;
    joint_damping = unwrap_or u.new_joint_damping t.joint_damping;
    cartesian_stiffness = unwrap_or u.new_cartesian_stiffness t.cartesian_stiffness;
    ik_damping = unwrap_or u.new_ik_damping t.ik_damping;
    ik_nullspace_gain = unwrap_or u.new_ik_nullspace_gain t.ik_nullspace_gain;
    velocity_feedforward_gain =
        unwrap_or u.new_velocity_feedforward_gain t.velocity_feedforward_gain;
    velocity_feedforward_cutoff =
        unwrap_or u.new_velocity_feedforward_cutoff t.velocity_feedforward_cutoff;
    budget = unwrap_or u.new_budget t.budget;
    rotation_budget = unwrap_or u.new_rotation_budget t.rotation_budget;
  }

  -- The words of an update under way, and the bounds that have moved one of them so far, by word
  abbrev pub Scratch : Type 0
  Scratch = Array fl.F × List ℕ

  -- The floor of the damping of a joint: off the bounded stiffness
  unfoldable pub damping_low : Array fl.F → ℕ → fl.F
  unfolding bounds joint_damping_floor
  damping_low words j =
      let spring = bounds j in
      let floor = joint_damping_floor (clamp spring.min (some spring.max) (words j)) in
      fl.fmax floor (bounds (7 + j)).min

  unfoldable pub damping_high : TuningUpdate → ℕ → Option fl.F
  unfolding bounds
  damping_high u j = if carried u (7 + j) then some (bounds (7 + j)).max else none

  unfoldable pub row_low : ℕ → Array fl.F → ℕ → fl.F
  row_low first words i = (bounds (first + i)).min

  unfoldable pub row_high : ℕ → ℕ → Option fl.F
  row_high first i = some (bounds (first + i)).max

  module _ (b : Bits fl.F) where
    -- `snap`, with its answer put behind the others
    unfoldable pub snap : Scratch → ℕ → fl.F → Option fl.F → Scratch
    unfolding update clamp
    snap (words, clamped) w low high =
        let limited = clamp low high (words w) in
        if b.to_bits limited == b.to_bits (words w)
        then (words, clamped)
        else (update words w limited, clamped ++ w ∷ [])

    -- A loop over `count` words from `first` that snaps the ones it keeps
    unfoldable pub snap_all :
        (count first : ℕ)
        → (ℕ → Bool)
        → (Array fl.F → ℕ → fl.F)
        → (ℕ → Option fl.F)
        → Scratch
        → Scratch
    snap_all zero first keep low high st = st
    snap_all (suc i) first keep low high st =
        let (words, clamped) = snap_all i first keep low high st in
        if keep i
        then snap (words, clamped) (first + i) (low words i) (high i)
        else (words, clamped)

    -- The three loops of `apply_update` over the accepted words
    unfoldable pub clamp_words : TuningUpdate → Array fl.F → Scratch
    unfolding words_count
    clamp_words u words =
        let stiff = snap_all 7 0 (carried u) (row_low 0) (row_high 0) (words, []) in
        let damped =
          snap_all 7 7 (λ j. carried u j || carried u (7 + j)) damping_low (damping_high u) stiff in
        snap_all (words_count - 14) 14 (λ i. carried u (14 + i)) (row_low 14) (row_high 14) damped

    -- The first loop: refuse a value of the update that no clamp is to touch.
    unfoldable pub check_words : ℕ → TuningUpdate → Array fl.F → Result Rejected (Unit {0})
    check_words zero u words = ok tt
    check_words (suc w) u words = elim (check_words w u words) [
      | err e ↦ err e
      | ok done ↦
          if not (carried u w)
          then ok tt
          else if not (fl.is_finite (words w))
          then err (not_finite w)
          else if (bounds w).reject_non_positive && fl.fle (words w) (fl.of_ℕ 0)
          then err (not_positive w)
          else ok tt
    ]

    -- `apply_update`: what `self` is then, and the bounds that clamped a word; a refusal leaves
    -- `self` as it was.
    unfoldable pub apply_update : LiveTuning → TuningUpdate → Result Rejected (LiveTuning × List ℕ)
    unfolding words_count
    apply_update t u =
        let words = to_words (overlay u t) in
        elim (check_words words_count u words) [
          | err e ↦ err e
          | ok done ↦ let (words', clamped) = clamp_words u words in ok (from_words words', clamped)
        ]
