-- ===== src/Robot/TargetControl/Handle.antt =====
-- The commander's side of target control
-- (crates/franka-rs/src/robot/target_control/{mod,joint}.rs).
use franka_rs.Common.{
  ℕ, zero, suc, ◌+◌, ltb, leb, ◌==◌, Bool, true, false, not, ◌&&◌, ◌||◌, Option, none, some, List,
  Result, ok, err, ◌>>◌, refuse_if, map_err, if◌then◌else◌,
}
use franka_rs.Float.{Float}
use franka_rs.Robot.TargetControl.Slot.{TargetSlot, Bits, Array, empty_slot, load, publish}
use franka_rs.Robot.TargetControl.Runner.{Settle, all_below, zeros}
use franka_rs.Robot.TargetControl.Tuning.{
  LiveTuning, TuningUpdate, Rejected, to_words, from_words, apply_update, words_count,
}
pub mod Commands
pub mod Joints

pub data HandleError : Type 0 where
  ended : HandleError  -- ENDED_MESSAGE
  no_tuning : HandleError  -- NO_TUNING_MESSAGE
  target_not_finite : HandleError
  outside_limits : (joint : ℕ) → HandleError
  refused : Rejected → HandleError

-- What the user thread and the loop thread share, less the lock that serialises the writers: an
-- operation that holds it is one function here.
pub record Shared (S : Type 0) : Type 0 where
  pub slot : TargetSlot
  pub tuning : TargetSlot
  pub stop : Bool
  pub running : Bool
  pub state : S

-- `Shared::default`
unfoldable pub default_shared : {S : Type 0} → S → Shared S
default_shared state = record {
  slot = empty_slot;
  tuning = empty_slot;
  stop = false;
  running = false;
  state = state;
}

module _ (fl : Float) (b : Bits fl.F) (n : ℕ) where
  -- `target`, where the slot is `seen i k` at the access `k` of the load `i`: the first load that
  -- succeeds, and zeros if none does.
  unfoldable pub first_load : ℕ → (ℕ → ℕ → TargetSlot) → Array fl.F
  first_load zero seen = zeros fl
  first_load (suc tries) seen =
      let later = first_load tries (λ i. seen (suc i)) in
      elim (load b n (seen 0)) [ some t ↦ t | none ↦ later ]

  unfoldable pub target : (ℕ → ℕ → TargetSlot) → Array fl.F
  target seen = first_load 1000 seen

  -- `modify_target`, which holds the writer's lock: the slot stands still.
  unfoldable pub modify_target :
      {S : Type 0} → (Array fl.F → Array fl.F) → Shared S → Result HandleError (Unit {0}) × Shared S
  unfolding target
  modify_target modify sh =
      if not sh.running
      then (err ended, sh)
      else let t = modify (target (λ i k. sh.slot)) in
        if not (all_below fl n (λ i. fl.is_finite (t i)))
        then (err target_not_finite, sh)
        else (ok tt, record sh { slot = publish b n sh.slot t })

  unfoldable pub set_target :
      {S : Type 0} → Array fl.F → Shared S → Result HandleError (Unit {0}) × Shared S
  unfolding modify_target
  set_target t sh = modify_target (λ current. t) sh

  -- `published_tuning`, by a caller that holds the writer's lock
  unfoldable pub published_tuning : {S : Type 0} → Shared S → Result HandleError (LiveTuning fl)
  published_tuning sh = elim (load b words_count (λ k. sh.tuning)) [
    | none ↦ err no_tuning
    | some words ↦ ok (from_words fl words)
  ]

  -- The publication of `tune`, with what `apply_update` gives
  unfoldable pub publish_tuning :
      {S : Type 0}
      → Shared S
      → Result Rejected (LiveTuning fl × List ℕ)
      → Result HandleError (List ℕ) × Shared S
  publish_tuning sh (err e) = (err (refused e), sh)
  publish_tuning sh (ok (t, clamped)) =
      (ok clamped, record sh { tuning = publish b words_count sh.tuning (to_words fl t) })

  -- The critical section of `tune` once the tuning is read
  unfoldable pub tune_from :
      {S : Type 0}
      → TuningUpdate fl
      → Shared S
      → Result HandleError (LiveTuning fl)
      → Result HandleError (List ℕ) × Shared S
  unfolding publish_tuning
  tune_from update sh (err e) = (err e, sh)
  tune_from update sh (ok t) = publish_tuning sh (apply_update fl b t update)

  unfoldable pub tune :
      {S : Type 0} → TuningUpdate fl → Shared S → Result HandleError (List ℕ) × Shared S
  unfolding tune_from published_tuning
  tune update sh =
      if not sh.running then (err ended, sh) else tune_from update sh (published_tuning sh)

module _ (fl : Float) where
  -- `check_joint_limits` on the joints below `n`: the first one outside is named.
  unfoldable pub check_joint_limits :
      ℕ → Array fl.F → Array fl.F → Array fl.F → fl.F → Result HandleError (Unit {0})
  check_joint_limits zero q lower upper inset = ok tt
  check_joint_limits (suc i) q lower upper inset =
      check_joint_limits i q lower upper inset
      >> refuse_if
          (not (fl.fle (fl.add (lower i) inset) (q i) && fl.fle (q i) (fl.sub (upper i) inset)))
          (outside_limits i)

  pub record JointTargetControl : Type 0 where
    pub lower : Array fl.F
    pub upper : Array fl.F
    pub inset : fl.F

  -- `check?;` before an operation
  unfoldable pub after_check :
      {S : Type 0}
      → Result HandleError (Unit {0})
      → Shared S
      → Result HandleError (Unit {0}) × Shared S
      → Result HandleError (Unit {0}) × Shared S
  after_check (err e) sh done = (err e, sh)
  after_check (ok u) sh done = done

  -- The check of `set_joints`: a value that is not finite is left to `set_target`.
  unfoldable pub check_target : JointTargetControl → Array fl.F → Result HandleError (Unit {0})
  unfolding all_below check_joint_limits
  check_target c q =
      if all_below fl 7 (λ i. fl.is_finite (q i))
      then check_joint_limits 7 q c.lower c.upper c.inset
      else ok tt

  unfoldable pub set_joints :
      {S : Type 0}
      → Bits fl.F
      → JointTargetControl
      → Array fl.F
      → Shared S
      → Result HandleError (Unit {0}) × Shared S
  unfolding after_check check_target set_target
  set_joints b c q sh = after_check (check_target c q) sh (set_target fl b 7 q sh)
