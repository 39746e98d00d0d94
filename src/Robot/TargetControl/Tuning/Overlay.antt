-- ===== src/Robot/TargetControl/Tuning/Overlay.antt =====
-- What the overlay of an update leaves of each word
-- (crates/franka-rs/src/robot/target_control/tuning).
use franka_rs.Common.{
  ℕ, ◌-◌, ltb, ◌==◌, Bool, true, false, Option, none, some, ◌≡◌, refl, ap, arith, is_some,
  if◌then◌else◌,
}
use franka_rs.Float.{Float}
use franka_rs.Robot.TargetControl.Slot.{Array}
use franka_rs.Robot.TargetControl.Tuning.{
  LiveTuning, TuningUpdate, carried, overlay, to_words, unwrap_or,
}

module _ (fl : Float) where
  kept : {A : Type 0} (o : Option A) (a : A) → is_some o ≡ false → unwrap_or fl o a ≡ a
  kept none a h = refl
  kept (some x) a h = absurd (ground arith)

  kept_at :
      (o : Option (Array fl.F)) (a : Array fl.F) (i : ℕ)
      → is_some o ≡ false
      → unwrap_or fl o a i ≡ a i
  kept_at o a i h = ap (λ (f : Array fl.F). f i) (kept o a h)

  -- Two conditionals under one test, where a third one says when their branches agree
  branch :
      (c : Bool) {x x' y y' : fl.F} {p q : Bool}
      → (p ≡ false → x ≡ x')
      → (q ≡ false → y ≡ y')
      → (if c then p else q) ≡ false
      → (if c then x else y) ≡ (if c then x' else y')
  branch true f g h = f h
  branch false f g h = g h

  -- A word that the update does not carry is the word there was.
  pub overlay_uncarried :
      (u : TuningUpdate fl) (t : LiveTuning fl) (w : ℕ)
      → carried fl u w ≡ false
      → to_words fl (overlay fl u t) w ≡ to_words fl t w
  unfolding carried overlay to_words
  overlay_uncarried u t w = branch (ltb w 7) (kept_at u.new_joint_stiffness t.joint_stiffness w) (
      branch (ltb w 14) (kept_at u.new_joint_damping t.joint_damping (w - 7)) (
        branch (w == 14) (kept u.new_cartesian_stiffness t.cartesian_stiffness) (
          branch (w == 15) (kept u.new_ik_damping t.ik_damping) (
            branch (w == 16) (kept u.new_ik_nullspace_gain t.ik_nullspace_gain) (
              branch (w == 17) (kept u.new_velocity_feedforward_gain t.velocity_feedforward_gain) (
                branch (w == 18)
                  (kept u.new_velocity_feedforward_cutoff t.velocity_feedforward_cutoff)
                  (branch (ltb w 22) (kept_at u.new_budget t.budget (w - 19))
                    (kept_at u.new_rotation_budget t.rotation_budget (w - 22)))))))))
