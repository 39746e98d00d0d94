-- ===== src/Robot/TargetControl/Handle/Joints.antt =====
-- The joint targets that are let through
-- (crates/franka-rs/src/robot/target_control/{mod,joint}.rs).
use franka_rs.Common.{
  ℕ, zero, suc, ◌<◌, Bool, true, not, ◌&&◌, Result, ok, err, ◌≡◌, ◌⊎◌, inl, inr, refl, sym, subst,
  ◌∙◌, arith, Bool-cases, Result-cases, if_intro, if_true,
}
use franka_rs.Float.{Float}
use franka_rs.Robot.TargetControl.Slot.{Bits, Array}
use franka_rs.Robot.TargetControl.Runner.{all_below}
use franka_rs.Robot.TargetControl.Handle.{
  HandleError, Shared, JointTargetControl, check_joint_limits, check_target, after_check,
  modify_target, set_target, set_joints,
}

module _ (fl : Float) where
  -- Inside the limits of the joint, inset on both sides
  abbrev pub inside : Array fl.F → Array fl.F → fl.F → Array fl.F → ℕ → Bool
  inside lower upper inset q i =
      fl.fle (fl.add (lower i) inset) (q i) && fl.fle (q i) (fl.sub (upper i) inset)

  lt_suc-cases : (i c : ℕ) → i < suc c → (i < c) ⊎ (i ≡ c)
  lt_suc-cases i c p = ground arith

  check_joint_limits-suc :
      (n : ℕ) (q lower upper : Array fl.F) (inset : fl.F)
      → check_joint_limits fl (suc n) q lower upper inset ≡ ok tt
      → (check_joint_limits fl n q lower upper inset ≡ ok tt)
        × (inside lower upper inset q n ≡ true)
  unfolding check_joint_limits
  check_joint_limits-suc n q lower upper inset h =
      elim (Result-cases (check_joint_limits fl n q lower upper inset)) [
        | inl (u, e) ↦ elim (Bool-cases (inside lower upper inset q n)) [
          | inl t ↦ (e, t)
          | inr f ↦ absurd (ground arith)
        ]
        | inr (r, e) ↦ absurd (ground arith)
      ]

  check_joint_limits-inside :
      (n : ℕ) (q lower upper : Array fl.F) (inset : fl.F)
      → check_joint_limits fl n q lower upper inset ≡ ok tt
      → (i : ℕ) → i < n
      → inside lower upper inset q i ≡ true
  check_joint_limits-inside zero q lower upper inset h i p = absurd (omega (arith, p))
  check_joint_limits-inside (suc n) q lower upper inset h i p =
      let (before, here) = check_joint_limits-suc n q lower upper inset h in
      elim (lt_suc-cases i n p) [
        | inl l ↦ check_joint_limits-inside n q lower upper inset before i l
        | inr e ↦ subst (λ k. inside lower upper inset q k ≡ true) (sym e) here
      ]

  -- A target that is let through, or a refusal that leaves what it was given
  abbrev Let :
      {S : Type 0} (n : ℕ)
      → Array fl.F
      → Shared S
      → Result HandleError (Unit {0}) × Shared S
      → Type 0
  Let n q sh (ok u, sh') = (sh.running ≡ true) × (all_below fl n (λ i. fl.is_finite (q i)) ≡ true)
  Let n q sh (err e, sh') = sh' ≡ sh

  set_target-Let :
      {S : Type 0} (b : Bits fl.F) (n : ℕ) (q : Array fl.F) (sh : Shared S)
      → Let n q sh (set_target fl b n q sh)
  unfolding set_target modify_target
  set_target-Let b n q sh =
      if_intro (Let n q sh) (not sh.running) (λ h. refl)
        (λ h.
          if_intro (Let n q sh) (not (all_below fl n (λ i. fl.is_finite (q i)))) (λ k. refl)
            (λ k. (ground arith, ground arith)))

  check_target-inside :
      (c : JointTargetControl fl) (q : Array fl.F)
      → all_below fl 7 (λ i. fl.is_finite (q i)) ≡ true
      → check_target fl c q ≡ ok tt
      → (i : ℕ) → i < 7
      → inside c.lower c.upper c.inset q i ≡ true
  unfolding check_target
  check_target-inside c q f h =
      check_joint_limits-inside 7 q c.lower c.upper c.inset
        (sym (if_true (all_below fl 7 (λ i. fl.is_finite (q i))) _ _ f) ∙ h)

  -- What a call of `set_joints` tells: a target that is let through is for a running loop, finite,
  -- and inside the limits; a refusal leaves what was there.
  abbrev pub Accepted :
      {S : Type 0} (c : JointTargetControl fl)
      → Array fl.F
      → Shared S
      → Result HandleError (Unit {0}) × Shared S
      → Type 0
  Accepted c q sh (ok u, sh') =
      (sh.running ≡ true)
      × (all_below fl 7 (λ i. fl.is_finite (q i)) ≡ true)
      × ((i : ℕ) → i < 7 → inside c.lower c.upper c.inset q i ≡ true)
  Accepted c q sh (err e, sh') = sh' ≡ sh

  after_check-Accepted :
      {S : Type 0} (c : JointTargetControl fl) (q : Array fl.F) (sh : Shared S)
      (r : Result HandleError (Unit {0})) (x : Result HandleError (Unit {0}) × Shared S)
      → check_target fl c q ≡ r
      → Let 7 q sh x
      → Accepted c q sh (after_check fl r sh x)
  unfolding after_check
  after_check-Accepted c q sh (err e) x h l = refl
  after_check-Accepted c q sh (ok u) (ok v, sh') h (run, f) = (run, f, check_target-inside c q f h)
  after_check-Accepted c q sh (ok u) (err e, sh') h l = l

  -- A joint target that `set_joints` lets through is for a running loop, finite, and inside the
  -- arm's joint limits with the inset on both sides, at every joint; a refused one changes nothing.
  pub set_joints-Accepted :
      {S : Type 0} (b : Bits fl.F) (c : JointTargetControl fl) (q : Array fl.F) (sh : Shared S)
      → Accepted c q sh (set_joints fl b c q sh)
  unfolding set_joints
  set_joints-Accepted b c q sh =
      after_check-Accepted c q sh (check_target fl c q) (set_target fl b 7 q sh) refl
        (set_target-Let b 7 q sh)
