-- ===== src/Robot/TargetControl/Slot/Reads.antt =====
-- A reader never waits: `load` of crates/franka-rs/src/robot/target_control/slot.rs ends after a
-- fixed number of accesses.
use franka_rs.Common.{
  ℕ, zero, suc, ◌+◌, ◌-◌, ◌*◌, ◌%◌, ◌≤◌, ◌==◌, ◌||◌, Option, ◌≡◌, refl, arith, if_intro,
}
use franka_rs.Robot.TargetControl.Slot.{
  TargetSlot, Bits, Array, Reader, read_step, read_steps, next_try, begin_read, waiting, trying,
  reading, returned,
}

module _ {V : Type 0} (b : Bits V) (n : ℕ) where
  -- The accesses of so many tries
  abbrev tries : ℕ → ℕ
  tries zero = 0
  tries (suc k) = tries k + (n + 2)

  -- The accesses that a reader may still make
  abbrev cost : Reader b n → ℕ
  cost waiting = 0
  cost (trying left) = tries (suc left)
  cost (reading left before i candidate) = tries left + (n - i) + 1
  cost (returned result) = 0

  abbrev InLoad : Reader b n → Type 0
  InLoad waiting = ⊥
  InLoad (trying left) = Unit {0}
  InLoad (reading left before i candidate) = i ≤ n
  InLoad (returned result) = Unit {0}

  -- A step stays in the call and costs one access.
  abbrev Closer : ℕ → Reader b n → Type 0
  Closer k r = InLoad r × (cost r ≤ k)

  next_try-Closer : (left k : ℕ) → tries left ≤ k → Closer k (next_try b n left)
  unfolding next_try
  next_try-Closer zero k h = (tt, omega (arith, h))
  next_try-Closer (suc left) k h = (tt, h)

  read_step-Closer :
      (s : TargetSlot) (r : Reader b n) (k : ℕ)
      → InLoad r
      → cost r ≤ suc k
      → Closer k (read_step b n s r)
  unfolding read_step
  read_step-Closer s waiting k a c = absurd a
  read_step-Closer s (trying left) k a c =
      if_intro (Closer k) ((s.sequence == 0) || ((s.sequence % 2) == 1))
        (λ h. next_try-Closer left k (omega (arith, c))) (λ h. (omega arith, omega (arith, c)))
  read_step-Closer s (reading left before i candidate) k a c =
      if_intro (Closer k) (i == n)
        (λ h.
          if_intro (Closer k) (s.sequence == before) (λ e. (tt, omega arith))
            (λ e. next_try-Closer left k (omega (arith, c))))
        (λ h. let l : i + 1 ≤ n = ground arith in (l, omega (arith, c, l)))
  read_step-Closer s (returned result) k a c = (tt, omega arith)

  read_steps-returned :
      (k : ℕ) (slot : ℕ → TargetSlot) (r : Reader b n)
      → InLoad r
      → cost r ≤ k
      → (result : Option (Array V)) × (read_steps b n k slot r ≡ returned result)
  unfolding read_steps
  read_steps-returned zero slot waiting a c = absurd a
  read_steps-returned zero slot (trying left) a c = absurd (omega (arith, c))
  read_steps-returned zero slot (reading left before i candidate) a c = absurd (omega (arith, c))
  read_steps-returned zero slot (returned result) a c = (result, refl)
  read_steps-returned (suc k) slot r a c =
      let (a', c') = read_step-Closer (slot 0) r k a c in
      read_steps-returned k (λ j. slot (suc j)) (read_step b n (slot 0) r) a' c'

  -- Whatever the slot holds at each access of `load`, the call has returned after three times
  -- N + 2 accesses.
  pub begin_read-returned :
      (slot : ℕ → TargetSlot)
      → (result : Option (Array V)) × (read_steps b n (3 * (n + 2)) slot (begin_read b n)
          ≡ returned result)
  unfolding begin_read
  begin_read-returned slot = read_steps-returned (3 * (n + 2)) slot (trying 2) tt (omega arith)
