-- ===== src/Robot/TargetControl/Slot/Reading.antt =====
-- What the steps of either thread keep of a load under way
-- (crates/franka-rs/src/robot/target_control/slot.rs).
use franka_rs.Common.{
  ℕ, zero, suc, ◌+◌, ◌*◌, ◌/◌, ◌%◌, ◌≤◌, ◌<◌, ◌==◌, ◌||◌, none, some, ◌≡◌, ◌≢◌, refl, sym, ap,
  subst, ◌∙◌, arith, if_intro,
}
use franka_rs.Robot.TargetControl.Slot.{
  TargetSlot, Bits, Array, Writer, Reader, read_step, next_try, idle, storing, waiting, trying,
  reading, returned,
}
use franka_rs.Robot.TargetControl.Slot.Threads.{ended}
use franka_rs.Robot.TargetControl.Slot.Writing.{Words, WriterHolds, ReaderHolds, Copied-update}

module _ {V : Type 0} (b : Bits V) (n : ℕ) where
  -- What the writer does leaves the reader's side as it was, once the sequence has left every
  -- value that a load may have begun with.
  pub ReaderHolds-later :
      (s s' : TargetSlot) (h h' : ℕ → Array V) (count count' done done' since : ℕ) (r : Reader b n)
      → done ≤ done'
      → count ≤ count'
      → ((k : ℕ) → k ≤ count → h k ≡ h' k)
      → ((k : ℕ) → k ≤ done → s'.sequence ≡ 2 * k → ⊥)
      → ReaderHolds b n s h count done since r
      → ReaderHolds b n s' h' count' done' since r
  ReaderHolds-later s s' h h' count count' done done' since waiting d c same left a = tt
  ReaderHolds-later s s' h h' count count' done done' since (trying l) d c same left a =
      omega (arith, a, d)
  ReaderHolds-later s s' h h' count count' done done' since (reading l before i candidate) d c same
        left (k, e, pos, old, new, le, copied) =
      (k, e, pos, old, omega (arith, new, d), le, λ q. absurd (left k new (q ∙ e)))
  ReaderHolds-later s s' h h' count count' done done' since (returned none) d c same left a = tt
  ReaderHolds-later s s' h h' count count' done done' since (returned (some candidate)) d c same
        left (k, old, pos, le, whole) =
      (
        k,
        old,
        pos,
        omega (arith, le, c),
        λ j p.
            subst (λ (t : Array V). candidate j ≡ b.from_bits (b.to_bits (t j))) (same k le)
              (whole j p),
      )

  pub next_try-Holds :
      (s : TargetSlot) (h : ℕ → Array V) (count done since left : ℕ)
      → since ≤ done
      → ReaderHolds b n s h count done since (next_try b n left)
  unfolding next_try
  next_try-Holds s h count done since zero l = tt
  next_try-Holds s h count done since (suc left) l = l

  -- An even sequence: the writer is not in a call, and the words are those of the last one.
  pub quiet-Words :
      (s : TargetSlot) (h : ℕ → Array V) (count k : ℕ) (w : Writer b n)
      → WriterHolds b n s h count w
      → s.sequence ≡ 2 * k
      → 0 < k
      → (k ≡ count) × (ended b n w count ≡ count) × Words b n s.values (h k) n
  quiet-Words s h count k idle (e, words) q p =
      let c : k ≡ count = omega (arith, e, q) in
      (c, refl, subst (λ x. Words b n s.values (h x) n) (sym c) (words (omega (arith, c, p))))
  quiet-Words s h count k (storing target i) (e, pos, le, eq, words) q p =
      absurd (omega (arith, e, q))

  -- The half of an even sequence that is not 0
  pub even-half : (q : ℕ) → q ≢ 0 → q % 2 ≢ 1 → (k : ℕ) × (q ≡ 2 * k) × (0 < k)
  even-half q z o = let e : q ≡ 2 * (q / 2) = ground arith in (q / 2, e, ground arith)

  pub read_step-Holds :
      (s : TargetSlot) (h : ℕ → Array V) (count since : ℕ) (w : Writer b n) (r : Reader b n)
      → WriterHolds b n s h count w
      → ReaderHolds b n s h count (ended b n w count) since r
      → ReaderHolds b n s h count (ended b n w count) since (read_step b n s r)
  unfolding read_step
  read_step-Holds s h count since w waiting a x = tt
  read_step-Holds s h count since w (trying left) a x =
      if_intro (ReaderHolds b n s h count (ended b n w count) since)
        ((s.sequence == 0) || ((s.sequence % 2) == 1))
        (λ d. next_try-Holds s h count (ended b n w count) since left x)
        (λ d.
          let (k, e, p) = even-half s.sequence (ground arith) (ground arith) in
          let (c, done, words) = quiet-Words s h count k w a e p in
          (
            k,
            e,
            p,
            omega (arith, x, c, done),
            omega (arith, c, done),
            omega arith,
            λ q j l. absurd (omega (arith, l)),
          ))
  read_step-Holds s h count since w (reading left before i candidate) a
        (k, e, p, old, new, le, copied) =
      if_intro (ReaderHolds b n s h count (ended b n w count) since) (i == n)
        (λ d.
          if_intro (ReaderHolds b n s h count (ended b n w count) since) (s.sequence == before)
            (λ g.
              let q : s.sequence ≡ before = ground arith in
              let (c, done, words) = quiet-Words s h count k w a (q ∙ e) p in
              (
                k,
                old,
                p,
                omega (arith, c),
                λ j l. let l' : j < i = ground arith in copied q j l' ∙ ap b.from_bits (words j l),
              ))
            (λ g.
              next_try-Holds s h count (ended b n w count) since left (omega (arith, old, new))))
        (λ d.
          let more : i + 1 ≤ n = ground arith in
          (k, e, p, old, new, more, λ q. Copied-update b n s.values candidate i (copied q)))
  read_step-Holds s h count since w (returned none) a x = tt
  read_step-Holds s h count since w (returned (some candidate)) a x = x
