-- ===== src/Robot/TargetControl/Slot/Quiet.antt =====
-- A load that no writer disturbs (crates/franka-rs/src/robot/target_control/slot.rs).
use franka_rs.Common.{
  ℕ, zero, suc, ◌+◌, ◌*◌, ◌%◌, ◌^◌, ◌<◌, true, false, ◌==◌, ◌||◌, Option, some, ◌≡◌, ◌≢◌, refl, ap,
  subst, ◌∙◌, arith, if_true, if_false,
}
use franka_rs.Robot.TargetControl.Slot.{
  TargetSlot, Bits, Array, Reader, read_step, read_steps, begin_read, result_of, load, bump, store,
  store_all, publish, update, no_values, trying, reading, returned,
}
use franka_rs.Robot.TargetControl.Slot.Writing.{Words, Copied, Words-store, Copied-update}

module _ {V : Type 0} (b : Bits V) (n : ℕ) where
  read_steps-returned_stays :
      (k : ℕ) (slot : ℕ → TargetSlot) (r : Option (Array V))
      → read_steps b n k slot (returned r) ≡ returned r
  unfolding read_steps read_step
  read_steps-returned_stays zero slot r = refl
  read_steps-returned_stays (suc k) slot r = read_steps-returned_stays k (λ j. slot (suc j)) r

  -- The reader has copied every word.
  abbrev Read : TargetSlot → Reader b n → Type 0
  Read s r =
      (candidate : Array V) × (r ≡ returned (some candidate)) × Copied b n candidate s.values n

  reading-Read :
      (s : TargetSlot) (f m left i : ℕ) (candidate : Array V)
      → m < f
      → i + m ≡ n
      → Copied b n candidate s.values i
      → Read s (read_steps b n f (λ j. s) (reading left s.sequence i candidate))
  unfolding read_steps read_step
  reading-Read s zero m left i candidate l e c = absurd (omega (arith, l))
  reading-Read s (suc f) zero left i candidate l e c =
      let last : (i == n) ≡ true = ground arith in
      let same : (s.sequence == s.sequence) ≡ true = ground arith in
      let all : i ≡ n = omega (arith, e) in
      (
        candidate,
        ap (read_steps b n f (λ j. s))
              (if_true (i == n) _ _ last ∙ if_true (s.sequence == s.sequence) _ _ same)
            ∙ read_steps-returned_stays f (λ j. s) (some candidate),
        subst (λ m. Copied b n candidate s.values m) all c,
      )
  reading-Read s (suc f) (suc m) left i candidate l e c =
      let more : (i == n) ≡ false = ground arith in
      let word : V = b.from_bits (s.values i) in
      let (d, q, w) =
        reading-Read s f m left (i + 1) (update candidate i word) (omega (arith, l))
          (omega (arith, e)) (Copied-update b n s.values candidate i c) in
      (d, ap (read_steps b n f (λ j. s)) (if_false (i == n) _ _ more) ∙ q, w)

  -- A slot that stands still, its sequence even and not 0
  load_still :
      (s : TargetSlot)
      → s.sequence ≢ 0
      → s.sequence % 2 ≢ 1
      → (candidate : Array V) × (load b n (λ j. s) ≡ some candidate)
        × Copied b n candidate s.values n
  unfolding load begin_read result_of read_steps read_step
  load_still s z o =
      let fresh : (s.sequence == 0) || ((s.sequence % 2) == 1) ≡ false = ground arith in
      let f : 3 * (n + 2) ≡ suc (3 * n + 5) = omega arith in
      let (c, q, w) =
        reading-Read s (3 * n + 5) n 2 0 (no_values b n) (omega arith) (omega arith)
          (λ j l. absurd (omega (arith, l))) in
      (
        c,
        ap (λ k. result_of b n (read_steps b n k (λ j. s) (trying 2))) f
            ∙ (ap (λ r. result_of b n (read_steps b n (3 * n + 5) (λ j. s) r))
                  (if_false ((s.sequence == 0) || ((s.sequence % 2) == 1)) _ _ fresh)
                ∙ ap (result_of b n) q),
        w,
      )

  store_all-Words :
      (i : ℕ) (s : TargetSlot) (t : Array V)
      → ((store_all b n i s t).sequence ≡ s.sequence) × Words b n (store_all b n i s t).values t i
  unfolding store_all store
  store_all-Words zero s t = (refl, λ j l. absurd (omega (arith, l)))
  store_all-Words (suc i) s t =
      let (q, w) = store_all-Words i s t in
      (q, λ j l. Words-store b n (store_all b n i s t).values t i w j (omega (arith, l)))

  -- A load after a `publish` that nothing disturbs gives back what was published, unless the
  -- sequence number is odd or at its last even value, from which it wraps to 0.
  pub load-publish :
      (s : TargetSlot) (target : Array V)
      → s.sequence % 2 ≡ 0
      → s.sequence + 2 < 2 ^ 64
      → ((v : V) → b.from_bits (b.to_bits v) ≡ v)
      → (candidate : Array V) × (load b n (λ j. publish b n s target) ≡ some candidate)
        × ((j : ℕ) → j < n → candidate j ≡ target j)
  unfolding publish bump
  load-publish s target even l round =
      let (q, w) = store_all-Words n (bump s) target in
      let up : (bump s).sequence ≡ s.sequence + 1 = omega (arith, l) in
      let e : (publish b n s target).sequence ≡ s.sequence + 2 = omega (arith, q, up, l) in
      let (c, found, copied) =
        load_still (publish b n s target) (λ z. omega (arith, e, z))
          (λ z. omega (arith, e, z, even)) in
      (c, found, λ j p. copied j p ∙ (ap b.from_bits (w j p) ∙ round (target j)))
