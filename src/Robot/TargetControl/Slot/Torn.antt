-- ===== src/Robot/TargetControl/Slot/Torn.antt =====
-- No torn target: what a load returns is one target, whole
-- (crates/franka-rs/src/robot/target_control/slot.rs).
use franka_rs.Common.{
  ℕ, ◌+◌, ◌-◌, ◌^◌, ◌≤◌, ◌<◌, ◌==◌, some, ◌≡◌, refl, sym, subst, ◌∙◌, arith, if_intro,
}
use franka_rs.Robot.TargetControl.Slot.{
  TargetSlot, empty_slot, Bits, Array, Writer, Reader, write_step, begin_write, begin_read, bump,
  store, update, idle, storing, returned,
}
use franka_rs.Robot.TargetControl.Slot.Threads.{
  System, Step, Reach, ended, publish_step, store_step, load_step, read_one_step, start, later,
}
use franka_rs.Robot.TargetControl.Slot.Writing.{
  WriterHolds, ReaderHolds, update_before, bump-sequence, begin_write-Holds, write_step-Holds,
}
use franka_rs.Robot.TargetControl.Slot.Reading.{ReaderHolds-later, read_step-Holds}

module _ {V : Type 0} (b : Bits V) (n : ℕ) where
  -- The state of the slot and of both threads, with `done` calls of `publish` ended
  abbrev Holds : (ℕ → Array V) → ℕ → ℕ → Reader b n → TargetSlot × Writer b n → Type 0
  Holds h count since r (s, w) =
      WriterHolds b n s h count w × ReaderHolds b n s h count (ended b n w count) since r

  abbrev SystemHolds : System b n → Type 0
  SystemHolds s = s.count < 2 ^ 63 → Holds s.history s.count s.since s.reader (s.slot, s.writer)

  begin_both-Holds :
      (s : TargetSlot) (h : ℕ → Array V) (count since : ℕ) (t : Array V) (w : Writer b n)
      (r : Reader b n)
      → w ≡ idle
      → count + 1 < 2 ^ 63
      → Holds h count since r (s, w)
      → Holds (update h (count + 1) t) (count + 1) since r (begin_write b n s t)
  unfolding begin_write
  begin_both-Holds s h count since t w r e l (a, x) =
      let (q, words) = subst (λ v. WriterHolds b n s h count v) e a in
      let x' = subst (λ v. ReaderHolds b n s h count (ended b n v count) since r) e x in
      let q' : (bump s).sequence ≡ s.sequence + 1 = bump-sequence b n s (omega (arith, l, q)) in
      (
        begin_write-Holds b n s h count t l q,
        ReaderHolds-later b n s (bump s) h (update h (count + 1) t) count (count + 1) count
            (count + 1 - 1) since r (omega arith) (omega arith)
            (λ k le. sym (update_before b n h (count + 1) k t (omega (arith, le))))
            (λ k le z. omega (arith, q, q', z)) x',
      )

  abbrev Seen : (ℕ → Array V) → ℕ → ℕ → Reader b n → TargetSlot × Writer b n → Type 0
  Seen h count since r (s, w) = ReaderHolds b n s h count (ended b n w count) since r

  write_both-Holds :
      (s : TargetSlot) (h : ℕ → Array V) (count since : ℕ) (w : Writer b n) (r : Reader b n)
      → count < 2 ^ 63
      → Holds h count since r (s, w)
      → Holds h count since r (write_step b n s w)
  unfolding write_step store
  write_both-Holds s h count since idle r l a = a
  write_both-Holds s h count since (storing target i) r l (a, x) =
      let (e, pos, le, eq, words) = a in
      let q : (bump s).sequence ≡ s.sequence + 1 = bump-sequence b n s (omega (arith, l, e)) in
      let c : count - 1 ≤ count = omega arith in
      (
        write_step-Holds b n s h count (storing target i) l a,
        if_intro (Seen h count since r) (i == n)
            (λ d.
              ReaderHolds-later b n s (bump s) h h count count (count - 1) count since r c
                (omega arith) (λ k m. refl) (λ k m z. omega (arith, q, e, m, z)) x)
            (λ d.
              ReaderHolds-later b n s (store s i (b.to_bits (target i))) h h count count (count - 1)
                (count - 1) since r (omega arith) (omega arith) (λ k m. refl)
                (λ k m z. omega (arith, e, m, z)) x),
      )

  ended_le : (w : Writer b n) (count : ℕ) → ended b n w count ≤ ended b n w count
  ended_le w count = omega arith

  Step-Holds : (s t : System b n) → Step b n s t → SystemHolds s → SystemHolds t
  unfolding begin_read
  Step-Holds s t (publish_step target e) a l =
      begin_both-Holds s.slot s.history s.count s.since target s.writer s.reader e l
        (a (omega (arith, l)))
  Step-Holds s t store_step a l =
      write_both-Holds s.slot s.history s.count s.since s.writer s.reader l (a l)
  Step-Holds s t load_step a l = let (w, r) = a l in (w, ended_le s.writer s.count)
  Step-Holds s t read_one_step a l =
      let (w, r) = a l in
      (w, read_step-Holds b n s.slot s.history s.count s.since s.writer s.reader w r)

  Reach-Holds : (s : System b n) → Reach b n s → SystemHolds s
  unfolding empty_slot
  Reach-Holds s (start h) l = ((omega arith, λ p. absurd (omega (arith, p))), tt)
  Reach-Holds t (later r step) l = Step-Holds _ t step (Reach-Holds _ r) l

  -- While fewer than 2 ^ 63 targets have been published, what a call of `load` returns with `true`
  -- is one published target, every value of it: none older than the last one whose `publish` had
  -- returned when the load was called, and none but those handed to `publish` so far. This holds
  -- however the accesses of the two threads are interleaved, when a double goes through its bits
  -- and back unchanged.
  pub load_untorn :
      (s : System b n) (candidate : Array V)
      → Reach b n s
      → s.count < 2 ^ 63
      → ((v : V) → b.from_bits (b.to_bits v) ≡ v)
      → s.reader ≡ returned (some candidate)
      → (k : ℕ) × (s.since ≤ k)
        × (0 < k)
        × (k ≤ s.count)
        × ((j : ℕ) → j < n → candidate j ≡ s.history k j)
  load_untorn s candidate r l round e =
      let (w, x) = Reach-Holds s r l in
      let (k, old, pos, new, whole) =
        subst (ReaderHolds b n s.slot s.history s.count (ended b n s.writer s.count) s.since) e x in
      (k, old, pos, new, λ j p. whole j p ∙ round (s.history k j))
