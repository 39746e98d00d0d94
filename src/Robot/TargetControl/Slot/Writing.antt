-- ===== src/Robot/TargetControl/Slot/Writing.antt =====
-- What the writer's steps keep of the slot
-- (crates/franka-rs/src/robot/target_control/slot.rs).
use franka_rs.Common.{
  ℕ, ◌+◌, ◌*◌, ◌^◌, ◌≤◌, ◌<◌, ◌==◌, none, some, ◌≡◌, sym, ap, subst, ◌∙◌, arith, if_intro,
}
use franka_rs.Robot.TargetControl.Slot.{
  TargetSlot, Bits, Array, Writer, Reader, write_step, bump, store, update, idle, storing, waiting,
  trying, reading, returned,
}

module _ {V : Type 0} (b : Bits V) (n : ℕ) where
  -- The words are those of a target, below `i`.
  abbrev pub Words : Array ℕ → Array V → ℕ → Type 0
  Words values target i = (j : ℕ) → j < i → values j ≡ b.to_bits (target j)

  abbrev pub Copied : Array V → Array ℕ → ℕ → Type 0
  Copied candidate values i = (j : ℕ) → j < i → candidate j ≡ b.from_bits (values j)

  -- The writer's side: the sequence counts the calls twice, and the words are those of the last
  -- call, as far as it has come.
  abbrev pub WriterHolds : TargetSlot → (ℕ → Array V) → ℕ → Writer b n → Type 0
  WriterHolds s h count idle = (s.sequence ≡ 2 * count) × (0 < count → Words s.values (h count) n)
  WriterHolds s h count (storing target i) =
      (s.sequence + 1 ≡ 2 * count)
      × (0 < count)
      × (i ≤ n)
      × (target ≡ h count)
      × Words s.values (h count) i

  -- The candidate is the target of the call `k`, through the bits and back.
  abbrev pub Whole : (ℕ → Array V) → ℕ → ℕ → Array V → Type 0
  Whole h count since candidate =
      (k : ℕ) × (since ≤ k)
      × (0 < k)
      × (k ≤ count)
      × ((j : ℕ) → j < n → candidate j ≡ b.from_bits (b.to_bits (h k j)))

  -- The reader's side, with `done` calls of `publish` ended: while the sequence is the one it
  -- began with, what it has copied is what the words are.
  abbrev pub ReaderHolds : TargetSlot → (ℕ → Array V) → ℕ → ℕ → ℕ → Reader b n → Type 0
  ReaderHolds s h count done since waiting = Unit {0}
  ReaderHolds s h count done since (trying left) = since ≤ done
  ReaderHolds s h count done since (reading left before i candidate) =
      (k : ℕ) × (before ≡ 2 * k)
      × (0 < k)
      × (since ≤ k)
      × (k ≤ done)
      × (i ≤ n)
      × (s.sequence ≡ before → Copied candidate s.values i)
  ReaderHolds s h count done since (returned none) = Unit {0}
  ReaderHolds s h count done since (returned (some candidate)) = Whole h count since candidate

  -- Storing one word more
  pub Words-store :
      (values : Array ℕ) (target : Array V) (i : ℕ)
      → Words values target i
      → Words (update values i (b.to_bits (target i))) target (i + 1)
  unfolding update
  Words-store values target i h j p =
      if_intro (λ (w : ℕ). w ≡ b.to_bits (target j)) (j == i)
        (λ e. let eq : j ≡ i = ground arith in ap (λ x. b.to_bits (target x)) (sym eq))
        (λ e. h j (ground arith))

  pub Copied-update :
      (values : Array ℕ) (candidate : Array V) (i : ℕ)
      → Copied candidate values i
      → Copied (update candidate i (b.from_bits (values i))) values (i + 1)
  unfolding update
  Copied-update values candidate i h j p =
      if_intro (λ (w : V). w ≡ b.from_bits (values j)) (j == i)
        (λ e. let eq : j ≡ i = ground arith in ap (λ x. b.from_bits (values x)) (sym eq))
        (λ e. h j (ground arith))

  pub update_same : (h : ℕ → Array V) (k : ℕ) (t : Array V) → update h k t k ≡ t
  unfolding update
  update_same h k t = ground arith

  pub update_before : (h : ℕ → Array V) (k m : ℕ) (t : Array V) → m < k → update h k t m ≡ h m
  unfolding update
  update_before h k m t l = ground arith

  -- The counter does not wrap in fewer than 2 ^ 63 calls.
  pub bump-sequence :
      (s : TargetSlot) → s.sequence + 1 < 2 ^ 64 → (bump s).sequence ≡ s.sequence + 1
  unfolding bump
  bump-sequence s h = omega (arith, h)

  pub begin_write-Holds :
      (s : TargetSlot) (h : ℕ → Array V) (count : ℕ) (t : Array V)
      → count + 1 < 2 ^ 63
      → s.sequence ≡ 2 * count
      → WriterHolds (bump s) (update h (count + 1) t) (count + 1) (storing t 0)
  begin_write-Holds s h count t l e =
      let q : (bump s).sequence ≡ s.sequence + 1 = bump-sequence s (omega (arith, l, e)) in
      (
        omega (arith, q, e),
        omega arith,
        omega arith,
        sym (update_same h (count + 1) t),
        λ j p. absurd (omega (arith, p)),
      )

  -- The slot and the place that the writer comes to
  abbrev pub Stored : (ℕ → Array V) → ℕ → TargetSlot × Writer b n → Type 0
  Stored h count (s, w) = WriterHolds s h count w

  pub write_step-Holds :
      (s : TargetSlot) (h : ℕ → Array V) (count : ℕ) (w : Writer b n)
      → count < 2 ^ 63
      → WriterHolds s h count w
      → Stored h count (write_step b n s w)
  unfolding write_step store bump
  write_step-Holds s h count idle l a = a
  write_step-Holds s h count (storing target i) l (e, pos, le, eq, words) =
      if_intro (Stored h count) (i == n)
        (λ d.
          let q : (bump s).sequence ≡ s.sequence + 1 = bump-sequence s (omega (arith, l, e)) in
          let done : i ≡ n = ground arith in
          (q ∙ e, λ p. subst (λ k. Words s.values (h count) k) done words))
        (λ d.
          let more : i + 1 ≤ n = ground arith in
          (
            e,
            pos,
            more,
            eq,
            subst (λ (t : Array V). Words (update s.values i (b.to_bits (target i))) t (i + 1)) eq
                (Words-store s.values target i (subst (λ t. Words s.values t i) (sym eq) words)),
          ))
