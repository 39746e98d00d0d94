-- ===== src/Robot/TargetControl/Slot.antt =====
-- The mailbox between a commander and the realtime loop
-- (crates/franka-rs/src/robot/target_control/slot.rs), one atomic access at a time.
use franka_rs.Common.{
  ℕ, zero, suc, ◌+◌, ◌*◌, ◌%◌, ◌^◌, ◌==◌, ◌||◌, Bool, true, false, Option, none, some,
  if◌then◌else◌,
}
pub mod Reads
pub mod Threads
pub mod Writing
pub mod Reading
pub mod Torn
pub mod Quiet

-- `[A; N]`, by index; only the indices below `N` are ever used.
abbrev pub Array {ℓ} : Type ℓ → Type ℓ
Array A = ℕ → A

unfoldable pub update {ℓ} : {A : Type ℓ} → Array A → ℕ → A → Array A
update f i v j = if j == i then v else f j

-- `f64::to_bits` and `f64::from_bits`, on a type of doubles `V`
pub record Bits (V : Type 0) : Type 0 where
  pub to_bits : V → ℕ
  pub from_bits : ℕ → V

pub record TargetSlot : Type 0 where
  pub sequence : ℕ  -- AtomicU64
  pub values : Array ℕ  -- [AtomicU64; N]

unfoldable pub empty_slot : TargetSlot
empty_slot = record { sequence = 0; values = λ _. 0 }

-- `self.sequence.fetch_add(1, Ordering::SeqCst)`
unfoldable pub bump : TargetSlot → TargetSlot
bump s = record s { sequence = (s.sequence + 1) % 2 ^ 64 }

-- `slot.store(value.to_bits(), Ordering::SeqCst)`
unfoldable pub store : TargetSlot → ℕ → ℕ → TargetSlot
unfolding update
store s i word = record s { values = update s.values i word }

module _ {V : Type 0} (b : Bits V) (n : ℕ) where
  -- Where the writer stands in `publish`.
  pub data Writer : Type 0 where
    idle : Writer
    storing : (target : Array V) (i : ℕ) → Writer  -- before the store of the value `i`

  -- The first access of `publish`
  unfoldable pub begin_write : TargetSlot → Array V → TargetSlot × Writer
  begin_write s target = (bump s, storing target 0)

  -- The accesses after it: a store for each value, and the second `fetch_add`
  unfoldable pub write_step : TargetSlot → Writer → TargetSlot × Writer
  write_step s idle = (s, idle)
  write_step s (storing target i) =
      if i == n then (bump s, idle) else (store s i (b.to_bits (target i)), storing target (i + 1))

  -- Where a reader stands in `load`; `left` are the tries after the present one.
  pub data Reader : Type 0 where
    waiting : Reader  -- not in `load`
    trying : (left : ℕ) → Reader  -- before the first load of the sequence
    -- before the load of the value `i`, or the second of the sequence if there is none
    reading : (left before i : ℕ) (candidate : Array V) → Reader
    -- `some` is `true` with what was copied into `into`, `none` is `false`
    returned : (result : Option (Array V)) → Reader

  -- `continue`, or the end of the loop over the tries
  unfoldable pub next_try : ℕ → Reader
  next_try zero = returned none
  next_try (suc left) = trying left

  abbrev pub no_values : Array V
  no_values i = b.from_bits 0

  -- One access of `load`
  unfoldable pub read_step : TargetSlot → Reader → Reader
  read_step s waiting = waiting
  read_step s (trying left) =
      if (s.sequence == 0) || ((s.sequence % 2) == 1)
      then next_try left
      else reading left s.sequence 0 no_values
  read_step s (reading left before i candidate) =
      if i == n
      then if s.sequence == before then returned (some candidate) else next_try left
      else reading left before (i + 1) (update candidate i (b.from_bits (s.values i)))
  read_step s (returned result) = returned result

  -- `load` is entered with three tries.
  unfoldable pub begin_read : Reader
  begin_read = trying 2

  -- The accesses of a reader, with what the slot holds at each of them
  unfoldable pub read_steps : ℕ → (ℕ → TargetSlot) → Reader → Reader
  read_steps zero slot r = r
  read_steps (suc k) slot r = read_steps k (λ j. slot (suc j)) (read_step (slot 0) r)

  unfoldable pub result_of : Reader → Option (Array V)
  result_of (returned result) = result
  result_of _ = none

  -- `load`, where the slot is `slot k` at its access `k`; `Slot.Reads` shows the fuel enough.
  unfoldable pub load : (ℕ → TargetSlot) → Option (Array V)
  load slot = result_of (read_steps (3 * (n + 2)) slot begin_read)

  -- The values below `i` stored, in order
  unfoldable pub store_all : ℕ → TargetSlot → Array V → TargetSlot
  store_all zero s target = s
  store_all (suc i) s target = store (store_all i s target) i (b.to_bits (target i))

  -- `publish` with nothing in between, as its caller sees it
  unfoldable pub publish : TargetSlot → Array V → TargetSlot
  publish s target = bump (store_all n (bump s) target)

  -- `new`
  unfoldable pub new_slot : Array V → TargetSlot
  new_slot initial = publish empty_slot initial
