-- ===== src/Robot/TargetControl/Slot/Threads.antt =====
-- The commander's thread and the realtime loop over one slot, interleaved in any order
-- (crates/franka-rs/src/robot/target_control/slot.rs).
use franka_rs.Common.{ℕ, ◌+◌, ◌-◌, ◌≡◌}
use franka_rs.Robot.TargetControl.Slot.{
  TargetSlot, Bits, Array, Writer, Reader, empty_slot, begin_write, write_step, read_step,
  begin_read, idle, storing, waiting, update,
}

module _ {V : Type 0} (b : Bits V) (n : ℕ) where
  -- One writer at a time (`Shared::writer` serialises the callers) and one reader: a reader changes
  -- nothing, so that another makes no difference to it. The last three fields are not in the code:
  -- what was handed to `publish`, by number from 1, the number of those calls, and the number of
  -- those that had ended when the present `load` was called.
  pub record System : Type 0 where
    pub slot : TargetSlot
    pub writer : Writer b n
    pub reader : Reader b n
    pub history : ℕ → Array V
    pub count : ℕ
    pub since : ℕ

  abbrev pub start_system : (ℕ → Array V) → System
  start_system h = record {
    slot = empty_slot;
    writer = idle;
    reader = waiting;
    history = h;
    count = 0;
    since = 0;
  }

  -- A new call of `publish`
  abbrev pub publishing : System → Array V → System
  publishing s target =
      let (slot', writer') = begin_write b n s.slot target in
      record s {
        slot = slot';
        writer = writer';
        history = update s.history (s.count + 1) target;
        count = s.count + 1;
      }

  abbrev pub written : System → System
  written s =
      let (slot', writer') = write_step b n s.slot s.writer in
      record s { slot = slot'; writer = writer' }

  -- The calls of `publish` that have ended
  abbrev pub ended : Writer b n → ℕ → ℕ
  ended idle count = count
  ended (storing target i) count = count - 1

  abbrev pub loading : System → System
  loading s = record s { reader = begin_read b n; since = ended s.writer s.count }

  abbrev pub read : System → System
  read s = record s { reader = read_step b n s.slot s.reader }

  pub data Step (s : System) : System → Type 0 where
    publish_step : (target : Array V) → s.writer ≡ idle → Step s (publishing s target)
    store_step : Step s (written s)
    load_step : Step s (loading s)
    read_one_step : Step s (read s)

  -- A slot as `Default` makes it, and whatever the two threads have done with it since
  pub data Reach : System → Type 0 where
    start : (h : ℕ → Array V) → Reach (start_system h)
    later : {s t : System} → Reach s → Step s t → Reach t
