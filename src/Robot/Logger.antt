-- ===== src/Robot/Logger.antt =====
-- The ring buffer of the last cycles (crates/franka-rs/src/robot/logger.rs). The vectors of states and
-- of commands are written and read at the same places, and are one list of pairs here. An index out
-- of range panics: `none`.
pub mod Ring
pub mod History
use franka_rs.Common.{
  ℕ, zero, suc, ◌+◌, ◌%◌, min, Bool, true, false, Option, none, some, List, [], ◌∷◌, ◌==◌,
  if◌then◌else◌,
}

-- `RobotStateLogger`
pub record RobotStateLogger (A : Type 0) : Type 0 where
  pub log_size : ℕ
  pub entries : List A
  pub ring_front : ℕ
  pub ring_size : ℕ

abbrev pub replicate : {A : Type 0} → ℕ → A → List A
replicate zero a = []
replicate (suc n) a = a ∷ replicate n a

-- `entries[i]` and `entries[i] = a`
abbrev pub get_elem? : {A : Type 0} → List A → ℕ → Option A
get_elem? [] i = none
get_elem? (x ∷ xs) zero = some x
get_elem? (x ∷ xs) (suc i) = get_elem? xs i

abbrev pub cons_to : {A : Type 0} → A → Option (List A) → Option (List A)
cons_to x none = none
cons_to x (some xs) = some (x ∷ xs)

abbrev pub set? : {A : Type 0} → List A → ℕ → A → Option (List A)
set? [] i a = none
set? (x ∷ xs) zero a = some (a ∷ xs)
set? (x ∷ xs) (suc i) a = cons_to x (set? xs i a)

module _ {A : Type 0} where
  -- `new`, with the default entry
  unfoldable pub new_logger : ℕ → A → RobotStateLogger A
  new_logger log_size default = record {
    log_size = log_size;
    entries = replicate log_size default;
    ring_front = 0;
    ring_size = 0;
  }

  -- `log`
  unfoldable pub log : A → RobotStateLogger A → Option (RobotStateLogger A)
  log a l = if l.log_size == 0 then some l else elim (set? l.entries l.ring_front a) [
    | none ↦ none
    | some entries ↦ some (record l {
      entries = entries;
      ring_front = (l.ring_front + 1) % l.log_size;
      ring_size = min l.log_size (l.ring_size + 1);
    })
  ]

  -- The loop of `flush` over `i`, for `count` entries more
  abbrev pub gathered : Option A → Option (List A) → Option (List A)
  gathered none rest = none
  gathered (some a) rest = cons_to a rest

  unfoldable pub gather : List A → ℕ → ℕ → ℕ → ℕ → Option (List A)
  gather entries front size zero i = some []
  gather entries front size (suc count) i =
      gathered (get_elem? entries ((front + i) % size)) (gather entries front size count (suc i))

  -- `flush`
  unfoldable pub flush : RobotStateLogger A → Option (List A × RobotStateLogger A)
  flush l = elim (gather l.entries l.ring_front l.ring_size l.ring_size 0) [
    | none ↦ none
    | some log ↦ some (log, record l { ring_front = 0; ring_size = 0 })
  ]
