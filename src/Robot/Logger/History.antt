-- ===== src/Robot/Logger/History.antt =====
-- The logger as a list that forgets all but its newest entries (crates/franka-rs/src/robot/logger.rs).
use mathlib.Core.List.{append-nil, append_assoc}
use franka_rs.Common.{
  ℕ, zero, suc, ◌+◌, ◌-◌, ◌≡◌, Option, none, some, List, [], ◌∷◌, ◌++◌, refl, ap, sym, subst, ◌∙◌,
  arith, length, drop, length-append, length-drop, drop_add, drop-append_le, drop_all,
}
use franka_rs.Robot.Logger.{RobotStateLogger, replicate, new_logger, log, flush}
use franka_rs.Robot.Logger.Ring.{Holds, part, off, recorded, log-Holds, flush-Holds}

module _ {A : Type 0} where
  -- The newest `n` of a list, oldest first
  abbrev pub newest : ℕ → List A → List A
  newest n h = drop (length h - n) h

  -- One `log` after another
  abbrev pub then_log :
      (RobotStateLogger A → Option (RobotStateLogger A))
      → Option (RobotStateLogger A)
      → Option (RobotStateLogger A)
  then_log next none = none
  then_log next (some l) = next l

  unfoldable pub log_all : List A → RobotStateLogger A → Option (RobotStateLogger A)
  log_all [] l = some l
  log_all (a ∷ cycles) l = then_log (log_all cycles) (log a l)

  recorded-newest :
      (n : ℕ) (a : A) (h : List A) → recorded n a (newest n h) ≡ newest n (h ++ a ∷ [])
  recorded-newest n a h =
      let d = length h - n in
      let e = suc (length (drop d h)) - n in
      let len = length-append h (a ∷ []) in
      let left = length-drop d h in
      let total : length (h ++ a ∷ []) - n ≡ d + e = omega (arith, len, left) in
      sym (
        ap (λ k. drop k (h ++ a ∷ [])) total
        ∙ (drop_add d e (h ++ a ∷ [])
            ∙ ap (λ l. drop e l) (drop-append_le d h (a ∷ []) (omega arith))))

  length-replicate : (n : ℕ) (a : A) → length (replicate n a) ≡ n
  length-replicate zero a = refl
  length-replicate (suc n) a = omega (arith, length-replicate n a)

  pub new_logger-Holds : (n : ℕ) (default : A) → Holds (new_logger n default) []
  unfolding new_logger
  new_logger-Holds zero default = off refl refl
  new_logger-Holds (suc n) default =
      let len = length-replicate n default in
      part [] (replicate (suc n) default) refl refl refl (omega (arith, len)) (omega arith)

  abbrev Keeps : ℕ → List A → Option (RobotStateLogger A) → Type 0
  Keeps n h o = (l : RobotStateLogger A) × (o ≡ some l) × Holds l (newest n h) × (l.log_size ≡ n)

  log_all-Keeps :
      (n : ℕ) (cycles h : List A) (l : RobotStateLogger A)
      → Holds l (newest n h)
      → l.log_size ≡ n
      → Keeps n (h ++ cycles) (log_all cycles l)
  unfolding log_all
  log_all-Keeps n [] h l holds size =
      subst (λ x. Keeps n x (some l)) (sym (append-nil h)) (l, refl, holds, size)
  log_all-Keeps n (a ∷ cycles) h l holds size =
      let (k, logged, held, same) = log-Holds a l (newest n h) holds in
      let held_newest =
        subst (Holds k) (ap (λ m. recorded m a (newest n h)) size ∙ recorded-newest n a h) held in
      let more = log_all-Keeps n cycles (h ++ a ∷ []) k held_newest (same ∙ size) in
      subst (λ o. Keeps n (h ++ a ∷ cycles) (then_log (log_all cycles) o)) (sym logged)
        (subst (λ x. Keeps n x (log_all cycles k)) (append_assoc h (a ∷ []) cycles) more)

  new_logger-size : (n : ℕ) (default : A) → (new_logger n default).log_size ≡ n
  unfolding new_logger
  new_logger-size n default = refl

  -- A new logger of size `n`, whatever cycles it logs, has no index out of range, and a flush then
  -- gives the newest `n` of the cycles, oldest first, and leaves it empty.
  pub flush-log_all :
      (n : ℕ) (default : A) (cycles : List A)
      → (l : RobotStateLogger A) × (log_all cycles (new_logger n default) ≡ some l)
        × (flush l ≡ some (newest n cycles, record l { ring_front = 0; ring_size = 0 }))
  flush-log_all n default cycles =
      let start =
        subst (Holds (new_logger n default)) (sym (drop_all (0 - n) [] (omega arith)))
          (new_logger-Holds n default) in
      let (l, logged, held, _) =
        log_all-Keeps n cycles [] (new_logger n default) start (new_logger-size n default) in
      (l, logged, flush-Holds l (newest n cycles) held)
