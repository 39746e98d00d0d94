-- ===== src/Robot/Logger/Ring.antt =====
-- The ring buffer holds the last entries (crates/franka-rs/src/robot/logger.rs).
use native.Mathlib.Nat.{mod-eq_of_lt, mod-eq-sub-mod, mod_self}
use mathlib.Core.List.{append-nil, append_assoc}
use franka_rs.Common.{
  ℕ, zero, suc, ◌+◌, ◌-◌, ◌≤◌, ◌<◌, ◌%◌, min, ◌≡◌, Option, none, some, List, [], ◌∷◌, ◌++◌, refl,
  ap, sym, subst, ◌∙◌, arith, length, drop, length-append,
}
use franka_rs.Robot.Logger.{RobotStateLogger, get_elem?, set?, cons_to, log, gather, flush}

-- An index that has gone round once.
wrapped : (x n j : ℕ) → x ≡ n + j → j < n → x % n ≡ 0 + j
wrapped x n j e p =
    let round : x - n ≡ j = omega (arith, e) in
    let j0 : j ≡ 0 + j = omega arith in
    mod-eq-sub-mod (omega (arith, e)) ∙ (ap (λ y. y % n) round ∙ (mod-eq_of_lt p ∙ j0))

module _ {A : Type 0} where
  set?-append :
      (xs ys : List A) (y a : A) (n : ℕ)
      → length xs ≡ n
      → set? (xs ++ y ∷ ys) n a ≡ some (xs ++ a ∷ ys)
  set?-append [] ys y a zero e = refl
  set?-append [] ys y a (suc n) e = absurd (omega (arith, e))
  set?-append (x ∷ xs) ys y a zero e = absurd (omega (arith, e))
  set?-append (x ∷ xs) ys y a (suc n) e =
      ap (cons_to x) (set?-append xs ys y a n (omega (arith, e)))

  get_elem?-append :
      (xs ys : List A) (y : A) (n : ℕ) → length xs ≡ n → get_elem? (xs ++ y ∷ ys) n ≡ some y
  get_elem?-append [] ys y zero e = refl
  get_elem?-append [] ys y (suc n) e = absurd (omega (arith, e))
  get_elem?-append (x ∷ xs) ys y zero e = absurd (omega (arith, e))
  get_elem?-append (x ∷ xs) ys y (suc n) e = get_elem?-append xs ys y n (omega (arith, e))

  -- What the buffer stands for: the newest `log_size` entries, oldest first. `older` are the slots
  -- before the front, `others` the slots from it on, which are the oldest entries once the buffer is
  -- full and unused before.
  pub data Holds (l : RobotStateLogger A) : List A → Type 0 where
    part :
        (older others : List A)
        → l.entries ≡ older ++ others
        → length older ≡ l.ring_front
        → l.ring_size ≡ l.ring_front
        → length older + length others ≡ l.log_size
        → 0 < length others
        → Holds l older
    full :
        (older others : List A)
        → l.entries ≡ older ++ others
        → length older ≡ l.ring_front
        → l.ring_size ≡ l.log_size
        → length older + length others ≡ l.log_size
        → 0 < length others
        → Holds l (others ++ older)
    off : l.log_size ≡ 0 → l.ring_size ≡ 0 → Holds l []

  -- The newest `n` of a history and one entry more
  abbrev pub recorded : ℕ → A → List A → List A
  recorded n a h = drop (suc (length h) - n) (h ++ a ∷ [])

  log_set :
      (a : A) (l : RobotStateLogger A) (es : List A) (front : ℕ)
      → 0 < l.log_size
      → set? l.entries l.ring_front a ≡ some es
      → (l.ring_front + 1) % l.log_size ≡ front
      → log a l
        ≡ some (record l {
          entries = es;
          ring_front = front;
          ring_size = min l.log_size (l.ring_size + 1);
        })
  unfolding log
  log_set a l es front p e f = ground arith

  -- The entry goes to the place of the front.
  abbrev Logged : A → RobotStateLogger A → List A → Type 0
  Logged a l h =
      (k : RobotStateLogger A) × (log a l ≡ some k) × Holds k h × (k.log_size ≡ l.log_size)

  wraps :
      (a : A) (l : RobotStateLogger A) (older : List A) (y : A)
      → l.entries ≡ older ++ y ∷ []
      → length older ≡ l.ring_front
      → suc (length older) ≡ l.log_size
      → l.log_size ≤ l.ring_size + 1
      → Logged a l (older ++ a ∷ [])
  wraps a l older y e f n size =
      let es = older ++ a ∷ [] in
      let set = ap (λ x. set? x l.ring_front a) e ∙ set?-append older [] y a l.ring_front f in
      let front : (l.ring_front + 1) % l.log_size ≡ 0 =
        ap (λ x. x % l.log_size) (omega (arith, f, n)) ∙ mod_self l.log_size in
      let len = length-append older (a ∷ []) in
      let k = record l {
        entries = es;
        ring_front = 0;
        ring_size = min l.log_size (l.ring_size + 1);
      } in
      let held : Holds k (es ++ []) =
        full [] es refl refl (omega (arith, size)) (omega (arith, len, n)) (omega (arith, len)) in
      (k, log_set a l es 0 (omega (arith, n)) set front, subst (Holds k) (append-nil es) held, refl)

  steps :
      (a : A) (l : RobotStateLogger A) (older : List A) (y z : A) (ys : List A)
      → l.entries ≡ older ++ y ∷ z ∷ ys
      → length older ≡ l.ring_front
      → length older + suc (suc (length ys)) ≡ l.log_size
      → log a l
        ≡ some (record l {
          entries = (older ++ a ∷ []) ++ z ∷ ys;
          ring_front = l.ring_front + 1;
          ring_size = min l.log_size (l.ring_size + 1);
        })
  steps a l older y z ys e f n =
      let set =
        ap (λ x. set? x l.ring_front a) e
        ∙ (set?-append older (z ∷ ys) y a l.ring_front f
            ∙ ap (λ x. some x) (sym (append_assoc older (a ∷ []) (z ∷ ys)))) in
      log_set a l ((older ++ a ∷ []) ++ z ∷ ys) (l.ring_front + 1) (omega (arith, n)) set
        (mod-eq_of_lt (omega (arith, f, n)))

  log_off : (a : A) (l : RobotStateLogger A) → l.log_size ≡ 0 → log a l ≡ some l
  unfolding log
  log_off a l z = ground arith

  -- A log of a cycle keeps the newest entries.
  pub log-Holds :
      (a : A) (l : RobotStateLogger A) (h : List A)
      → Holds l h
      → Logged a l (recorded l.log_size a h)
  log-Holds a l _ (part older [] e f r n p) = absurd (omega (arith, p))
  log-Holds a l _ (part older (y ∷ []) e f r n p) =
      let fits : suc (length older) - l.log_size ≡ 0 = omega (arith, n) in
      subst (Logged a l) (sym (ap (λ d. drop d (older ++ a ∷ [])) fits))
        (wraps a l older y e f (omega (arith, n)) (omega (arith, n, f, r)))
  log-Holds a l _ (part older (y ∷ z ∷ ys) e f r n p) =
      let fits : suc (length older) - l.log_size ≡ 0 = omega (arith, n) in
      let len = length-append older (a ∷ []) in
      subst (Logged a l) (sym (ap (λ d. drop d (older ++ a ∷ [])) fits)) (
        _,
        steps a l older y z ys e f n,
        part (older ++ a ∷ []) (z ∷ ys) refl (omega (arith, len, f)) (omega (arith, r, f, n))
            (omega (arith, len, n)) (omega arith),
        refl,
      )
  log-Holds a l _ (full older [] e f r n p) = absurd (omega (arith, p))
  log-Holds a l _ (full older (y ∷ []) e f r n p) =
      let fits : suc (suc (length older)) - l.log_size ≡ 1 = omega (arith, n) in
      subst (Logged a l) (sym (ap (λ d. drop d (y ∷ older ++ a ∷ [])) fits))
        (wraps a l older y e f (omega (arith, n)) (omega (arith, r)))
  log-Holds a l _ (full older (y ∷ z ∷ ys) e f r n p) =
      let len = length-append older (a ∷ []) in
      let all = length-append (y ∷ z ∷ ys) older in
      let fits : suc (length ((y ∷ z ∷ ys) ++ older)) - l.log_size ≡ 1 = omega (arith, n, all) in
      subst (Logged a l)
        (sym (
          ap (λ d. drop d (((y ∷ z ∷ ys) ++ older) ++ a ∷ [])) fits
          ∙ append_assoc (z ∷ ys) older (a ∷ [])))
        (
          _,
          steps a l older y z ys e f n,
          full (older ++ a ∷ []) (z ∷ ys) refl (omega (arith, len, f)) (omega (arith, r))
              (omega (arith, len, n)) (omega arith),
          refl,
        )
  log-Holds a l _ (off z r) =
      subst (Logged a l) (sym (ap (λ n. drop (1 - n) (a ∷ [])) z)) (l, log_off a l z, off z r, refl)

  gather_next :
      (entries : List A) (front size i : ℕ) (y : A) (ys : List A) (k : ℕ)
      → get_elem? entries ((front + i) % size) ≡ some y
      → gather entries front size k (suc i) ≡ some ys
      → gather entries front size (suc k) i ≡ some (y ∷ ys)
  unfolding gather
  gather_next entries front size i y ys k got more = ground arith

  -- A run of indices reads a run of entries.
  gather_run :
      (entries : List A) (front size k i : ℕ) (xs ys zs q : List A)
      → entries ≡ xs ++ (ys ++ zs)
      → ((j : ℕ) → j < length ys → (front + (i + j)) % size ≡ length xs + j)
      → gather entries front size k (i + length ys) ≡ some q
      → gather entries front size (length ys + k) i ≡ some (ys ++ q)
  gather_run entries front size k i xs [] zs q e at rest =
      let a : 0 + k ≡ k = omega arith in
      let b : i ≡ i + 0 = omega arith in
      ap (λ n. gather entries front size n i) a ∙ (ap (λ m. gather entries front size k m) b ∙ rest)
  gather_run entries front size k i xs (y ∷ ys) zs q e at rest =
      let count : suc (length ys) + k ≡ suc (length ys + k) = omega arith in
      let a : i + 0 ≡ i = omega arith in
      let b : i + suc (length ys) ≡ suc i + length ys = omega arith in
      let c : length xs + 0 ≡ length xs = omega arith in
      let index = ap (λ n. (front + n) % size) (sym a) ∙ (at 0 (omega arith) ∙ c) in
      let got =
        ap (λ l. get_elem? l ((front + i) % size)) e
        ∙ (ap (λ n. get_elem? (xs ++ (y ∷ (ys ++ zs))) n) index
            ∙ get_elem?-append xs (ys ++ zs) y (length xs) refl) in
      let more =
        gather_run entries front size k (suc i) (xs ++ y ∷ []) ys zs q
          (e ∙ sym (append_assoc xs (y ∷ []) (ys ++ zs)))
          (λ j p.
            let s : i + suc j ≡ suc i + j = omega arith in
            let len = length-append xs (y ∷ []) in
            let l : length xs + suc j ≡ length (xs ++ y ∷ []) + j = omega (arith, len) in
            ap (λ n. (front + n) % size) (sym s) ∙ (at (suc j) (omega (arith, p)) ∙ l))
          (ap (λ m. gather entries front size k m) (sym b) ∙ rest) in
      ap (λ n. gather entries front size n i) count
      ∙ gather_next entries front size i y _ _ got more

  flush_gathered :
      (l : RobotStateLogger A) (h : List A)
      → gather l.entries l.ring_front l.ring_size l.ring_size 0 ≡ some h
      → flush l ≡ some (h, record l { ring_front = 0; ring_size = 0 })
  unfolding flush
  flush_gathered l h e =
      ap
        (λ (o : Option (List A)). elim o [
          | none ↦ none
          | some log ↦ some (log, record l { ring_front = 0; ring_size = 0 })
        ])
        e

  gather_nothing : (entries : List A) (front size i : ℕ) → gather entries front size 0 i ≡ some []
  unfolding gather
  gather_nothing entries front size i = refl

  older_part :
      (l : RobotStateLogger A) (older others : List A) (i : ℕ)
      → l.entries ≡ older ++ others
      → ((j : ℕ) → j < length older → (l.ring_front + (i + j)) % l.ring_size ≡ 0 + j)
      → gather l.entries l.ring_front l.ring_size (length older + 0) i ≡ some older
  older_part l older others i e at =
      gather_run l.entries l.ring_front l.ring_size 0 i [] older others [] e at
        (gather_nothing l.entries l.ring_front l.ring_size (i + length older))
      ∙ ap (λ x. some x) (append-nil older)

  -- A flush gives the history that the buffer holds, oldest first, and empties it; no index is out of
  -- range.
  pub flush-Holds :
      (l : RobotStateLogger A) (h : List A)
      → Holds l h
      → flush l ≡ some (h, record l { ring_front = 0; ring_size = 0 })
  flush-Holds l _ (part older others e f r n p) =
      let count : l.ring_size ≡ length older + 0 = omega (arith, f, r) in
      flush_gathered l older (
        ap (λ k. gather l.entries l.ring_front l.ring_size k 0) count
        ∙ older_part l older others 0 e
            (λ j q. wrapped _ l.ring_size j (omega (arith, r)) (omega (arith, f, r, q))))
  flush-Holds l _ (full older others e f r n p) =
      let count : l.ring_size ≡ length others + length older = omega (arith, n, r) in
      let none_left : length older ≡ length older + 0 = omega arith in
      flush_gathered l (others ++ older) (
        ap (λ k. gather l.entries l.ring_front l.ring_size k 0) count
        ∙ gather_run l.entries l.ring_front l.ring_size (length older) 0 older others [] older
            (e ∙ ap (λ x. older ++ x) (sym (append-nil others)))
            (λ j q. mod-eq_of_lt (omega (arith, f, n, r, q)) ∙ omega (arith, f))
            (ap (λ k. gather l.entries l.ring_front l.ring_size k (0 + length others)) none_left
              ∙ older_part l older others (0 + length others) e (λ j q.
                wrapped _ l.ring_size j (omega (arith, f, n, r)) (omega (arith, p, n, r, q)))))
  flush-Holds l _ (off z r) =
      flush_gathered l [] (
        ap (λ n. gather l.entries l.ring_front n n 0) r ∙ gather_nothing l.entries l.ring_front 0 0)
