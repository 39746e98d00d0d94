-- ===== src/Robot/Motion/Loops.antt =====
-- Loops of a motion, on fuel (crates/franka-rs/src/robot/robot_impl/motion.rs).
use franka_rs.Common.{
  ℕ, zero, suc, ◌<◌, ◌≡◌, ◌⊎◌, inl, inr, Bool, true, if◌then◌else◌, refl, ap, sym, subst, ◌∙◌,
  arith, length, if_intro, if_true,
}
use franka_rs.Robot.Session.{Session, Outcome, done, failed, stalled, panicked, M}
use franka_rs.Robot.Session.Monad.{Ran, bind_done}
use franka_rs.Robot.Motion.Cycle.{until}

-- A round that does not end its loop leaves fewer reads.
abbrev pub Shrinks : {A : Type 0} → (A → Session → Bool) → (A → M A) → Type 0
Shrinks {A} stop body =
    (a : A) (s : Session) (b : A) (t : Session)
    → Ran (body a) s b t
    → (stop b t ≡ true) ⊎ (length t.readings < length s.readings)

same_bind :
    {A B : Type 0} (o : Outcome A) (u : Session) (f g : A → M B)
    → ((a : A) → o ≡ done a → f a u ≡ g a u)
    → (elim o [
      | done a ↦ f a u
      | failed e ↦ (failed e, u)
      | stalled ↦ (stalled, u)
      | panicked ↦ (panicked, u)
    ])
      ≡ elim o [
        | done a ↦ g a u
        | failed e ↦ (failed e, u)
        | stalled ↦ (stalled, u)
        | panicked ↦ (panicked, u)
      ]
same_bind (done a) u f g h = h a refl
same_bind (failed e) u f g h = refl
same_bind stalled u f g h = refl
same_bind panicked u f g h = refl

until_stopped :
    {A : Type 0} (stop : A → Session → Bool) (body : A → M A) (n : ℕ) (a : A) (s : Session)
    → stop a s ≡ true
    → 0 < n
    → until stop body n a s ≡ (done a, s)
unfolding until
until_stopped stop body zero a s h p = absurd (omega (arith, p))
until_stopped stop body (suc n) a s h p = if_true (stop a s) _ _ h

-- A loop whose rounds use reads up ends alike with every fuel beyond the reads to come.
pub until_enough :
    {A : Type 0} (stop : A → Session → Bool) (body : A → M A)
    → Shrinks stop body
    → (n k : ℕ) (a : A) (s : Session) → suc (length s.readings) < n
    → suc (length s.readings) < k
    → until stop body n a s ≡ until stop body k a s
unfolding until
until_enough stop body shrinks zero k a s p q = absurd (omega (arith, p))
until_enough stop body shrinks (suc n) zero a s p q = absurd (omega (arith, q))
until_enough {A} stop body shrinks (suc n) (suc k) a s p q =
    ap (λ r. if stop a s then (done a, s) else r)
      (same_bind (body a s).0 (body a s).1 (until stop body n) (until stop body k) λ b h.
        let u = (body a s).1 in
        elim (shrinks a s b u (ap (λ (o : Outcome A). (o, u)) h)) [
          | inl e ↦
              until_stopped stop body n b u e (omega (arith, p))
              ∙ sym (until_stopped stop body k b u e (omega (arith, q)))
          | inr l ↦
              until_enough stop body shrinks n k b u (omega (arith, l, p)) (omega (arith, l, q))
        ])

abbrev Holds : {A : Type 0} → (A → Session → Type 0) → Outcome A × Session → Type 0
Holds P (done b, t) = P b t
Holds P _ = Unit {0}

-- A loop that ends has passed its test.
pub until_passed :
    {A : Type 0} (stop : A → Session → Bool) (body : A → M A) (n : ℕ) (a : A) (s : Session) (b : A)
    (t : Session)
    → Ran (until stop body n a) s b t
    → stop b t ≡ true
unfolding until
until_passed stop body zero a s b t = λ h. absurd (ground arith)
until_passed {A} stop body (suc n) a s b t =
    if_intro (λ r. r ≡ (done b, t) → stop b t ≡ true) (stop a s)
      (λ e h. subst (Holds (λ c u. stop c u ≡ true)) h e)
      (λ e h.
        let (c, u, p, q) = bind_done (body a) (until stop body n) s b t h in
        until_passed stop body n c u b t q)

-- What every round of a loop keeps, the loop keeps.
pub until_keeps :
    {A : Type 0} (stop : A → Session → Bool) (body : A → M A) (P : A → Session → Type 0)
    → ((a : A) (s : Session) (b : A) (t : Session) → P a s → Ran (body a) s b t → P b t)
    → (n : ℕ) (a : A) (s : Session) (b : A) (t : Session) → P a s
    → Ran (until stop body n a) s b t
    → P b t
unfolding until
until_keeps stop body P keeps zero a s b t w = λ h. absurd (ground arith)
until_keeps {A} stop body P keeps (suc n) a s b t w =
    if_intro (λ r. r ≡ (done b, t) → P b t) (stop a s) (λ e h. subst (Holds P) h w)
      (λ e h.
        let (c, u, p, q) = bind_done (body a) (until stop body n) s b t h in
        until_keeps stop body P keeps n c u b t (keeps a s c u w p) q)
