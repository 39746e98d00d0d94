-- ===== src/Robot/Session/Monad.antt =====
-- Calls that succeed, taken apart.
use franka_rs.Common.{◌≡◌, refl, arith}
use franka_rs.Robot.Session.{Session, Outcome, done, failed, stalled, panicked, M, ◌>>=◌}

abbrev pub Ran : {A : Type 0} → M A → Session → A → Session → Type 0
Ran m s a t = m s ≡ (done a, t)

abbrev Bound : {A B : Type 0} → Outcome A × Session → (A → M B) → B → Session → Type 0
Bound {A} r f b t = (a : A) × (u : Session) × (r ≡ (done a, u)) × (f a u ≡ (done b, t))

Bound-intro :
    {A B : Type 0} (o : Outcome A) (u : Session) (f : A → M B) (b : B) (t : Session)
    → (elim o [
      | done a ↦ f a u
      | failed e ↦ (failed e, u)
      | stalled ↦ (stalled, u)
      | panicked ↦ (panicked, u)
    ])
      ≡ (done b, t)
    → Bound (o, u) f b t
Bound-intro (done a) u f b t h = (a, u, refl, h)
Bound-intro (failed e) u f b t h = absurd (ground arith)
Bound-intro stalled u f b t h = absurd (ground arith)
Bound-intro panicked u f b t h = absurd (ground arith)

-- Where a sequence succeeds, both of its calls do.
pub bind_done :
    {A B : Type 0} (m : M A) (f : A → M B) (s : Session) (b : B) (t : Session)
    → Ran (m >>= f) s b t
    → Bound (m s) f b t
bind_done m f s b t h = Bound-intro (m s).0 (m s).1 f b t h
