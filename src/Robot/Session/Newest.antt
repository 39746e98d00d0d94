-- ===== src/Robot/Session/Newest.antt =====
-- What a received state is (crates/franka-rs/src/robot/robot_impl/mod.rs, `receive_robot_state`).
use franka_rs.Common.{
  ℕ, ◌≤◌, ◌<◌, ◌≡◌, ◌⊎◌, Option, none, some, List, [], ◌∷◌, ◌++◌, ◌==◌, if_intro, refl, ap, sym,
  subst, arith, All,
}
use franka_rs.Robot.Codec.Versions.{state_size}
use franka_rs.Robot.Session.{
  Datagram, Reading, datagram, nothing, udp_failed, Session, Outcome, done, failed, stalled,
  panicked, newer, drain, block, accept, update_state, receive_robot_state,
}

-- A read that says nothing newer than `n`.
abbrev pub NotNewer : ℕ → Reading → Type 0
NotNewer n (datagram d) = d.message_id ≤ n
NotNewer n _ = Unit {0}

-- The datagram is one of those read.
abbrev pub Among : Datagram → List Reading → Type 0
Among d [] = ⊥
Among d (datagram e ∷ used) = (e ≡ d) ⊎ Among d used
Among d (nothing ∷ used) = Among d used
Among d (udp_failed _ ∷ used) = Among d used

-- The id to beat: that of the state in hand, or of the last one accepted.
abbrev level : ℕ → Option Datagram → ℕ
level last none = last
level last (some b) = b.message_id

-- `d` is the newest of the state in hand and the reads used.
abbrev Wins : ℕ → Option Datagram → List Reading → Datagram → Type 0
Wins last best used d =
    (level last best ≤ d.message_id)
    × All (NotNewer d.message_id) used
    × ((best ≡ some d) ⊎ ((level last best < d.message_id) × Among d used))

abbrev Winner : ℕ → Option Datagram → List Reading → List Reading → Datagram → Type 0
Winner last best readings rest d =
    (used : List Reading) × (readings ≡ used ++ rest) × Wins last best used d

Wins-cons :
    (last : ℕ) (best : Option Datagram) (e d : Datagram) (used : List Reading)
    → Wins last (newer last best e) used d
    → Wins last best (datagram e ∷ used) d
unfolding newer
Wins-cons last none e d used w = ground arith
Wins-cons last (some b) e d used w = ground arith

Winner-cons :
    (last : ℕ) (best : Option Datagram) (e d : Datagram) (readings rest : List Reading)
    → Winner last (newer last best e) readings rest d
    → Winner last best (datagram e ∷ readings) rest d
Winner-cons last best e d readings rest (used, split, w) =
    (datagram e ∷ used, ap (λ l. datagram e ∷ l) split, Wins-cons last best e d used w)

-- A call that ends with a state has taken the newest.
abbrev Best : ℕ → Option Datagram → List Reading → Outcome Datagram × List Reading → Type 0
Best last best readings r = (d : Datagram) → r.0 ≡ done d → Winner last best readings r.1 d

block-Best :
    (size last : ℕ) (best : Option Datagram) (readings : List Reading)
    → Best last best readings (block size last best readings)
unfolding block
block-Best size last (some b) readings = λ d h. ([], refl, ground arith)
block-Best size last none [] = λ d h. absurd (ground arith)
block-Best size last none (nothing ∷ readings) = λ d h. absurd (ground arith)
block-Best size last none (udp_failed why ∷ readings) = λ d h. absurd (ground arith)
block-Best size last none (datagram e ∷ readings) =
    if_intro (Best last none (datagram e ∷ readings)) (e.size == size)
      (λ _ d h.
        Winner-cons last none e d readings _
          (block-Best size last (newer last none e) readings d h))
      (λ _ d h. absurd (ground arith))

Best-nothing :
    (last : ℕ) (best : Option Datagram) (readings rest : List Reading) (d : Datagram)
    → Winner last best readings rest d
    → Winner last best (nothing ∷ readings) rest d
Best-nothing last best readings rest d (used, split, w) =
    (nothing ∷ used, ap (λ l. nothing ∷ l) split, ground arith)

drain-Best :
    (size last : ℕ) (best : Option Datagram) (readings : List Reading)
    → Best last best readings (drain size last best readings)
unfolding drain
drain-Best size last best [] = λ d h. absurd (ground arith)
drain-Best size last best (nothing ∷ readings) =
    λ d h. Best-nothing last best readings _ d (block-Best size last best readings d h)
drain-Best size last best (udp_failed why ∷ readings) = λ d h. absurd (ground arith)
drain-Best size last best (datagram e ∷ readings) =
    if_intro (Best last best (datagram e ∷ readings)) (e.size == size)
      (λ _ d h.
        Winner-cons last best e d readings _
          (drain-Best size last (newer last best e) readings d h))
      (λ _ d h. absurd (ground arith))

-- What `receive_robot_state` promises of the state it returns.
pub record Received (s t : Session) (d : Datagram) : Type 0 where
  pub used : List Reading
  pub split : s.readings ≡ used ++ t.readings
  pub newer : s.message_id < d.message_id
  pub among : Among d used
  pub newest : All (NotNewer d.message_id) used
  pub taken : t ≡ update_state d (record s { readings = t.readings })

accepted :
    (o : Outcome Datagram) (s : Session) (d : Datagram)
    → (accept o s).0 ≡ done d
    → (o ≡ done d) × ((accept o s).1 ≡ update_state d s)
unfolding accept
accepted (done e) s d h = (h, ap (λ x. update_state x s) (ground arith))
accepted (failed e) s d h = absurd (ground arith)
accepted stalled s d h = absurd (ground arith)
accepted panicked s d h = absurd (ground arith)

Received_intro :
    (s t : Session) (d : Datagram) (rest : List Reading)
    → Winner s.message_id none s.readings rest d
    → t ≡ update_state d (record s { readings = rest })
    → Received s t d
unfolding update_state
Received_intro s t d rest (used, split, wins) h =
    subst (λ u. Received s u d) (sym h)
      (record {
        used = used;
        split = split;
        newer = ground arith;
        among = ground arith;
        newest = ground arith;
        taken = refl;
      })

-- A state that is returned was read in this call, is newer than the last one accepted and at least
-- as new as every other state read in this call; the session has its modes and its id, and of the
-- reads to come those that the call did not use.
pub receive-Received :
    (s : Session) (d : Datagram)
    → (receive_robot_state s).0 ≡ done d
    → Received s (receive_robot_state s).1 d
unfolding receive_robot_state
receive-Received s d h =
    let r = drain (state_size s.version) s.message_id none s.readings in
    let (outcome, taken) = accepted r.0 (record s { readings = r.1 }) d h in
    Received_intro s _ d r.1
      (drain-Best (state_size s.version) s.message_id none s.readings d outcome) taken

-- A state of the negotiated version, whatever its id.
abbrev pub IsState : ℕ → Reading → Type 0
IsState size (datagram d) = d.size ≡ size
IsState size _ = ⊥

abbrev Lively : Outcome Datagram × List Reading → Type 0
Lively r = (d : Datagram) × (r.0 ≡ done d)

newer_fresh : (n : ℕ) (d : Datagram) → n < d.message_id → newer n none d ≡ some d
unfolding newer
newer_fresh n d h = ground arith

block-Lively :
    (size n : ℕ) (best : Option Datagram) (waited : List Reading) (d : Datagram)
    (rest : List Reading)
    → All (IsState size) waited
    → d.size ≡ size
    → n < d.message_id
    → Lively (block size n best (waited ++ datagram d ∷ rest))
unfolding block
block-Lively size n (some b) waited d rest h e f = (b, refl)
block-Lively size n none [] d rest h e f =
    if_intro Lively (d.size == size)
      (λ _. subst (λ o. Lively (block size n o rest)) (sym (newer_fresh n d f)) (d, refl))
      (λ g. absurd (ground arith))
block-Lively size n none (nothing ∷ waited) d rest h e f = absurd h.0
block-Lively size n none (udp_failed _ ∷ waited) d rest h e f = absurd h.0
block-Lively size n none (datagram x ∷ waited) d rest h e f =
    if_intro Lively (x.size == size)
      (λ _. block-Lively size n (newer n none x) waited d rest h.1 e f) (λ g. absurd (ground arith))

drain-Lively :
    (size n : ℕ) (best : Option Datagram) (queued waited : List Reading) (d : Datagram)
    (rest : List Reading)
    → All (IsState size) queued
    → All (IsState size) waited
    → d.size ≡ size
    → n < d.message_id
    → Lively (drain size n best (queued ++ nothing ∷ waited ++ datagram d ∷ rest))
unfolding drain
drain-Lively size n best [] waited d rest h k e f = block-Lively size n best waited d rest k e f
drain-Lively size n best (nothing ∷ queued) waited d rest h k e f = absurd h.0
drain-Lively size n best (udp_failed _ ∷ queued) waited d rest h k e f = absurd h.0
drain-Lively size n best (datagram x ∷ queued) waited d rest h k e f =
    if_intro Lively (x.size == size)
      (λ _. drain-Lively size n (newer n best x) queued waited d rest h.1 k e f)
      (λ g. absurd (ground arith))

accept_done :
    (o : Outcome Datagram) (s : Session)
    → ((d : Datagram) × (o ≡ done d))
    → (d : Datagram) × ((accept o s).0 ≡ done d)
unfolding accept
accept_done (done e) s h = (e, refl)
accept_done (failed e) s h = absurd (ground arith)
accept_done stalled s h = absurd (ground arith)
accept_done panicked s h = absurd (ground arith)

-- A call ends with a state whatever states of the version lie in the queue, once a state newer than
-- the last one accepted arrives, whatever states of the version arrive before it.
pub receive_lively :
    (s : Session) (queued waited : List Reading) (d : Datagram) (rest : List Reading)
    → s.readings ≡ queued ++ nothing ∷ waited ++ datagram d ∷ rest
    → All (IsState (state_size s.version)) queued
    → All (IsState (state_size s.version)) waited
    → d.size ≡ state_size s.version
    → s.message_id < d.message_id
    → (e : Datagram) × ((receive_robot_state s).0 ≡ done e)
unfolding receive_robot_state
receive_lively s queued waited d rest split h k e f =
    let n = state_size s.version in
    let r = drain n s.message_id none s.readings in
    accept_done r.0 (record s { readings = r.1 })
      (subst (λ l. Lively (drain n s.message_id none l)) (sym split)
        (drain-Lively n s.message_id none queued waited d rest h k e f))
