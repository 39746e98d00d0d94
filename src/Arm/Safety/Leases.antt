-- ===== src/Arm/Safety/Leases.antt =====
-- Leases and the holder (crates/franka-node/src/arm/commands.rs).
use franka_rs.Common.{
  ℕ, ◌≡◌, ◌≢◌, ◌⊎◌, ◌↔◌, refl, true, false, not, if_intro, none, List, [], ◌∷◌, arith, ok, err,
  ◌==◌,
}
use franka_rs.Msg.{idle, acquired}
use franka_rs.Arm.Platform.{Platform}
use franka_rs.Arm.Machine.{Machine, text, contains, remove}
use franka_rs.Arm.Commands.{runs_session, acquire, lease_lost, leave_acquired}
use franka_rs.Arm.Safety.Invariant.{IsWell}
use franka_rs.Arm.Safety.Keeping.{end_session-IsWell, end_session-quiet, contains-remove}

not-contains-remove : (a : ℕ) (l : List ℕ) → contains a (remove a l) ≡ false
unfolding contains remove
not-contains-remove a [] = refl
not-contains-remove a (b ∷ l) = ground (arith, not-contains-remove a l)

module _ {pf : Platform} where
  leave_facts :
      (n : Machine pf)
      → IsWell n
      → runs_session n.phase ≡ false
      → let k = leave_acquired n.phase (record n { holder = 0 }) in
        (runs_session k.phase ≡ false)
        × (k.control ≡ none)
        × (k.holder ≡ 0)
        × (k.phase ≢ acquired)
        × (k.alive ≡ n.alive)
  leave_facts n v q = ground arith

  abbrev Lost : ℕ → Machine pf → Type 0
  Lost holder n =
      (runs_session n.phase ≡ false)
      × (n.control ≡ none)
      × (n.holder ≡ 0)
      × (n.phase ≢ acquired)
      × (contains holder n.alive ≡ false)

  -- Under the invariant, when the holder's lease is lost, the session is over, nobody holds the
  -- arm, no lease of that client is left, and the arm is not Acquired.
  pub lease_lost-holder :
      (m : Machine pf)
      → IsWell m
      → let n = lease_lost m.holder m in
        (runs_session n.phase ≡ false)
        × (n.control ≡ none)
        × (n.holder ≡ 0)
        × (n.phase ≢ acquired)
        × (contains m.holder n.alive ≡ false)
  unfolding lease_lost
  lease_lost-holder m v =
      let m1 = record m { alive = remove m.holder m.alive } in
      let w : IsWell m1 = ground (arith, contains-remove 0 m.holder m.alive) in
      let q = end_session-quiet (err (text "lease lost")) m1 w in
      let x = end_session-IsWell (err (text "lease lost")) m1 w in
      let n = not-contains-remove m.holder m.alive in
      if_intro (Lost m.holder) (not (m.holder == m.holder)) (λ e. absurd (ground arith))
        λ _. let f = leave_facts _ x q.0 in (f.0, f.1, f.2, f.3, rw (f.4, q.1) n)

  -- The loss of a lease of another client than the holder changes nothing but the set of leases.
  pub lease_lost-other :
      (c : ℕ) (m : Machine pf)
      → c ≢ m.holder
      → lease_lost c m ≡ record m { alive = remove c m.alive }
  unfolding lease_lost
  lease_lost-other c m n = ground arith

  -- Under the invariant, `acquire` succeeds exactly for a client with a lease, of an arm that is
  -- free or its own, in Idle or Acquired; it then holds the arm in Acquired, and on any other
  -- outcome nothing changes.
  pub acquire_lem :
      (c : ℕ) (m : Machine pf)
      → IsWell m
      → (((acquire c m).0 ≡ ok tt) ↔ (
          (contains c m.alive ≡ true)
          × ((m.holder ≡ 0) ⊎ (m.holder ≡ c))
          × ((m.phase ≡ idle) ⊎ (m.phase ≡ acquired))))
        × ((acquire c m).0 ≡ ok tt → (acquire c m).1 ≡ record m { holder = c; phase = acquired })
        × ((acquire c m).0 ≢ ok tt → (acquire c m).1 ≡ m)
  unfolding acquire
  acquire_lem c m v = ((ground arith, ground arith), ground arith, ground arith)
