-- ===== src/Arm/Safety/Keeping.antt =====
-- The verbs keep the invariant (crates/franka-node/src/arm/commands.rs).
use Prim.Native.String.{String}
use franka_rs.Common.{
  ℕ, ◌≡◌, ◌≢◌, ◌⊎◌, inl, inr, refl, true, false, not, if_intro, Option, [], ◌∷◌, arith, ok, err,
  ◌==◌, ==_iff, Bool-cases, Result, ap,
}
use franka_rs.Msg.{Phase, idle, acquired, active, stopping, faulted, homing, CmdRequest}
use franka_rs.Arm.Platform.{Platform}
use franka_rs.Guard.{Guard}
use franka_rs.Arm.Machine.{Machine, Why, Outcome, contains, insert, remove}
use franka_rs.Arm.Session.{end_session, end_by}
use franka_rs.Arm.Gripper.{gripper_home}
use franka_rs.Arm.Commands.{
  Verb, acquire_verb, release_verb, enable_verb, stop_verb, recover_verb, home_verb,
  gripper_home_verb, gripper_stop_verb, runs_session, may_enable, is_acquired, session_of, holds,
  acquire, release, enable, enable_session, enable_named, home_named, home_session, home_from,
  send_home, home_speed, answer, leave_acquired, home_stored, start_home, stop_command, recover,
  lease_lost, home_command, gripper_home_command, gripper_stop_command, command,
}
use franka_rs.Arm.Safety.Invariant.{IsWell}
use franka_rs.Arm.Safety.Ending.{Ended, stop-Ended, finish_home-Ended}
use franka_rs.Arm.Safety.Starting.{Quiet, start_session-Quiet, begin-Begun}

pub contains-remove : (a b : ℕ) (l : _) → contains a l ≡ false → contains a (remove b l) ≡ false
unfolding contains remove
contains-remove a b [] h = refl
contains-remove a b (x ∷ l) h = ground (arith, contains-remove a b l)

pub contains-insert :
    (a b : ℕ) (l : _) → a ≢ b → contains a l ≡ false → contains a (insert b l) ≡ false
unfolding insert
contains-insert a b l n h = ground arith

abbrev WellAfter : {pf : Platform} → Outcome pf × Machine pf → Type 0
WellAfter x = IsWell x.1

abbrev WellHome : {pf : Platform} → ℕ → Outcome pf × Machine pf → Type 0
WellHome reply x = IsWell (home_stored reply x)

module _ {pf : Platform} where
  pub Quiet-IsWell : {m n : Machine pf} → Quiet m n → IsWell m → IsWell n
  Quiet-IsWell q v = ground arith

  pub Ended-IsWell :
      {m n : Machine pf} → Ended m n → IsWell m → (n.phase ≡ idle) ⊎ (n.phase ≡ faulted) → IsWell n
  Ended-IsWell e v p = ground arith

  pub Ended-acquired_IsWell :
      {m n : Machine pf}
      → Ended m n
      → IsWell m
      → m.holder ≢ 0
      → (n.phase ≡ acquired) ⊎ (n.phase ≡ faulted)
      → IsWell n
  Ended-acquired_IsWell e v h p = ground arith

  pub acquire-IsWell : (c : ℕ) (m : Machine pf) → IsWell m → IsWell (acquire c m).1
  unfolding acquire
  acquire-IsWell c m v = elim (Bool-cases (c == 0)) [
    | inl z ↦ ground (arith, ap (λ (k : ℕ). contains k m.alive) ((==_iff c 0).0 z))
    | inr nz ↦ ground arith
  ]

  pub release-IsWell : (c : ℕ) (m : Machine pf) → IsWell m → IsWell (release c m).1
  unfolding release
  release-IsWell c m v = ground arith

  pub recover-IsWell : (m : Machine pf) → IsWell m → IsWell (recover m).1
  unfolding recover
  recover-IsWell m v = ground arith

  end_by-IsWell :
      (p : Phase) (o : Outcome pf) (m : Machine pf)
      → m.phase ≡ p
      → IsWell m
      → IsWell (end_by p o m).1
  end_by-IsWell active o m e v =
      Ended-IsWell (stop-Ended m (ground arith)).0 v (stop-Ended m (ground arith)).1
  end_by-IsWell homing o m e v =
      Ended-acquired_IsWell (finish_home-Ended o m (ground arith)).0 v (ground arith)
        (finish_home-Ended o m (ground arith)).1
  end_by-IsWell idle o m e v = v
  end_by-IsWell acquired o m e v = v
  end_by-IsWell stopping o m e v = v
  end_by-IsWell faulted o m e v = v

  pub end_session-IsWell : (o : Outcome pf) (m : Machine pf) → IsWell m → IsWell (end_session o m).1
  unfolding end_session
  end_session-IsWell o m v = end_by-IsWell m.phase o m refl v

  end_by-quiet :
      (p : Phase) (o : Outcome pf) (m : Machine pf)
      → m.phase ≡ p
      → IsWell m
      → (runs_session (end_by p o m).1.phase ≡ false)
        × ((end_by p o m).1.alive ≡ m.alive)
        × ((end_by p o m).1.holder ≡ m.holder)
  end_by-quiet active o m e v = ground (arith, stop-Ended m (ground arith))
  end_by-quiet homing o m e v = ground (arith, finish_home-Ended o m (ground arith))
  end_by-quiet idle o m e v = ground arith
  end_by-quiet acquired o m e v = ground arith
  end_by-quiet stopping o m e v = ground arith
  end_by-quiet faulted o m e v = ground arith

  -- Behind `end_session` no session runs; the holder and the leases are kept.
  pub end_session-quiet :
      (o : Outcome pf) (m : Machine pf)
      → IsWell m
      → (runs_session (end_session o m).1.phase ≡ false)
        × ((end_session o m).1.alive ≡ m.alive)
        × ((end_session o m).1.holder ≡ m.holder)
  unfolding end_session
  end_session-quiet o m v = end_by-quiet m.phase o m refl v

  pub stop_command-IsWell : (m : Machine pf) → IsWell m → IsWell (stop_command m).1
  unfolding stop_command
  stop_command-IsWell m v = elim (Bool-cases (runs_session m.phase)) [
    | inl e ↦ rw e (end_session-IsWell _ m v)
    | inr e ↦ rw e v
  ]

  enable_session-IsWell :
      (r : CmdRequest pf.float.F) (e : _) (m : Machine pf)
      → r.client ≢ 0
      → m.holder ≡ r.client
      → may_enable m.phase ≡ true
      → IsWell m
      → IsWell (enable_session r e m).1
  unfolding enable_session
  enable_session-IsWell r e m h k p v =
      grind (arith, start_session-Quiet (session_of r.mode m) e m, begin-Begun)

  holds_facts : (c : ℕ) (m : Machine pf) → not (holds c m) ≡ false → (c ≢ 0) × (m.holder ≡ c)
  unfolding holds
  holds_facts c m h = ground arith

  enable_named-IsWell :
      (r : CmdRequest pf.float.F) (named : Result (Why pf) (Option String)) (m : Machine pf)
      → (r.client ≢ 0) × (m.holder ≡ r.client)
      → may_enable m.phase ≡ true
      → IsWell m
      → IsWell (enable_named r named m).1
  unfolding enable_named
  enable_named-IsWell r (ok e) m h p v = enable_session-IsWell r e m h.0 h.1 p v
  enable_named-IsWell r (err w) m h p v = v

  pub enable-IsWell :
      (r : CmdRequest pf.float.F) (m : Machine pf) → IsWell m → IsWell (enable r m).1
  unfolding enable
  enable-IsWell r m v =
      if_intro WellAfter (not (holds r.client m)) (λ _. v)
        λ h.
          if_intro WellAfter (not (may_enable m.phase)) (λ _. v)
            λ p. enable_named-IsWell r _ m (holds_facts r.client m h) (ground arith) v

  -- A started home, with its query stored, keeps the invariant; a refused one does by itself.
  send_home-IsWell :
      (r : CmdRequest pf.float.F) (e : _) (c : pf.Handle) (g : _) (reply : ℕ) (m : Machine pf)
      → r.client ≢ 0
      → m.holder ≡ r.client
      → is_acquired m.phase ≡ true
      → IsWell m
      → IsWell (home_stored reply (send_home r e c g m))
  unfolding send_home home_stored
  send_home-IsWell r e c g reply m h k p v = grind (arith, begin-Begun)

  home_stored-err-IsWell :
      (reply : ℕ) (m : Machine pf) → IsWell m → (w : Why pf) → IsWell (home_stored reply (err w, m))
  unfolding home_stored
  home_stored-err-IsWell reply m v w = ground arith

  home_from-IsWell :
      (r : CmdRequest pf.float.F) (e : _) (reply : ℕ) (m : Machine pf)
      (started : Result (Why pf) (pf.Handle × Guard pf.float.F) × Machine pf)
      → Quiet m started.1
      → r.client ≢ 0
      → m.holder ≡ r.client
      → is_acquired m.phase ≡ true
      → IsWell m
      → IsWell (home_stored reply (home_from r e started))
  unfolding home_from
  home_from-IsWell r e reply m (ok (c, g), n) q h k p v =
      send_home-IsWell r e c g reply n h (ground arith) (ground arith) (Quiet-IsWell q v)
  home_from-IsWell r e reply m (err w, n) q h k p v = unfold home_stored in ground arith

  home_named-IsWell :
      (r : CmdRequest pf.float.F) (named : Result (Why pf) (Option String)) (reply : ℕ)
      (m : Machine pf)
      → (r.client ≢ 0) × (m.holder ≡ r.client)
      → is_acquired m.phase ≡ true
      → IsWell m
      → IsWell (home_stored reply (home_named r named m))
  unfolding home_named home_session
  home_named-IsWell r (ok e) reply m h p v =
      if_intro (WellHome reply) (not (pf.float.is_finite (home_speed pf.float r)))
        (λ _. home_stored-err-IsWell reply m v _)
        (λ _. home_from-IsWell r e reply m _ (start_session-Quiet _ e m) h.0 h.1 p v)
  home_named-IsWell r (err w) reply m h p v = home_stored-err-IsWell reply m v w

  pub home_command-IsWell :
      (r : CmdRequest pf.float.F) (reply : ℕ) (m : Machine pf)
      → IsWell m
      → IsWell (home_command r reply m)
  unfolding home_command start_home
  home_command-IsWell r reply m v =
      if_intro (WellHome reply) (not (holds r.client m)) (λ _. home_stored-err-IsWell reply m v _)
        λ h.
          if_intro (WellHome reply) (not (is_acquired m.phase))
            (λ _. home_stored-err-IsWell reply m v _)
            λ p. home_named-IsWell r _ reply m (holds_facts r.client m h) (ground arith) v

  pub gripper_home_command-IsWell :
      (c reply : ℕ) (m : Machine pf) → IsWell m → IsWell (gripper_home_command c reply m)
  unfolding gripper_home_command gripper_home
  gripper_home_command-IsWell c reply m v = ground arith

  pub gripper_stop_command-IsWell :
      (reply : ℕ) (m : Machine pf) → IsWell m → IsWell (gripper_stop_command reply m)
  unfolding gripper_stop_command
  gripper_stop_command-IsWell reply m v = ground arith

  answer-IsWell : (reply : ℕ) (x : Outcome pf × Machine pf) → IsWell x.1 → IsWell (answer reply x)
  answer-IsWell reply x v = ground arith

  -- Every verb, in every phase, keeps the invariant.
  pub command-IsWell :
      (verb : Verb) (r : CmdRequest pf.float.F) (reply : ℕ) (m : Machine pf)
      → IsWell m
      → IsWell (command verb r reply m)
  unfolding command
  command-IsWell acquire_verb r reply m v = answer-IsWell reply _ (acquire-IsWell r.client m v)
  command-IsWell release_verb r reply m v = answer-IsWell reply _ (release-IsWell r.client m v)
  command-IsWell enable_verb r reply m v = answer-IsWell reply _ (enable-IsWell r m v)
  command-IsWell stop_verb r reply m v = answer-IsWell reply _ (stop_command-IsWell m v)
  command-IsWell recover_verb r reply m v = answer-IsWell reply _ (recover-IsWell m v)
  command-IsWell home_verb r reply m v = home_command-IsWell r reply m v
  command-IsWell gripper_home_verb r reply m v = gripper_home_command-IsWell r.client reply m v
  command-IsWell gripper_stop_verb r reply m v = gripper_stop_command-IsWell reply m v

  leave_acquired-IsWell :
      (n : Machine pf)
      → IsWell n
      → runs_session n.phase ≡ false
      → IsWell (leave_acquired n.phase (record n { holder = 0 }))
  leave_acquired-IsWell n v q = ground arith

  -- A lost lease keeps the invariant.
  pub lease_lost-IsWell : (c : ℕ) (m : Machine pf) → IsWell m → IsWell (lease_lost c m)
  unfolding lease_lost
  lease_lost-IsWell c m v =
      let fewer : IsWell (record m { alive = remove c m.alive }) =
        ground (arith, contains-remove 0 c m.alive) in
      if_intro IsWell (not (c == m.holder)) (λ _. fewer)
        λ _. leave_acquired-IsWell _ (end_session-IsWell _ _ fewer) (end_session-quiet _ _ fewer).0
