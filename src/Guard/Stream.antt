-- ===== src/Guard/Stream.antt =====
-- What a verdict changes in the gate, and what holds of every stream of messages.
use franka_rs.Common.{
  ℕ, suc, ◌<◌, ◌≡◌, ◌≢◌, ◌↔◌, ◌⊎◌, inl, inr, refl, true, false, Option, none, some, arith, err,
  List, [], ◌∷◌, All,
}
use franka_rs.Float.{Float, Arr7}
use franka_rs.Msg.{Kind, TargetMsg, msg_kind, anchor}
use franka_rs.Guard.{
  Guard, Verdict, accept, refuse, kind, refill, judge_sender, judge_content, judge_rate, judge,
  check,
}
use franka_rs.Guard.Admission.{FromHolder, judge_sender_iff, check-accept_iff}
use franka_rs.Guard.Rules.{
  Reason, from_the_commander, lead_bounded, judge_cartesian, judge_joints, judge_lead,
  judge_workspace, finite_and_unit, step_origin, judge_each, judge_joint,
}

-- One message as `check` is called: the message, the time and the reference.
pub record Arrival (F : Type 0) : Type 0 where
  pub msg : TargetMsg F
  pub now : ℕ
  pub reference : Option (Arr7 F)

Verdict-cases : {F : Type 0} (v : Verdict F) → (v ≡ accept) ⊎ ((e : Reason F) × (v ≡ refuse e))
Verdict-cases accept = inl refl
Verdict-cases (refuse e) = inr (e, refl)

module _ (fl : Float) where
  open fl use {F, flt, decimal}

  -- What an accepted message writes, and what a refused one leaves.
  pub record Keeps (g h : Guard F) : Type 0 where
    pub options : h.options ≡ g.options
    pub limits : h.limits ≡ g.limits
    pub holder : h.holder ≡ g.holder

  -- No message changes the gate's limits, kind or holder.
  pub check-Keeps :
      (g : Guard F) (m : TargetMsg F) (now : ℕ) (r : Option (Arr7 F))
      → Keeps g (check fl g m now r).0
  unfolding check refill
  check-Keeps g m now r = ground arith

  -- An accepted message is the new previous target and the last sequence number.
  pub check-accept_state :
      (g : Guard F) (m : TargetMsg F) (now : ℕ) (r : Option (Arr7 F))
      → (check fl g m now r).1 ≡ accept
      → ((check fl g m now r).0.last_seq ≡ m.seq) × ((check fl g m now r).0.previous ≡ m.payload)
  unfolding check
  check-accept_state g m now r h = ground arith

  -- A refused message leaves the previous target and the last sequence number as they were.
  pub check-refuse_state :
      (g : Guard F) (m : TargetMsg F) (now : ℕ) (r : Option (Arr7 F)) {e : Reason F}
      → (check fl g m now r).1 ≡ refuse e
      → ((check fl g m now r).0.last_seq ≡ g.last_seq)
        × ((check fl g m now r).0.previous ≡ g.previous)
  unfolding check refill
  check-refuse_state g m now r h = ground arith

  sender_reason :
      (g : Guard F) (m : TargetMsg F) {e : Reason F}
      → judge_sender fl g m ≡ err e
      → from_the_commander e ≡ false
  unfolding judge_sender from_the_commander
  sender_reason g m h = ground arith

  finite_reason :
      (v : Arr7 F) {e : Reason F} → finite_and_unit fl v ≡ err e → from_the_commander e ≡ true
  unfolding finite_and_unit from_the_commander
  finite_reason v h = ground arith

  lead_reason :
      (o : _) (r : Option (Arr7 F)) (v : Arr7 F) {e : Reason F}
      → judge_lead fl o r v ≡ err e
      → from_the_commander e ≡ true
  unfolding judge_lead from_the_commander
  lead_reason o r v h = ground arith

  workspace_reason :
      (w : _) (v : Arr7 F) {e : Reason F}
      → judge_workspace fl w v ≡ err e
      → from_the_commander e ≡ true
  unfolding judge_workspace from_the_commander
  workspace_reason w v h = ground arith

  joints_reason :
      (o : _) (n : ℕ) (js : _) {e : Reason F}
      → judge_each fl o n js ≡ err e
      → from_the_commander e ≡ true
  unfolding judge_each judge_joint from_the_commander
  joints_reason o n [] h = ground arith
  joints_reason o n (j ∷ js) {e} h = ground (arith, joints_reason o (suc n) js {e = e})

  content_reason :
      (g : Guard F) (m : TargetMsg F) (r : Option (Arr7 F)) {e : Reason F}
      → judge_content fl g m r ≡ err e
      → from_the_commander e ≡ true
  unfolding judge_content judge_joints judge_cartesian from_the_commander
  content_reason g m r {e} h =
      grind (arith, finite_reason, lead_reason, workspace_reason, joints_reason)

  -- A refusal counts as a sign of life of the commander exactly when the message has the session's
  -- kind, comes from the holder (never client 0) and is in order.
  pub check-from_the_commander :
      (g : Guard F) (m : TargetMsg F) (now : ℕ) (r : Option (Arr7 F)) {e : Reason F}
      → (check fl g m now r).1 ≡ refuse e
      → (from_the_commander e ≡ true) ↔ FromHolder fl g m
  unfolding check judge_rate from_the_commander
  check-from_the_commander g m now r {e} h = (
    ground (arith, judge_sender_iff fl g m, sender_reason g m {e = e}),
    ground (arith, judge_sender_iff fl g m, content_reason g m r {e = e}),
  )

  anchored_content :
      (g : Guard F) (m : TargetMsg F) (v p : Arr7 F)
      → g.limits ≡ none
      → anchor m ≡ true
      → lead_bounded fl g.options ≡ true
      → judge_content fl (record g { previous = p }) m (some v) ≡ judge_content fl g m (some v)
  unfolding judge_content judge_cartesian step_origin
  anchored_content g m v p l a b = rw l (rw (a, b))

  -- In a Cartesian session, against a measured pose and with both lead limits on, an anchored
  -- message gets the same verdict whatever the previous target is.
  pub check-anchor_lem :
      (g : Guard F) (m : TargetMsg F) (now : ℕ) (v p : Arr7 F)
      → g.limits ≡ none
      → anchor m ≡ true
      → lead_bounded fl g.options ≡ true
      → (check fl (record g { previous = p }) m now (some v)).1 ≡ (check fl g m now (some v)).1
  unfolding check judge_sender kind refill judge_rate
  check-anchor_lem g m now v p l a b = ground (arith, anchored_content g m v p l a b)

  -- With either lead limit off, the anchor flag changes no verdict.
  pub check-anchor_ignored :
      (g : Guard F) (m : TargetMsg F) (now : ℕ) (r : Option (Arr7 F)) (flags : ℕ)
      → lead_bounded fl g.options ≡ false
      → (check fl g (record m { flags = flags }) now r).1 ≡ (check fl g m now r).1
  unfolding check judge judge_sender judge_content judge_cartesian step_origin msg_kind
  check-anchor_ignored g m now r flags b = ground arith

  -- The messages of a stream that the gate accepts, in order, and the gate behind them.
  pub feed : Guard F → List (Arrival F) → Guard F × List (TargetMsg F)
  feed g [] = (g, [])
  feed g (a ∷ rest) =
      let (g', verdict) = check fl g a.msg a.now a.reference in
      let (end, passed) = feed g' rest in
      (end, elim verdict [ accept ↦ a.msg ∷ passed | refuse _ ↦ passed ])

  abbrev pub Ascending : ℕ → List (TargetMsg F) → Type 0
  Ascending n [] = Unit {0}
  Ascending n (m ∷ ms) = (n < m.seq) × Ascending m.seq ms

  abbrev pub Sent : Kind → ℕ → TargetMsg F → Type 0
  Sent k holder m = (msg_kind m ≡ some k) × (m.client_id ≢ 0) × (m.client_id ≡ holder)

  Keeps-kind : (g h : Guard F) → Keeps g h → kind h ≡ kind g
  unfolding kind
  Keeps-kind g h k = ground arith

  -- Of any stream of messages the gate passes on messages of its kind from its holder only (never
  -- client 0), in strictly increasing order of `seq`, beyond what was accepted before.
  pub feed_ordered :
      (g : Guard F) (arrivals : List (Arrival F))
      → Ascending g.last_seq (feed g arrivals).1 × All (Sent (kind g) g.holder) (feed g arrivals).1
  unfolding feed
  feed_ordered g [] = (tt, tt)
  feed_ordered g (a ∷ rest) = elim (Verdict-cases (check fl g a.msg a.now a.reference).1) [
    | inl e ↦ ground (
      arith,
      check-accept_iff fl g a.msg a.now a.reference,
      check-accept_state g a.msg a.now a.reference,
      check-Keeps g a.msg a.now a.reference,
      Keeps-kind g (check fl g a.msg a.now a.reference).0,
      feed_ordered (check fl g a.msg a.now a.reference).0 rest,
    )
    | inr (x, e) ↦ ground (
      arith,
      check-refuse_state g a.msg a.now a.reference {e = x},
      check-Keeps g a.msg a.now a.reference,
      Keeps-kind g (check fl g a.msg a.now a.reference).0,
      feed_ordered (check fl g a.msg a.now a.reference).0 rest,
    )
  ]
