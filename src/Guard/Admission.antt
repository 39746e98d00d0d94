-- ===== src/Guard/Admission.antt =====
-- What the gate accepts, described apart from the order of its tests, and what a verdict leaves
-- unchanged.
use franka_rs.Common.{
  ℕ, suc, ◌<◌, ◌≡◌, ◌≢◌, ◌↔◌, refl, Bool, true, false, Option, none, some, arith, ok, List, [], ◌∷◌,
  All,
}
use franka_rs.Float.{Float, Arr7, elements, from3}
use franka_rs.Msg.{TargetMsg, msg_kind, anchor}
use franka_rs.Guard.{Guard, accept, kind, refill, judge_sender, judge_content, judge_rate, check}
use franka_rs.Guard.Rules.{
  GuardOptions, JointLimits, Workspace, Joint, joint_rows, judge_each, judge_joint, judge_joints,
  judge_cartesian, judge_lead, judge_workspace, finite_and_unit, any_not_finite, exceeds, outside,
  step_origin, norm, distance, angle_between, unit_quaternion_tolerance,
}

module _ (fl : Float) where
  open fl use {F, add, sub, abs, flt, fle, is_finite, decimal}

  -- A finite number that a limit does not stand below.
  abbrev pub Within : F → F → Type 0
  Within v limit = (is_finite v ≡ true) × (flt limit v ≡ false)

  abbrev pub AllFinite : Arr7 F → Type 0
  AllFinite v = All (λ c. is_finite c ≡ true) (elements v)

  -- Where a lead limit is on, the lead is within it.
  abbrev pub LeadWithin : F → F → Type 0
  LeadWithin lead limit = flt (decimal 0 0) limit ≡ true → Within lead limit

  abbrev pub LeadOk : GuardOptions F → Option (Arr7 F) → Arr7 F → Type 0
  LeadOk o none v = Unit {0}
  LeadOk o (some r) v =
      LeadWithin (distance fl v r) o.max_lead
      × LeadWithin (angle_between fl (from3 r) (from3 v)) o.max_lead_rotation

  -- Neither below nor above the side of the box.
  abbrev pub Between : F → F → F → Type 0
  Between v low high = (flt v low ≡ false) × (flt high v ≡ false)

  abbrev pub InBox : Option (Workspace F) → Arr7 F → Type 0
  InBox none v = Unit {0}
  InBox (some w) v =
      Between v.a0 w.low.vx w.high.vx
      × Between v.a1 w.low.vy w.high.vy
      × Between v.a2 w.low.vz w.high.vz

  pub record CartesianOk (o : GuardOptions F) (previous v : Arr7 F) (reference : Option (Arr7 F))
      (anchored : Bool) : Type 0 where
    pub finite : AllFinite v
    pub unit :
        flt (unit_quaternion_tolerance fl) (abs (sub (norm fl (from3 v)) (decimal 1 0))) ≡ false
    pub near : Within (distance fl v (step_origin fl o previous reference anchored)) o.max_step
    pub aligned :
        Within
          (angle_between fl (from3 (step_origin fl o previous reference anchored)) (from3 v))
          o.max_step_rotation
    pub leads : LeadOk o reference v
    pub boxed : InBox o.workspace v

  abbrev pub JointOk : GuardOptions F → Joint fl → Type 0
  JointOk o j =
      (flt o.max_step_joint (abs (sub j.value j.before)) ≡ false)
      × (fle (add j.low o.joint_limit_inset) j.value ≡ true)
      × (fle j.value (sub j.high o.joint_limit_inset) ≡ true)

  abbrev pub ContentOk : Guard F → TargetMsg F → Option (Arr7 F) → Option (JointLimits F) → Type 0
  ContentOk g m reference none = CartesianOk g.options g.previous m.payload reference (anchor m)
  ContentOk g m reference (some limits) =
      AllFinite m.payload × All (JointOk g.options) (joint_rows fl m.payload g.previous limits)

  abbrev pub FromHolder : Guard F → TargetMsg F → Type 0
  FromHolder g m =
      (msg_kind m ≡ some (kind g))
      × (m.client_id ≢ 0)
      × (m.client_id ≡ g.holder)
      × (g.last_seq < m.seq)

  pub record Admissible (g : Guard F) (m : TargetMsg F) (now : ℕ) (reference : Option (Arr7 F))
      : Type 0 where
    pub sent : FromHolder g m
    pub content : ContentOk g m reference g.limits
    pub paid : flt (refill fl now g).tokens (decimal 1 0) ≡ false

  any_not_finite-All :
      (vs : List F) → (any_not_finite fl vs ≡ false) ↔ All (λ c. is_finite c ≡ true) vs
  unfolding any_not_finite
  any_not_finite-All [] = (λ _. tt, λ _. refl)
  any_not_finite-All (v ∷ vs) =
      (ground (arith, (any_not_finite-All vs).0), ground (arith, (any_not_finite-All vs).1))

  judge_lead_iff :
      (o : GuardOptions F) (reference : Option (Arr7 F)) (v : Arr7 F)
      → (judge_lead fl o reference v ≡ ok tt) ↔ LeadOk o reference v
  unfolding judge_lead exceeds
  judge_lead_iff o none v = (λ _. tt, λ _. refl)
  judge_lead_iff o (some r) v = (ground arith, ground arith)

  judge_workspace_iff :
      (w : Option (Workspace F)) (v : Arr7 F) → (judge_workspace fl w v ≡ ok tt) ↔ InBox w v
  unfolding judge_workspace outside
  judge_workspace_iff none v = (λ _. tt, λ _. refl)
  judge_workspace_iff (some w) v = (ground arith, ground arith)

  judge_cartesian_iff :
      (o : GuardOptions F) (p v : Arr7 F) (r : Option (Arr7 F)) (a : Bool)
      → (judge_cartesian fl o p v r a ≡ ok tt) ↔ CartesianOk o p v r a
  unfolding judge_cartesian finite_and_unit exceeds
  judge_cartesian_iff o p v r a = (
    λ h. ground (
      arith,
      any_not_finite-All (elements v),
      judge_lead_iff o r v,
      judge_workspace_iff o.workspace v,
    ),
    λ h. ground (
      arith,
      any_not_finite-All (elements v),
      judge_lead_iff o r v,
      judge_workspace_iff o.workspace v,
    ),
  )

  judge_each_iff :
      (o : GuardOptions F) (n : ℕ) (js : List (Joint fl))
      → (judge_each fl o n js ≡ ok tt) ↔ All (JointOk o) js
  unfolding judge_each judge_joint
  judge_each_iff o n [] = (λ _. tt, λ _. refl)
  judge_each_iff o n (j ∷ js) =
      (ground (arith, judge_each_iff o (suc n) js), ground (arith, judge_each_iff o (suc n) js))

  judge_content_iff :
      (g : Guard F) (m : TargetMsg F) (r : Option (Arr7 F))
      → (judge_content fl g m r ≡ ok tt) ↔ ContentOk g m r g.limits
  unfolding judge_content judge_joints
  judge_content_iff g m r = go g.limits refl
    where
      go :
          (l : Option (JointLimits F))
          → g.limits ≡ l
          → (judge_content fl g m r ≡ ok tt) ↔ ContentOk g m r l
      go none e = rw e (judge_cartesian_iff g.options g.previous m.payload r (anchor m))
      go (some l) e = (
        ground (
          arith,
          e,
          any_not_finite-All (elements m.payload),
          judge_each_iff g.options 1 (joint_rows fl m.payload g.previous l),
        ),
        ground (
          arith,
          e,
          any_not_finite-All (elements m.payload),
          judge_each_iff g.options 1 (joint_rows fl m.payload g.previous l),
        ),
      )

  pub judge_sender_iff :
      (g : Guard F) (m : TargetMsg F) → (judge_sender fl g m ≡ ok tt) ↔ FromHolder g m
  unfolding judge_sender kind msg_kind
  judge_sender_iff g m = (ground arith, ground arith)

  -- `check` accepts a message exactly when it is admissible: of the gate's kind, from the holder
  -- (never client 0), in order, with an admissible content, and a token left after the refill.
  pub check-accept_iff :
      (g : Guard F) (m : TargetMsg F) (now : ℕ) (r : Option (Arr7 F))
      → ((check fl g m now r).1 ≡ accept) ↔ Admissible g m now r
  unfolding check judge_rate
  check-accept_iff g m now r = (
    ground (arith, judge_sender_iff g m, judge_content_iff g m r),
    ground (arith, judge_sender_iff g m, judge_content_iff g m r),
  )
