-- ===== src/Guard.antt =====
-- The target gate of crates/franka-node/src/guard.rs: its state and the check of one message. The
-- rules on a target's content are in `Rules`.
pub mod Rules
pub mod Admission
pub mod Stream
use franka_rs.Common.{
  ℕ, ◌-◌, Bool, ◌||◌, Option, none, some, ok, err, Result, ◌>>=◌, ◌>>◌, refuse_if, leb, ◌==◌, not,
  max, is_some, if◌then◌else◌,
}
use franka_rs.Float.{Float, Arr7, elements}
use franka_rs.Msg.{Kind, cartesian, joints, same_kind, TargetMsg, msg_kind, anchor}
use Rules.{
  GuardOptions, JointLimits, Reason, bad_kind, wrong_kind, not_holder, old_seq, not_finite, rate,
  any_not_finite, finite_and_unit, judge_cartesian, judge_joints,
}

-- `Verdict`
pub data Verdict (F : Type 0) : Type 0 where
  accept : Verdict F
  refuse : Reason F → Verdict F

-- `Guard`; `limits` is its field `joints`.
pub record Guard (F : Type 0) : Type 0 where
  pub options : GuardOptions F
  pub limits : Option (JointLimits F)
  pub holder : ℕ
  pub last_seq : ℕ
  pub previous : Arr7 F
  pub tokens : F
  pub refilled_ns : ℕ

-- `Guard::kind`
unfoldable pub kind : {F : Type 0} → Guard F → Kind
kind g = if is_some g.limits then joints else cartesian

module _ (fl : Float) where
  open fl use {F, add, sub, mul, fmin, fmax, flt, decimal, of_ℕ}

  -- `Guard::with_kind`
  unfoldable pub with_kind : GuardOptions F → Option (JointLimits F) → Arr7 F → Guard F
  with_kind o limits previous = record {
    options = o;
    limits = limits;
    holder = 0;
    last_seq = 0;
    previous = previous;
    tokens = mul (decimal 2 0) o.rate_hz;
    refilled_ns = 0;
  }

  -- `Guard::new`
  unfoldable pub new : GuardOptions F → Arr7 F → Result (Reason F) (Guard F)
  unfolding with_kind
  new o initial = finite_and_unit fl initial >> ok (with_kind o none initial)

  -- `Guard::joints`
  unfoldable pub new_joints : GuardOptions F → JointLimits F → Arr7 F → Result (Reason F) (Guard F)
  unfolding with_kind
  new_joints o limits initial =
      refuse_if (any_not_finite fl (elements initial)) not_finite
      >> ok (with_kind o (some limits) initial)

  -- `f64::clamp`
  unfoldable pub clamp : F → F → F → F
  clamp v low high = if flt v low then low else if flt high v then high else v

  -- `Guard::inside_joint_limits`
  unfoldable pub inside_joint_limits : Guard F → Arr7 F → Arr7 F
  unfolding clamp
  inside_joint_limits g q = inside g.limits
    where
      each : JointLimits F → (Arr7 F → F) → F
      each l at =
          clamp (at q) (add (at l.lower) g.options.joint_limit_inset)
            (sub (at l.upper) g.options.joint_limit_inset)

      inside : Option (JointLimits F) → Arr7 F
      inside none = q
      inside (some l) = record {
        a0 = each l (λ v. v.a0);
        a1 = each l (λ v. v.a1);
        a2 = each l (λ v. v.a2);
        a3 = each l (λ v. v.a3);
        a4 = each l (λ v. v.a4);
        a5 = each l (λ v. v.a5);
        a6 = each l (λ v. v.a6);
      }

  -- `Guard::set_holder`
  unfoldable pub set_holder : ℕ → ℕ → Guard F → Guard F
  set_holder client now g = record g {
    holder = client;
    last_seq = 0;
    tokens = mul (decimal 2 0) g.options.rate_hz;
    refilled_ns = now;
  }

  -- `Guard::refill`; `-` on ℕ is the source's `saturating_sub`.
  unfoldable pub refill : ℕ → Guard F → Guard F
  refill now g =
      let elapsed = mul (of_ℕ (now - g.refilled_ns)) (decimal 1 9) in
      let depth = mul (decimal 2 0) g.options.rate_hz in
      record g {
        tokens = fmin (add g.tokens (mul elapsed g.options.rate_hz)) depth;
        refilled_ns = max now g.refilled_ns;
      }

  -- The kind, the sender and the order of a message: the first half of `Guard::judge`.
  unfoldable pub judge_sender : Guard F → TargetMsg F → Result (Reason F) (Unit {0})
  unfolding kind
  judge_sender g m = elim (msg_kind m) [
    | none ↦ err (bad_kind m.kind_byte)
    | some got ↦ do
      refuse_if (not (same_kind got (kind g))) (wrong_kind got (kind g))
      refuse_if (m.client_id == 0 || not (m.client_id == g.holder)) (not_holder m.client_id)
      refuse_if (leb m.seq g.last_seq) (old_seq g.last_seq m.seq)
  ]

  -- The content of a message, by the gate's kind.
  unfoldable pub judge_content :
      Guard F → TargetMsg F → Option (Arr7 F) → Result (Reason F) (Unit {0})
  judge_content g m reference = elim g.limits [
    | some limits ↦ judge_joints fl g.options g.previous m.payload limits
    | none ↦ judge_cartesian fl g.options g.previous m.payload reference (anchor m)
  ]

  -- The rate, on a refilled bucket.
  unfoldable pub judge_rate : Guard F → Result (Reason F) (Unit {0})
  judge_rate g = refuse_if (flt g.tokens (decimal 1 0)) rate

  -- `Guard::judge`: the gate is refilled only if the content passes.
  unfoldable pub judge :
      Guard F → TargetMsg F → ℕ → Option (Arr7 F) → Guard F × Result (Reason F) (Unit {0})
  judge g m now reference = elim (judge_sender g m >> judge_content g m reference) [
    | err e ↦ (g, err e)
    | ok _ ↦ (refill now g, judge_rate (refill now g))
  ]

  -- `Guard::check`
  unfoldable pub check : Guard F → TargetMsg F → ℕ → Option (Arr7 F) → Guard F × Verdict F
  unfolding judge
  check g m now reference =
      let (g', result) = judge g m now reference in
      elim result [
        | ok _ ↦ (
          record g' {
            tokens = sub g'.tokens (decimal 1 0);
            last_seq = m.seq;
            previous = m.payload;
          },
          accept,
        )
        | err reason ↦ (g', refuse reason)
      ]
