-- ===== src/Guard/Rules.antt =====
-- The rules on one target (crates/franka-node/src/guard.rs): finiteness, the quaternion's norm, the
-- steps from the previous target, the lead over the arm, the workspace box and the joint limits.
use franka_rs.Common.{
  ℕ, suc, Bool, true, false, not, ◌&&◌, ◌||◌, Option, none, some, List, [], ◌∷◌, Result, ok, ◌>>◌,
  refuse_if, if◌then◌else◌,
}
use franka_rs.Float.{Float, Arr7, elements, from3}
use franka_rs.Msg.{Kind}

-- `JointLimits`: (lower, upper)
pub record JointLimits (F : Type 0) : Type 0 where
  pub lower : Arr7 F
  pub upper : Arr7 F

pub data Axis : Type 0 where
  x y z : Axis

pub record Vec3 (F : Type 0) : Type 0 where
  pub vx : F
  pub vy : F
  pub vz : F

-- `Workspace`
pub record Workspace (F : Type 0) : Type 0 where
  pub low : Vec3 F
  pub high : Vec3 F

-- `GuardOptions`
pub record GuardOptions (F : Type 0) : Type 0 where
  pub max_step : F
  pub max_step_rotation : F
  pub max_step_joint : F
  pub max_lead : F
  pub max_lead_rotation : F
  pub workspace : Option (Workspace F)
  pub rate_hz : F
  pub joint_limit_inset : F

-- `Reason`
pub data Reason (F : Type 0) : Type 0 where
  bad_kind : ℕ → Reason F
  wrong_kind : Kind → Kind → Reason F
  not_holder : ℕ → Reason F
  old_seq : ℕ → ℕ → Reason F
  not_finite : Reason F
  not_unit : F → Reason F
  step_too_large : F → Reason F
  rotation_step : F → Reason F
  lead_too_large : F → Reason F
  lead_rotation : F → Reason F
  outside_workspace : Axis → Reason F
  joint_step : ℕ → F → Reason F
  joint_limit : ℕ → F → Reason F
  rate : Reason F

-- `Reason::from_the_commander`
unfoldable pub from_the_commander : {F : Type 0} → Reason F → Bool
from_the_commander (bad_kind _) = false
from_the_commander (wrong_kind _ _) = false
from_the_commander (not_holder _) = false
from_the_commander (old_seq _ _) = false
from_the_commander _ = true

module _ (fl : Float) where
  open fl use {
    F, add, sub, mul, div, abs, sqrt, acos, fmin, fmax, flt, fle, is_finite, nan, sum_start,
    decimal,
  }

  -- `UNIT_QUATERNION_TOLERANCE`
  unfoldable pub unit_quaternion_tolerance : F
  unit_quaternion_tolerance = decimal 1 3

  -- `v.iter().map(|x| x * x).sum::<f64>()`
  unfoldable pub sum_squares : F → List F → F
  sum_squares acc [] = acc
  sum_squares acc (v ∷ vs) = sum_squares (add acc (mul v v)) vs

  unfoldable pub norm : List F → F
  norm v = sqrt (sum_squares sum_start v)

  unfoldable pub dot : F → List F → List F → F
  dot acc [] bs = acc
  dot acc (a ∷ xs) [] = acc
  dot acc (a ∷ xs) (b ∷ bs) = dot (add acc (mul a b)) xs bs

  unfoldable pub distance : Arr7 F → Arr7 F → F
  distance a b = norm (sub a.a0 b.a0 ∷ sub a.a1 b.a1 ∷ sub a.a2 b.a2 ∷ [])

  unfoldable pub angle_between : List F → List F → F
  angle_between a b =
      let cos_half = div (abs (dot sum_start a b)) (mul (norm a) (norm b)) in
      if not (is_finite cos_half)
      then nan
      else mul (decimal 2 0) (acos (fmin cos_half (decimal 1 0)))

  -- `v.iter().any(|x| !x.is_finite())`
  unfoldable pub any_not_finite : List F → Bool
  any_not_finite [] = false
  any_not_finite (v ∷ vs) = not (is_finite v) || any_not_finite vs

  unfoldable pub finite_and_unit : Arr7 F → Result (Reason F) (Unit {0})
  finite_and_unit target = do
    refuse_if (any_not_finite (elements target)) not_finite
    let quaternion_norm = norm (from3 target)
    refuse_if (flt unit_quaternion_tolerance (abs (sub quaternion_norm (decimal 1 0))))
        (not_unit quaternion_norm)

  -- `Guard::lead_bounded`
  unfoldable pub lead_bounded : GuardOptions F → Bool
  lead_bounded o = flt (decimal 0 0) o.max_lead && flt (decimal 0 0) o.max_lead_rotation

  -- `!v.is_finite() || v > limit`
  unfoldable pub exceeds : F → F → Bool
  exceeds v limit = not (is_finite v) || flt limit v

  -- `data[i] < min[i] || data[i] > max[i]`
  unfoldable pub outside : F → F → F → Bool
  outside v low high = flt v low || flt high v

  unfoldable pub judge_workspace : Option (Workspace F) → Arr7 F → Result (Reason F) (Unit {0})
  judge_workspace none v = ok tt
  judge_workspace (some w) v = do
    refuse_if (outside v.a0 w.low.vx w.high.vx) (outside_workspace x)
    refuse_if (outside v.a1 w.low.vy w.high.vy) (outside_workspace y)
    refuse_if (outside v.a2 w.low.vz w.high.vz) (outside_workspace z)

  unfoldable pub judge_lead :
      GuardOptions F → Option (Arr7 F) → Arr7 F → Result (Reason F) (Unit {0})
  judge_lead o none v = ok tt
  judge_lead o (some reference) v = do
    let lead = distance v reference
    refuse_if (flt (decimal 0 0) o.max_lead && exceeds lead o.max_lead) (lead_too_large lead)
    let turn = angle_between (from3 reference) (from3 v)
    refuse_if (flt (decimal 0 0) o.max_lead_rotation && exceeds turn o.max_lead_rotation)
        (lead_rotation turn)

  -- What a Cartesian target steps from: the arm if it is anchored under both lead limits.
  unfoldable pub step_origin : GuardOptions F → Arr7 F → Option (Arr7 F) → Bool → Arr7 F
  step_origin o previous none anchored = previous
  step_origin o previous (some reference) anchored =
      if anchored && lead_bounded o then reference else previous

  unfoldable pub judge_cartesian :
      GuardOptions F → Arr7 F → Arr7 F → Option (Arr7 F) → Bool → Result (Reason F) (Unit {0})
  judge_cartesian o previous v reference anchored = do
    finite_and_unit v
    let origin = step_origin o previous reference anchored
    let step = distance v origin
    refuse_if (exceeds step o.max_step) (step_too_large step)
    let angle = angle_between (from3 origin) (from3 v)
    refuse_if (exceeds angle o.max_step_rotation) (rotation_step angle)
    judge_lead o reference v
    judge_workspace o.workspace v

  -- One joint of the loop of `judge_joints`: its value and those of `previous`, `lower`, `upper`.
  pub record Joint : Type 0 where
    pub value : F
    pub before : F
    pub low : F
    pub high : F

  unfoldable pub judge_joint : GuardOptions F → ℕ → Joint → Result (Reason F) (Unit {0})
  judge_joint o joint j = do
    let step = abs (sub j.value j.before)
    refuse_if (flt o.max_step_joint step) (joint_step joint step)
    let low = add j.low o.joint_limit_inset
    let high = sub j.high o.joint_limit_inset
    refuse_if (not (fle low j.value && fle j.value high)) (joint_limit joint j.value)

  -- The loop, from the 1-based number of the first joint given.
  unfoldable pub judge_each : GuardOptions F → ℕ → List Joint → Result (Reason F) (Unit {0})
  judge_each o joint [] = ok tt
  judge_each o joint (j ∷ js) = judge_joint o joint j >> judge_each o (suc joint) js

  unfoldable pub joint_rows : Arr7 F → Arr7 F → JointLimits F → List Joint
  joint_rows q p l =
      record { value = q.a0; before = p.a0; low = l.lower.a0; high = l.upper.a0 }
      ∷ record { value = q.a1; before = p.a1; low = l.lower.a1; high = l.upper.a1 }
      ∷ record { value = q.a2; before = p.a2; low = l.lower.a2; high = l.upper.a2 }
      ∷ record { value = q.a3; before = p.a3; low = l.lower.a3; high = l.upper.a3 }
      ∷ record { value = q.a4; before = p.a4; low = l.lower.a4; high = l.upper.a4 }
      ∷ record { value = q.a5; before = p.a5; low = l.lower.a5; high = l.upper.a5 }
      ∷ record { value = q.a6; before = p.a6; low = l.lower.a6; high = l.upper.a6 }
      ∷ []

  -- `Guard::judge_joints` on the joints `q`, with the previous target and the limits.
  unfoldable pub judge_joints :
      GuardOptions F → Arr7 F → Arr7 F → JointLimits F → Result (Reason F) (Unit {0})
  judge_joints o previous q limits = do
    refuse_if (any_not_finite (elements q)) not_finite
    judge_each o 1 (joint_rows q previous limits)
