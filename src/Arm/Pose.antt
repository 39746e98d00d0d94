-- ===== src/Arm/Pose.antt =====
-- `pose_target` of crates/franka-node/src/arm/state.rs: position and unit quaternion of a pose.
use franka_rs.Common.{ℕ, ◌+◌, ◌*◌, ◌&&◌, if◌then◌else◌}
use franka_rs.Float.{Float, Arr7}

module _ (fl : Float) where
  open fl use {F, add, sub, mul, div, sqrt, flt, decimal}

  -- A quaternion xyzw.
  pub record Quaternion : Type 0 where
    pub qx : F
    pub qy : F
    pub qz : F
    pub qw : F

  -- Shepperd's four cases on the entries `m row col` of the rotation.
  unfoldable pub shepperd : (ℕ → ℕ → F) → Quaternion
  shepperd m =
      let trace = add (add (m 0 0) (m 1 1)) (m 2 2) in
      let twice_root = λ (v : F). mul (sqrt v) (decimal 2 0) in
      let sw = twice_root (add trace (decimal 1 0)) in
      let sx = twice_root (sub (sub (add (decimal 1 0) (m 0 0)) (m 1 1)) (m 2 2)) in
      let sy = twice_root (sub (sub (add (decimal 1 0) (m 1 1)) (m 0 0)) (m 2 2)) in
      let sz = twice_root (sub (sub (add (decimal 1 0) (m 2 2)) (m 0 0)) (m 1 1)) in
      if flt (decimal 0 0) trace
      then record {
        qx = div (sub (m 2 1) (m 1 2)) sw;
        qy = div (sub (m 0 2) (m 2 0)) sw;
        qz = div (sub (m 1 0) (m 0 1)) sw;
        qw = mul (decimal 25 2) sw;
      }
      else if flt (m 1 1) (m 0 0) && flt (m 2 2) (m 0 0)
      then record {
        qx = mul (decimal 25 2) sx;
        qy = div (add (m 0 1) (m 1 0)) sx;
        qz = div (add (m 0 2) (m 2 0)) sx;
        qw = div (sub (m 2 1) (m 1 2)) sx;
      }
      else if flt (m 2 2) (m 1 1)
      then record {
        qx = div (add (m 0 1) (m 1 0)) sy;
        qy = mul (decimal 25 2) sy;
        qz = div (add (m 1 2) (m 2 1)) sy;
        qw = div (sub (m 0 2) (m 2 0)) sy;
      }
      else record {
        qx = div (add (m 0 2) (m 2 0)) sz;
        qy = div (add (m 1 2) (m 2 1)) sz;
        qz = mul (decimal 25 2) sz;
        qw = div (sub (m 1 0) (m 0 1)) sz;
      }

  -- `pose` is the column-major `[f64; 16]`.
  unfoldable pub pose_target : (ℕ → F) → Arr7 F
  unfolding shepperd
  pose_target pose =
      let q = shepperd (λ row col. pose (col * 4 + row)) in
      let norm =
        sqrt (add (add (add (mul q.qx q.qx) (mul q.qy q.qy)) (mul q.qz q.qz)) (mul q.qw q.qw)) in
      record {
        a0 = pose 12;
        a1 = pose 13;
        a2 = pose 14;
        a3 = div q.qx norm;
        a4 = div q.qy norm;
        a5 = div q.qz norm;
        a6 = div q.qw norm;
      }
