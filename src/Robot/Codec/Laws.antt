-- ===== src/Robot/Codec/Laws.antt =====
-- What the numbering of commands and statuses promises (crates/franka-rs/src/wire/robot/codec).
use franka_rs.Common.{ℕ, ◌≡◌, some, arith}
use franka_rs.Robot.Codec.Versions.{FciVersion, v5, v10, CommandKind, command_id}
use franka_rs.Robot.Codec.Statuses.{MoveStatus, parse_move_status}

-- No number stands for two commands of one version.
pub command_id-injective :
    (v : FciVersion) (a b : CommandKind) {n : ℕ}
    → command_id v a ≡ some n
    → command_id v b ≡ some n
    → a ≡ b
unfolding command_id
command_id-injective v5 a b p q = ground arith
command_id-injective v10 a b p q = ground arith

-- No two bytes stand for one status of a `Move` under one version.
pub parse_move_status-injective :
    (v : FciVersion) (a b : ℕ) {s : MoveStatus}
    → parse_move_status v a ≡ some s
    → parse_move_status v b ≡ some s
    → a ≡ b
unfolding parse_move_status
parse_move_status-injective v5 a b p q = ground arith
parse_move_status-injective v10 a b p q = ground arith
