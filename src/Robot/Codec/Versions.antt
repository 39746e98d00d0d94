-- ===== src/Robot/Codec/Versions.antt =====
-- The two protocol versions, the commands and their numbers (crates/franka-rs/src/wire/robot/codec/mod.rs).
use franka_rs.Common.{ℕ, Option, none, some}

-- `FciVersion`
pub data FciVersion : Type 0 where
  v5 v10 : FciVersion

-- `CommandKind`
pub data CommandKind : Type 0 where
  connect move stop_move : CommandKind
  get_cartesian_limit set_collision_behavior set_joint_impedance : CommandKind
  set_cartesian_impedance set_guiding_mode set_ee_to_k : CommandKind
  set_ne_to_ee set_load set_filters : CommandKind
  automatic_error_recovery load_model_library get_robot_model : CommandKind

-- `FciVersion::number`, `connect_version`
unfoldable pub connect_version : FciVersion → ℕ
connect_version v5 = 5
connect_version v10 = 10

-- `state_size` and `command_size`
unfoldable pub state_size : FciVersion → ℕ
state_size v5 = 2373
state_size v10 = 1377

unfoldable pub command_size : FciVersion → ℕ
command_size v5 = 370
command_size v10 = 371

-- The numbers under version 5, then under version 10
unfoldable pub command_id_v5 : CommandKind → Option ℕ
command_id_v5 connect = some 0
command_id_v5 move = some 1
command_id_v5 stop_move = some 2
command_id_v5 get_cartesian_limit = some 3
command_id_v5 set_collision_behavior = some 4
command_id_v5 set_joint_impedance = some 5
command_id_v5 set_cartesian_impedance = some 6
command_id_v5 set_guiding_mode = some 7
command_id_v5 set_ee_to_k = some 8
command_id_v5 set_ne_to_ee = some 9
command_id_v5 set_load = some 10
command_id_v5 set_filters = some 11
command_id_v5 automatic_error_recovery = some 12
command_id_v5 load_model_library = some 13
command_id_v5 get_robot_model = none

unfoldable pub command_id_v10 : CommandKind → Option ℕ
command_id_v10 connect = some 0
command_id_v10 move = some 1
command_id_v10 stop_move = some 2
command_id_v10 get_cartesian_limit = none
command_id_v10 set_collision_behavior = some 3
command_id_v10 set_joint_impedance = some 4
command_id_v10 set_cartesian_impedance = some 5
command_id_v10 set_guiding_mode = some 6
command_id_v10 set_ee_to_k = some 7
command_id_v10 set_ne_to_ee = some 8
command_id_v10 set_load = some 9
command_id_v10 set_filters = none
command_id_v10 automatic_error_recovery = some 10
command_id_v10 load_model_library = none
command_id_v10 get_robot_model = some 11

-- `command_id`
unfoldable pub command_id : FciVersion → CommandKind → Option ℕ
unfolding command_id_v5 command_id_v10
command_id v5 kind = command_id_v5 kind
command_id v10 kind = command_id_v10 kind
