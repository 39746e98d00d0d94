-- ===== src/Robot/Codec/Encode.antt =====
-- The bytes of a `Move` and of a robot command (crates/franka-rs/src/wire/robot/codec/encode.rs, with
-- the constructors of wire/robot/v5 and v10). A double is its bit pattern.
use franka_rs.Common.{
  ℕ, zero, suc, Bool, true, false, Option, none, some, List, [], ◌∷◌, ◌++◌, Result, ok, err,
}
use franka_rs.Wire.{to_le_bytes}
use franka_rs.Robot.Codec.Versions.{FciVersion, v5, v10}
use franka_rs.Robot.Modes.{
  MoveGenerator, move_joint_position, move_joint_velocity, move_cartesian_position,
  move_cartesian_velocity, move_torque_only, MoveController, move_joint_impedance,
  move_cartesian_impedance, move_external,
}
use franka_rs.Robot.Session.{
  RobotCommand, MotionCommand, ControlCommand, RobotError, invalid_argument,
}

-- `f64s_to_wire`, as bytes
unfoldable pub f64s_to_wire : List ℕ → List ℕ
unfolding to_le_bytes
f64s_to_wire [] = []
f64s_to_wire (x ∷ xs) = to_le_bytes 8 x ++ f64s_to_wire xs

abbrev pub zeros : ℕ → List ℕ
zeros zero = []
zeros (suc n) = 0 ∷ zeros n

-- `u8::from`
abbrev pub flag : Bool → ℕ
flag true = 1
flag false = 0

-- `MoveControllerMode::to_u32` and `MoveMotionGeneratorMode::to_u32`
unfoldable pub move_controller_number : MoveController → ℕ
move_controller_number move_joint_impedance = 0
move_controller_number move_cartesian_impedance = 1
move_controller_number move_external = 2

unfoldable pub move_generator_number : MoveGenerator → ℕ
move_generator_number move_joint_position = 0
move_generator_number move_joint_velocity = 1
move_generator_number move_cartesian_position = 2
move_generator_number move_cartesian_velocity = 3
move_generator_number move_torque_only = 4

-- The fields that both versions have; a `Deviation` is its three doubles.
unfoldable pub move_fields : MoveController → MoveGenerator → List ℕ → List ℕ → List ℕ
unfolding move_controller_number move_generator_number f64s_to_wire to_le_bytes
move_fields controller generator path goal =
    to_le_bytes 4 (move_controller_number controller)
    ++ to_le_bytes 4 (move_generator_number generator)
    ++ f64s_to_wire path
    ++ f64s_to_wire goal

-- `move_request`
unfoldable pub move_request :
    FciVersion → MoveController → MoveGenerator → List ℕ → List ℕ → Result RobotError (List ℕ)
unfolding move_fields f64s_to_wire
move_request v5 controller move_torque_only path goal = err (
    invalid_argument
      "libfranka: Move: motion generator mode None is not available on FCI version 5.")
move_request v5 controller generator path goal = ok (move_fields controller generator path goal)
move_request v10 controller generator path goal =
    ok (move_fields controller generator path goal ++ 0 ∷ f64s_to_wire (zeros 7))

-- The fields of a command, zeros where a part is not given
unfoldable pub motion_fields : Option MotionCommand → List ℕ
unfolding f64s_to_wire
motion_fields none = f64s_to_wire (zeros 38) ++ 0 ∷ 0 ∷ []
motion_fields (some m) =
    f64s_to_wire m.values ++ flag m.valid_elbow ∷ flag m.motion_generation_finished ∷ []

unfoldable pub torque_fields : Option ControlCommand → List ℕ
unfolding f64s_to_wire
torque_fields none = f64s_to_wire (zeros 7)
torque_fields (some c) = f64s_to_wire c.torques

unfoldable pub torque_flag : Option ControlCommand → ℕ
torque_flag none = 0
torque_flag (some c) = flag c.torque_command_finished

-- `robot_command`
unfoldable pub robot_command : FciVersion → RobotCommand → List ℕ
unfolding motion_fields torque_fields torque_flag to_le_bytes
robot_command v5 d = to_le_bytes 8 d.message_id ++ motion_fields d.motion ++ torque_fields d.control
robot_command v10 d =
    to_le_bytes 8 d.message_id
    ++ motion_fields d.motion
    ++ torque_fields d.control
    ++ torque_flag d.control ∷ []
