-- ===== src/Robot/Codec/Sizes.antt =====
-- How long the messages are (crates/franka-rs/src/wire/robot/codec/encode.rs).
use franka_rs.Common.{
  ℕ, zero, suc, ◌*◌, ◌/◌, ◌≡◌, Option, none, some, List, [], ◌∷◌, ◌++◌, refl, arith, length,
  length-append,
}
use franka_rs.Wire.{to_le_bytes}
use franka_rs.Robot.Codec.Versions.{FciVersion, v5, v10, command_size}
use franka_rs.Robot.Codec.Encode.{
  f64s_to_wire, zeros, flag, motion_fields, torque_fields, torque_flag, robot_command,
}
use franka_rs.Robot.Session.{RobotCommand, MotionCommand, ControlCommand}

length-to_le_bytes : (count n : ℕ) → length (to_le_bytes count n) ≡ count
unfolding to_le_bytes
length-to_le_bytes zero n = refl
length-to_le_bytes (suc count) n = omega (arith, length-to_le_bytes count (n / 256))

length-f64s_to_wire : (xs : List ℕ) → length (f64s_to_wire xs) ≡ 8 * length xs
unfolding f64s_to_wire
length-f64s_to_wire [] = refl
length-f64s_to_wire (x ∷ xs) =
    let e = length-append (to_le_bytes 8 x) (f64s_to_wire xs) in
    let a = length-to_le_bytes 8 x in let b = length-f64s_to_wire xs in omega (arith, e, a, b)

abbrev SizedMotion : Option MotionCommand → Type 0
SizedMotion none = Unit {0}
SizedMotion (some m) = length m.values ≡ 38

abbrev SizedTorques : Option ControlCommand → Type 0
SizedTorques none = Unit {0}
SizedTorques (some c) = length c.torques ≡ 7

-- A command's arrays have the lengths of the struct's.
abbrev pub IsSized : RobotCommand → Type 0
IsSized d = SizedMotion d.motion × SizedTorques d.control

length-motion_fields : (m : Option MotionCommand) → SizedMotion m → length (motion_fields m) ≡ 306
unfolding motion_fields
length-motion_fields none h =
    let e = length-append (f64s_to_wire (zeros 38)) (0 ∷ 0 ∷ []) in
    let a = length-f64s_to_wire (zeros 38) in omega (arith, e, a)
length-motion_fields (some m) h =
    let e =
      length-append (f64s_to_wire m.values)
        (flag m.valid_elbow ∷ flag m.motion_generation_finished ∷ []) in
    let a = length-f64s_to_wire m.values in omega (arith, e, a, h)

length-torque_fields : (c : Option ControlCommand) → SizedTorques c → length (torque_fields c) ≡ 56
unfolding torque_fields
length-torque_fields none h = length-f64s_to_wire (zeros 7)
length-torque_fields (some c) h = let a = length-f64s_to_wire c.torques in omega (arith, a, h)

-- The bytes of a command whose arrays have the lengths of the struct's are as many as the version's
-- `command_size` says.
pub length-robot_command :
    (v : FciVersion) (d : RobotCommand) → IsSized d → length (robot_command v d) ≡ command_size v
unfolding robot_command command_size
length-robot_command v5 d (m, c) =
    let id = to_le_bytes 8 d.message_id in
    let e = length-append (id ++ motion_fields d.motion) (torque_fields d.control) in
    let f = length-append id (motion_fields d.motion) in
    let i = length-to_le_bytes 8 d.message_id in
    let a = length-motion_fields d.motion m in
    let b = length-torque_fields d.control c in omega (arith, e, f, i, a, b)
length-robot_command v10 d (m, c) =
    let id = to_le_bytes 8 d.message_id in
    let body = id ++ motion_fields d.motion ++ torque_fields d.control in
    let g = length-append body (torque_flag d.control ∷ []) in
    let e = length-append (id ++ motion_fields d.motion) (torque_fields d.control) in
    let f = length-append id (motion_fields d.motion) in
    let i = length-to_le_bytes 8 d.message_id in
    let a = length-motion_fields d.motion m in
    let b = length-torque_fields d.control c in omega (arith, g, e, f, i, a, b)
