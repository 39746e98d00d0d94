-- ===== src/Robot/Modes.antt =====
-- The modes that a robot state reports, and those that a `Move` asks for
-- (crates/franka-rs/src/wire/robot/v10/rbk_types.rs and service_types/mod.rs).
use franka_rs.Common.{ℕ, Bool, true, false, if◌then◌else◌, ◌==◌}

-- `MotionGeneratorMode` of a state
pub data MotionGeneratorMode : Type 0 where
  idle joint_position joint_velocity cartesian_position : MotionGeneratorMode
  cartesian_velocity no_generator : MotionGeneratorMode

unfoldable pub motion_generator_code : MotionGeneratorMode → ℕ
motion_generator_code idle = 0
motion_generator_code joint_position = 1
motion_generator_code joint_velocity = 2
motion_generator_code cartesian_position = 3
motion_generator_code cartesian_velocity = 4
motion_generator_code no_generator = 5

-- `MotionGeneratorMode::from_u8(v).unwrap_or(Idle)`
unfoldable pub motion_generator_of : ℕ → MotionGeneratorMode
motion_generator_of v =
    if v == 1
    then joint_position
    else if v == 2
    then joint_velocity
    else if v == 3
    then cartesian_position
    else if v == 4
    then cartesian_velocity
    else if v == 5
    then no_generator
    else idle

-- `ControllerMode` of a state
pub data ControllerMode : Type 0 where
  joint_impedance cartesian_impedance external_controller other_controller : ControllerMode

unfoldable pub controller_code : ControllerMode → ℕ
controller_code joint_impedance = 0
controller_code cartesian_impedance = 1
controller_code external_controller = 2
controller_code other_controller = 3

-- `ControllerMode::from_u8(v).unwrap_or(Other)`
unfoldable pub controller_of : ℕ → ControllerMode
controller_of v =
    if v == 0
    then joint_impedance
    else if v == 1
    then cartesian_impedance
    else if v == 2
    then external_controller
    else other_controller

-- `RobotMode`
pub data RobotMode : Type 0 where
  other ready move guiding reflex user_stopped recovering : RobotMode

-- `RobotMode::from_u8(v).unwrap_or(Other)`
unfoldable pub robot_mode_of : ℕ → RobotMode
robot_mode_of v =
    if v == 1
    then ready
    else if v == 2
    then move
    else if v == 3
    then guiding
    else if v == 4
    then reflex
    else if v == 5
    then user_stopped
    else if v == 6
    then recovering
    else other

-- `mode == RobotMode::Move`, `mode == RobotMode::Other`
abbrev pub is_move : RobotMode → Bool
is_move move = true
is_move _ = false

abbrev pub is_other : RobotMode → Bool
is_other other = true
is_other _ = false

-- `a == b` on the modes
unfoldable pub same_generator : MotionGeneratorMode → MotionGeneratorMode → Bool
unfolding motion_generator_code
same_generator a b = motion_generator_code a == motion_generator_code b

unfoldable pub same_controller : ControllerMode → ControllerMode → Bool
unfolding controller_code
same_controller a b = controller_code a == controller_code b

-- A motion generator runs in every mode but `Idle` and `None`.
unfoldable pub generator_runs : MotionGeneratorMode → Bool
generator_runs idle = false
generator_runs no_generator = false
generator_runs _ = true

-- A controller of the client runs in `ExternalController` alone.
unfoldable pub controller_runs : ControllerMode → Bool
controller_runs external_controller = true
controller_runs _ = false

-- `MoveMotionGeneratorMode`, with the state's mode that it asks for
pub data MoveGenerator : Type 0 where
  move_joint_position move_joint_velocity move_cartesian_position : MoveGenerator
  move_cartesian_velocity move_torque_only : MoveGenerator

unfoldable pub asked_generator : MoveGenerator → MotionGeneratorMode
asked_generator move_joint_position = joint_position
asked_generator move_joint_velocity = joint_velocity
asked_generator move_cartesian_position = cartesian_position
asked_generator move_cartesian_velocity = cartesian_velocity
asked_generator move_torque_only = no_generator

-- `MoveControllerMode`, likewise
pub data MoveController : Type 0 where
  move_joint_impedance move_cartesian_impedance move_external : MoveController

unfoldable pub asked_controller : MoveController → ControllerMode
asked_controller move_joint_impedance = joint_impedance
asked_controller move_cartesian_impedance = cartesian_impedance
asked_controller move_external = external_controller
