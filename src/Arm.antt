-- ===== src/Arm.antt =====
-- The thread of one arm of franka-node (crates/franka-node/src/arm): the state machine, its verbs,
-- the live-tuning surface and the gripper.
pub mod Pose
pub mod Platform
pub mod Machine
pub mod Params
pub mod Publish
pub mod Session
pub mod Start
pub mod Gripper
pub mod Commands
pub mod Loop
pub mod Thread
pub mod Backlog
pub mod Safety
