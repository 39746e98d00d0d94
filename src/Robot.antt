-- ===== src/Robot.antt =====
-- The client of the arm's control interface (crates/franka-rs/src/robot).
pub mod Codec
pub mod Modes
pub mod Session
pub mod Responses
pub mod Motion
pub mod ControlLoop
pub mod Connect
pub mod Logger
pub mod TargetControl
