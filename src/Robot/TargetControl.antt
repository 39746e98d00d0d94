-- ===== src/Robot/TargetControl.antt =====
-- Target control (crates/franka-rs/src/robot/target_control).
pub mod Slot
pub mod Runner
pub mod Tuning
pub mod Handle
