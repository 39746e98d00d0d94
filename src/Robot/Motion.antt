-- ===== src/Robot/Motion.antt =====
-- The life of a motion (crates/franka-rs/src/robot/robot_impl/motion.rs).
pub mod Stopping
pub mod Cycle
pub mod Start
pub mod Finish
pub mod Abort
pub mod Loops
pub mod Fuel
pub mod Ends
pub mod Cancel
pub mod Sending
pub mod Served
pub mod Lively
pub mod Said
pub mod Starts
