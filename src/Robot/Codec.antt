-- ===== src/Robot/Codec.antt =====
-- What differs between the versions of the control interface (crates/franka-rs/src/wire/robot/codec).
pub mod Versions
pub mod Statuses
pub mod Encode
pub mod Laws
pub mod Sizes
