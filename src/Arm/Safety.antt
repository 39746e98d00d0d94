-- ===== src/Arm/Safety.antt =====
-- What holds of an arm's machine between two events, and how the operations keep it.
mod Invariant
mod Ending
mod Starting
mod Keeping
mod Running
mod Reachable
pub mod Runs
pub mod Leases
pub mod Watchdog
pub mod Targets
pub use Invariant.*
pub use Ending.*
pub use Starting.*
pub use Keeping.*
pub use Running.*
pub use Reachable.*
pub mod Batches
pub mod Tuning
pub mod Grip
