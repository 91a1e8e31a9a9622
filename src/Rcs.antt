-- ===== src/Rcs.antt =====
-- mw_rcs_bridge: orders from a fleet controller.
pub mod Schema
pub mod Bridge
pub mod Server
pub mod Orders
pub mod Ordered
pub mod Busy
pub mod Stored
mod Samples
mod StoredTests
mod Tests
