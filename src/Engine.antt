-- ===== src/Engine.antt =====
-- mw_hfsm_engine: the HFSM runtime.
pub mod World
pub mod Registry
pub mod Machine
pub mod Retry
pub mod Behavior
pub mod Parallel
pub mod Tree
pub mod Spec
pub mod SubJob
pub mod Userdata
mod Tests
mod CompositeTests
