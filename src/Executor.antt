-- ===== src/Executor.antt =====
-- mw_task_manager/mw_task_manager/hfsm_executor_node.py: the node that runs a SubJob for each goal.
pub mod Node
pub mod Imports
pub mod Builder
pub mod Dispatch
pub mod Goals
pub mod Failures
pub mod Verdict
pub mod Overlap
pub mod Serial
pub mod Cancel
pub mod Stored
pub mod Saved
pub mod Samples
mod Tests
pub mod StoredSamples
mod StoredTests
mod NodeTests
