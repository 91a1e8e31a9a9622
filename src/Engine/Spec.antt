-- ===== src/Engine/Spec.antt =====
-- The specs of states: `to_spec` of each class (state.py, state_machine.py, behavior_sm.py,
-- parallel.py), and spec_loader.py, which builds states from specs.
pub mod Readers
pub mod Write
pub mod Build
pub mod Dictionaries
pub mod Attach
pub mod Rebuildable
pub mod RoundTrip
pub mod Lost
pub mod Conforming
pub mod Schema
pub mod Following
mod Tests
