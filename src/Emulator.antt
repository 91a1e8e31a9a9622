-- ===== src/Emulator.antt =====
-- mw_robot_emulator/mw_robot_emulator/virtual_robot_node.py: the robot that tests run against.
pub mod Robot
pub mod Services
pub mod Physics
pub mod Motion
pub mod Faults
pub mod Sound
mod Tests
