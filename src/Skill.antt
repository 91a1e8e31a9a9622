-- ===== src/Skill.antt =====
-- mw_hfsm_ros and mw_skill_states: states that call the action of a skill server.
pub mod Future
pub mod Lifecycle
pub mod Parameters
pub mod DriveToPose
pub mod MoveMotor
mod Tests
mod StateTests
