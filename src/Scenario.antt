-- ===== src/Scenario.antt =====
-- crates/scenario-engine/src: the scenarios, their check, and their run.
pub mod Schema
pub mod Texts
pub mod Validate
pub mod Valid
pub mod Rejection
pub mod Checks
pub mod Validity
pub mod Environment
pub mod Closed
pub mod Engine
pub mod Run
pub mod Story
pub mod Sleep
pub mod Tests
