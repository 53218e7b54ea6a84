-- ===== src/Sharp.antt =====
-- The SHARP promotion gate, agent-core/zone-c/sharp-gate/afe_sharp: the change of a rubric is
-- signed off stage by stage, and its history is audited.
pub mod Tests
pub mod Json
pub mod Models
pub mod Stored
pub mod Fold
pub mod Reached
pub mod Promotion
pub mod Backed
pub mod Gate
pub mod Requests
pub mod Commit
pub mod Rows
pub mod Guards
pub mod Closed
pub mod Roles
