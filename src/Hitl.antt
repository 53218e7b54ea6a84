-- ===== src/Hitl.antt =====
-- agent-core/zone-c/hitl-backend: held signals, the operators' decisions on them, authentication
-- and the configuration at start-up.
pub mod Python
pub mod Holds
pub mod Approvers
pub mod Body
pub mod Decide
pub mod Service
pub mod Orderly
pub mod Asks
pub mod Session
pub mod Completes
pub mod Unscored
pub mod Replay
pub mod Keys
pub mod Auth
pub mod Verified
pub mod Startup
pub mod FromEnv
pub mod Hardened
pub mod Main
mod Tests
