-- ===== src/Motor.antt =====
-- The execution motor, agent-core/zone-b/execution-motor/execution_motor: one module for each of
-- its files, and modules for what is proved of them.
mod Tests
pub mod Models
pub mod Config
pub mod Attestation
pub mod Halt
pub mod Limits
pub mod Router
pub mod World
pub mod Reports
pub mod Pipeline
pub mod Execute
pub mod Cleared
pub mod Gate
pub mod Send
pub mod Keeps
pub mod Session
pub mod Room
pub mod Settled
pub mod Verdicts
pub mod Ready
pub mod Answers
pub mod Watch
pub mod Validators
pub mod Service
pub mod Canonical
pub mod Proto
pub mod Compliance
pub mod Handle
