-- ===== src/Agent.antt =====
-- The loops of the agent: dare_framework/agent/_internal.
pub mod Sandbox
pub mod Restore
pub mod Milestone
pub mod Attempts
pub mod Failure
pub mod Report
pub mod Session
pub mod Outcome
pub mod ToolLoop
pub mod ToolEnds
pub mod ToolPermits
mod Tests
mod ToolTests
