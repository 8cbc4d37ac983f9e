-- ===== src/Approval.antt =====
-- dare_framework/tool/_internal/control/approval_manager.py
pub mod Types
pub mod Params
pub mod Rules
pub mod Manager
pub mod Calls
pub mod Resolve
pub mod Polling
pub mod Selection
pub mod Decision
pub mod Invariant
pub mod Resolution
pub mod Waiters
pub mod Once
pub mod Persistence
pub mod Memory
pub mod Dedup
pub mod Order
mod Tests
