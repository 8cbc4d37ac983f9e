-- ===== src/Planner.antt =====
-- The planner's state and tools: dare_framework/plan_v2/types.py and dare_framework/plan_v2/tools.py.
pub mod State
pub mod Tools
pub mod Delegation
pub mod Lifecycle
pub mod Progress
pub mod Delegated
pub mod Final
pub mod Copy
mod Tests
