-- ===== src/Context.antt =====
-- The agent's context: messages in short-term memory, the resource budget, and the queue of user
-- guidance (dare_framework/context/context.py, dare_framework/context/types.py and
-- dare_framework/guidance/guidance_queue.py).
pub mod Budget
pub mod Guidance
pub mod Memory
pub mod Limits
pub mod Delivery
mod Tests
