-- ===== src/MultiAgent.antt =====
-- backend/app/multi_agent: agents that a coordinator picks for the parts of a request.
pub mod Bus
pub mod Memory
pub mod Registry
pub mod Router
pub mod Task
pub mod Coordinator
mod Tests
