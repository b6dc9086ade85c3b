-- ===== src/Agents.antt =====
-- backend/app/agents: the agent loop and the execution of plans.
pub mod Types
pub mod Loop
pub mod Plan
pub mod Build
pub mod Step
mod Tests
