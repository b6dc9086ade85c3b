-- ===== src/Workflow.antt =====
-- backend/app/workflow: the graphs, their nodes, and the engine that runs them.
pub mod Node
pub mod Graph
pub mod Value
pub mod Context
pub mod Human
pub mod Execute
pub mod Engine
pub mod Executor
pub mod Registry
pub mod Tests
