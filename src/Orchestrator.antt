-- ===== src/Orchestrator.antt =====
-- packages/agents/src/agents/orchestrator: the workflow graph and the task runner.
pub mod Graph
pub mod Tasks
mod Examples
