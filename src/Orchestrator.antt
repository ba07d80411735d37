-- ===== src/Orchestrator.antt =====
-- backend/app/orchestrator: the iteration engine and the state machine.
pub mod Iteration
pub mod Graph
pub mod Messages
pub mod Service
