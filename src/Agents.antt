-- ===== src/Agents.antt =====
-- backend/app/agents: what the review agents are given, the categories that they own, the parser of
-- their answers, and the slices of a diff.
pub mod Contract
pub mod Prompts
pub mod Parse
pub mod Diff
