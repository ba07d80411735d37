-- ===== src/Consolidation.antt =====
-- backend/app/consolidation: from agent output to candidate findings and redundancy groups.
pub mod Datatypes
pub mod Similarity
pub mod Redundancy
pub mod Consolidate
