-- ===== src/Adaptive.antt =====
-- backend/app/adaptive: the review utility model ARUM.
pub mod Weights
pub mod Features
pub mod Scoring
pub mod Selection
pub mod Rag
pub mod Feedback
pub mod Memory
pub mod Learning
