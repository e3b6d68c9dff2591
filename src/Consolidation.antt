-- ===== src/Consolidation.antt =====
-- Consolidation: the periodic rescoring of the memories of every user.
pub mod Double
pub mod Write
pub mod Importance
pub mod Batch
pub mod Run
pub mod Examples
