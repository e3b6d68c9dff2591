-- ===== src/Reconciliation.antt =====
-- Reconciliation: what the candidates of one archive do to the memories of a user.
pub mod Candidate
pub mod Groups
pub mod Choice
pub mod Plan
pub mod Examples
