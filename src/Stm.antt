-- ===== src/Stm.antt =====
-- Short-term memory: the working memory of a session, its compression and its closing.
pub mod Message
pub mod Meta
pub mod Settings
pub mod Select
pub mod Split
pub mod Round
pub mod Rounds
pub mod Plan
pub mod Close
pub mod Examples
