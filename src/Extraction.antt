-- ===== src/Extraction.antt =====
-- The extraction side of the service: src/memory_system/domain/services/extraction_*.py with its
-- MongoDB collection of tasks.
pub mod Event
pub mod Task
pub mod Collection
pub mod World
pub mod Lifecycle
pub mod Repository
pub mod Consumer
pub mod Strip
pub mod Admin
pub mod Fake
pub mod Examples
