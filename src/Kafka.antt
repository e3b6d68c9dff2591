-- ===== src/Kafka.antt =====
-- The Kafka topic of archive-created events: its publisher and its consumer.
pub mod Wire
pub mod Loop
pub mod Examples
