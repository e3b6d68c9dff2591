-- ===== src/Extraction/Event.antt =====
-- src/memory_system/domain/models/archive_created_event.py
use memory_system.Shared.{String}
use memory_system.Shared.Int.{ℤ}

pub record ArchiveCreatedEvent : Type 0 where
  pub event_id : String
  pub event_type : String
  pub archive_id : String
  pub user_id : String
  pub session_id : String
  pub created_time : ℤ

abbrev pub archive_created_event_type : String
archive_created_event_type = "context.archive.created"
